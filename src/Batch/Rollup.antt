-- ===== src/Batch/Rollup.antt =====
-- server/webrtc/batch_manager.go, the rollup windows: `extendRollupWindow`, `clearRollupWindow` and
-- the recursion of `maybeBuildHigherGranularity` up the tiers.
use unblink.Base.{
  value_or, is_empty, ℕ, zero, suc, ◌+◌, ◌*◌, ◌/◌, ◌&&◌, Bool, true, false, Option, none, some,
  List, [], ◌∷◌, String, if◌then◌else◌, ltb, string_eq,
}
use unblink.Base.Int.{ℤ, pos, negsuc, sub_ℕ, ltb_ℤ}
use unblink.Base.Dict.{Dict, lookup, insert, erase}
use unblink.TimeUtil.{GranularityLevel, level_eq, next_granularity, min_seconds_for_granularity}
use unblink.Batch.{VlmResponse, RollupWindow, BatchManager}

abbrev pub second_ns : ℕ
second_ns = 1000000000

-- `int64(d.Seconds())` cuts towards zero.
abbrev pub whole_seconds : ℤ → ℤ
whole_seconds (pos n) = pos (n / second_ns)
whole_seconds (negsuc n) = sub_ℕ 0 ((n + 1) / second_ns)

abbrev pub windows_of : String → BatchManager → Dict GranularityLevel RollupWindow
windows_of sid m = value_or [] (lookup sid m.rollup_windows)

-- The window with the batch's span added.
unfoldable pub extend_window : Option RollupWindow → ℕ → ℕ → RollupWindow
extend_window none from to = record { from = from; to = to }
extend_window (some w) from to = record {
  from = if ltb from w.from then from else w.from;
  to = if ltb w.to to then to else w.to;
}

-- `win.to.Sub(win.from) < time.Duration(thresholdSeconds)*time.Second`, negated.
abbrev pub window_ready : RollupWindow → ℕ → Bool
window_ready w threshold =
    if ltb_ℤ (sub_ℕ w.to w.from) (pos (threshold * second_ns)) then false else true

-- `extendRollupWindow`: the new state, the window's ends, and whether it is ready.
unfoldable pub extend_rollup_window :
    BatchManager → String → GranularityLevel → ℕ → ℕ → ℕ → BatchManager × ℕ × ℕ × Bool
unfolding extend_window
extend_rollup_window m sid level from to threshold =
    let windows = windows_of sid m in
    let w = extend_window (lookup level windows) from to in
    (
      record m { rollup_windows = insert sid (insert level w windows) m.rollup_windows },
      w.from,
      w.to,
      window_ready w threshold,
    )

-- `clearRollupWindow`
unfoldable pub clear_rollup_window : BatchManager → String → GranularityLevel → BatchManager
clear_rollup_window m sid level = elim (lookup sid m.rollup_windows) [
  | none ↦ m
  | some windows ↦
      let rest = erase level windows in
      if is_empty rest
      then record m { rollup_windows = erase sid m.rollup_windows }
      else record m { rollup_windows = insert sid rest m.rollup_windows }
]

-- An event row: `createAndBroadcastEvent` stores it with a fresh id and sends it to subscribers.
pub record Event : Type 0 where
  pub service_id : String
  pub granularity : GranularityLevel
  pub from : ℕ
  pub to : ℕ
  pub response : VlmResponse

-- What the rollup asks of the database (`m.db`, which may be nil) and the model. `none` and `false` are errors.
pub record Backend : Type 0 where
  pub has_db : Bool
  pub list_events : String → GranularityLevel → ℕ → ℕ → Option (List Event)
  pub aggregate :
      String → GranularityLevel → GranularityLevel → ℕ → ℕ → List Event → Option VlmResponse
  pub create_event : Event → Bool

-- One tier: extend the window and, if it is ready, list, aggregate, create and clear. The third
-- part is the event that was created, with which the code goes on to the next tier.
unfoldable pub build_tier :
    Backend
    → BatchManager
    → String
    → GranularityLevel
    → GranularityLevel
    → ℕ
    → ℕ
    → BatchManager × Option Event
unfolding extend_rollup_window clear_rollup_window
build_tier b m sid lower next lower_from lower_to =
    let (m', from, to, ready) =
      extend_rollup_window m sid lower lower_from lower_to (min_seconds_for_granularity next) in
    if ready
    then elim (b.list_events sid lower from to) [
      | none ↦ (m', none)
      | some [] ↦ (m', none)
      | some (e ∷ es) ↦ elim (b.aggregate sid lower next from to (e ∷ es)) [
        | none ↦ (m', none)
        | some response ↦
            let event : Event = record {
              service_id = sid;
              granularity = next;
              from = from;
              to = to;
              response = response;
            } in
            if b.create_event event
            then (clear_rollup_window m' sid lower, some event)
            else (m', none)
      ]
    ]
    else (m', none)

-- `maybeBuildHigherGranularity` on fuel: the state and the events created, in order. `none` means
-- that the fuel ran out.
unfoldable pub build_higher :
    ℕ
    → Backend
    → BatchManager
    → String
    → GranularityLevel
    → ℕ
    → ℕ
    → Option (BatchManager × List Event)
unfolding build_tier
build_higher zero b m sid lower from to = none
build_higher (suc fuel) b m sid lower from to =
    let (next, coarser) = next_granularity lower in
    let (m', created) = build_tier b m sid lower next from to in
    if coarser && b.has_db
    then elim created [
      | none ↦ some (m', [])
      | some e ↦ elim (build_higher fuel b m' sid next e.from e.to) [
        | none ↦ none
        | some (m'', es) ↦ some (m'', e ∷ es)
      ]
    ]
    else some (m, [])
