-- ===== src/Batch/RollupLaws.antt =====
-- server/webrtc/batch_manager.go: the recursion of the rollup and the windows that it reads.
use unblink.Base.{
  is_empty, ℕ, zero, suc, ◌≡◌, refl, ◌+◌, ◌*◌, ◌-◌, ◌≤◌, ◌<◌, true, Option, none, some, List, [],
  ◌∷◌, String, length, if◌then◌else◌, string_eq, arith, ◌⊎◌, ◌↔◌, ◌==◌, Option-cases, inl, inr,
}
use unblink.Base.{Bool-cases, ◌&&◌}
use unblink.Base.Dict.{lookup-nil}
use unblink.Base.Dict.{lookup, insert, erase, lookup-insert, lookup-erase}
use unblink.TimeUtil.{
  GranularityLevel, second, minute, hour, day, week, month, other, level_eq, next_granularity,
  min_seconds_for_granularity,
}
use unblink.Batch.{BatchManager, RollupWindow}
use unblink.Batch.Rollup.{
  second_ns, windows_of, extend_window, window_ready, extend_rollup_window, clear_rollup_window,
  Event, Backend, build_tier, build_higher,
}

-- The tiers above a level.
abbrev pub tiers_above : GranularityLevel → ℕ
tiers_above second = 5
tiers_above minute = 4
tiers_above hour = 3
tiers_above day = 2
tiers_above week = 1
tiers_above _ = 0

next-tiers :
    (g h : GranularityLevel) → next_granularity g ≡ (h, true) → tiers_above g ≡ suc (tiers_above h)
unfolding next_granularity
next-tiers second h e = ground arith
next-tiers minute h e = ground arith
next-tiers hour h e = ground arith
next-tiers day h e = ground arith
next-tiers week h e = ground arith
next-tiers month h e = ground arith
next-tiers (other s) h e = ground arith

-- Each event is one tier above the one before it, starting above g, and covers at least the time
-- that its tier asks for.
abbrev pub Climbs : GranularityLevel → List Event → Type 0
Climbs g [] = Unit
Climbs g (e ∷ es) =
    (next_granularity g ≡ (e.granularity, true))
    × (min_seconds_for_granularity e.granularity * second_ns ≤ e.to - e.from)
    × Climbs e.granularity es

build_tier-event :
    (b : Backend) (m : BatchManager) (sid : String) (g h : GranularityLevel) (from to : ℕ)
    (e : Event)
    → (build_tier b m sid g h from to).1 ≡ some e
    → (e.granularity ≡ h) × (min_seconds_for_granularity h * second_ns ≤ e.to - e.from)
unfolding build_tier
build_tier-event b m sid g h from to e eq = ground arith

length-Climbs : (g : GranularityLevel) (es : List Event) → Climbs g es → length es ≤ tiers_above g
length-Climbs g [] c = omega arith
length-Climbs g (e ∷ es) (n, _, c) =
    omega (arith, next-tiers g e.granularity n, length-Climbs e.granularity es c)

-- The recursion up the tiers ends, whatever the database and the model answer: fuel above the
-- number of coarser levels is enough. The events that it creates climb one tier at a time, and each
-- covers at least the time that its tier asks for.
pub build_higher-Climbs :
    (fuel : ℕ) (b : Backend) (m : BatchManager) (sid : String) (g : GranularityLevel) (from to : ℕ)
    → tiers_above g < fuel
    → (m' : BatchManager) × (es : List Event) × (build_higher fuel b m sid g from to
        ≡ some (m', es))
      × Climbs g es
unfolding build_higher
build_higher-Climbs zero b m sid g from to h = absurd (omega arith)
build_higher-Climbs (suc fuel) b m sid g from to h =
    let next = (next_granularity g).0 in
    let tier = build_tier b m sid g next from to in
    elim (Bool-cases ((next_granularity g).1 && b.has_db)) [
      | inr stop ↦ (m, [], rw stop, tt)
      | inl go ↦ elim (Option-cases tier.1) [
        | inl nothing ↦ (tier.0, [], rw (go, nothing), tt)
        | inr (e, made) ↦
            let up : next_granularity g ≡ (next, true) = ground arith in
            let (level, span) = build_tier-event b m sid g next from to e made in
            let (m', es, done, climbs) =
              build_higher-Climbs fuel b tier.0 sid next e.from e.to
                (omega (arith, next-tiers g next up)) in
            (m', e ∷ es, rw (go, made, done), (rw level up, rw level span, rw level climbs))
      ]
    ]

abbrev pub window_at : String → GranularityLevel → BatchManager → Option RollupWindow
window_at sid level m = lookup level (windows_of sid m)

-- Extending a window touches no other window: not that of another service, nor another level.
pub window_at-extend_rollup_window :
    (s sid : String) (l level : GranularityLevel) (m : BatchManager) (from to threshold : ℕ)
    → window_at s l (extend_rollup_window m sid level from to threshold).0 ≡ (
        if s == sid && l == level
        then some (extend_window (window_at sid level m) from to)
        else window_at s l m)
unfolding extend_rollup_window
window_at-extend_rollup_window s sid l level m from to threshold =
    let windows = windows_of sid m in
    let w = extend_window (lookup level windows) from to in
    ground (
      arith,
      lookup-insert s sid (insert level w windows) m.rollup_windows,
      lookup-insert l level w windows,
    )

lookup-is_empty :
    (l : GranularityLevel) (d : List (GranularityLevel × RollupWindow))
    → is_empty d ≡ true
    → lookup l d ≡ none
unfolding lookup
lookup-is_empty l [] h = refl
lookup-is_empty l (x ∷ d) h = cc

-- Clearing removes exactly the one window; a service left with none is dropped from the map, which
-- shows in no lookup.
pub window_at-clear_rollup_window :
    (s sid : String) (l level : GranularityLevel) (m : BatchManager)
    → window_at s l (clear_rollup_window m sid level)
      ≡ (if s == sid && l == level then none else window_at s l m)
unfolding clear_rollup_window
window_at-clear_rollup_window s sid l level m = elim (Option-cases (lookup sid m.rollup_windows)) [
  | inl gone ↦
      rw (gone, clear_rollup_window) (ground (arith, gone, lookup-nil {V = RollupWindow} l))
  | inr (windows, here) ↦ ground (
    arith,
    here,
    lookup-nil {V = RollupWindow} l,
    lookup-is_empty l (erase level windows),
    lookup-erase s sid m.rollup_windows,
    lookup-insert s sid (erase level windows) m.rollup_windows,
    lookup-erase l level windows,
  )
]

-- The window after an extension is the least span that holds the batch and the window before, and
-- it is ready exactly when it is at least the threshold long, if the batch does not end before it
-- begins and neither did the window.
pub extend_window_hull :
    (w : RollupWindow) (from to threshold : ℕ)
    → w.from ≤ w.to
    → from ≤ to
    → let v = extend_window (some w) from to in
      (v.from ≤ w.from)
      × (v.from ≤ from)
      × (w.to ≤ v.to)
      × (to ≤ v.to)
      × ((v.from ≡ w.from) ⊎ (v.from ≡ from))
      × ((v.to ≡ w.to) ⊎ (v.to ≡ to))
      × ((window_ready v threshold ≡ true) ↔ (v.from + threshold * second_ns ≤ v.to))
unfolding extend_window
extend_window_hull w from to threshold h k = ground arith
