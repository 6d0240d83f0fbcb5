-- ===== src/NodeConn/Channels.antt =====
-- Go's buffered channels, as server/node_conn.go uses them: in a heap, each under its number. A
-- panic is `none`.
use unblink.Base.{
  ℕ, Bool, true, false, Option, none, some, List, [], ◌∷◌, ◌++◌, length, ltb, if◌then◌else◌,
  on_some, nat_eq,
}
use unblink.Base.Dict.{Dict, lookup, insert}

pub record Channel {ℓ} (A : Type ℓ) : Type ℓ where
  pub items : List A
  pub closed : Bool

abbrev pub empty_channel {ℓ} : {A : Type ℓ} → Channel A
empty_channel = record { items = []; closed = false }

abbrev pub Heap {ℓ} : Type ℓ → Type ℓ
Heap A = Dict ℕ (Channel A)

module _ {ℓ} {A : Type ℓ} where
  -- `close(ch)`, which panics on a closed channel.
  unfoldable pub close_channel : ℕ → Heap A → Option (Heap A)
  close_channel k h =
      on_some (lookup k h) none
        λ ch. if ch.closed then none else some (insert k (record ch { closed = true }) h)

  -- `select { case ch <- a: default: }`, which panics on a closed channel and drops what finds the
  -- buffer full.
  unfoldable pub try_send : ℕ → ℕ → A → Heap A → Option (Heap A)
  try_send capacity k a h = on_some (lookup k h) none λ ch.
      if ch.closed
      then none
      else if ltb (length ch.items) capacity
      then some (insert k (record ch { items = ch.items ++ a ∷ [] }) h)
      else some h

  -- The loop `for _, ch := range m { close(ch) }`.
  unfoldable pub close_all {κ} : {K : Type κ} → Dict K ℕ → Heap A → Option (Heap A)
  close_all [] h = some h
  close_all ((_, k) ∷ d) h = on_some (close_channel k h) none (λ h'. close_all d h')
