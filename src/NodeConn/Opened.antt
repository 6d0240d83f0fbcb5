-- ===== src/NodeConn/Opened.antt =====
-- Go's channels: what a send or an end elsewhere leaves of a channel that is open.
use unblink.Base.{
  ℕ, ◌≡◌, true, false, some, [], ◌∷◌, ◌++◌, ◌==◌, nat_eq, length, ltb, arith, Option-cases,
  Bool-cases, inl, inr,
}
use unblink.Base.Dict.{lookup, insert, lookup-insert}
use unblink.NodeConn.Channels.{Channel, Heap, close_channel, try_send}
use unblink.NodeConn.Safety.{IsOpen, Keeps-insert}

module _ {ℓ} {A : Type ℓ} where
  pub try_send-IsOpen :
      (capacity k j : ℕ) (a : A) (h h' : Heap A)
      → try_send capacity j a h ≡ some h'
      → IsOpen k h
      → IsOpen k h'
  unfolding try_send
  try_send-IsOpen capacity k j a h h' e o = elim (Option-cases (lookup j h)) [
    | inl gone ↦ absurd (ground (arith, e, gone))
    | inr (ch, here) ↦ elim (Bool-cases ch.closed) [
      | inl shut ↦ absurd (ground (arith, e, here, shut))
      | inr live ↦ elim (Bool-cases (ltb (length ch.items) capacity)) [
        | inl room ↦
            let grown : Channel A = record ch { items = ch.items ++ a ∷ [] } in
            let same : insert j grown h ≡ h' = ground (arith, e, here, live, room) in
            rw (← same) (Keeps-insert j grown h live k o)
        | inr full ↦ let same : h ≡ h' = ground (arith, e, here, live, full) in rw (← same) o
      ]
    ]
  ]

  pub close_channel-others :
      (k j : ℕ) (h h' : Heap A)
      → (k == j) ≡ false
      → close_channel j h ≡ some h'
      → IsOpen k h
      → IsOpen k h'
  unfolding close_channel
  close_channel-others k j h h' other e (ch, here, o) = elim (Option-cases (lookup j h)) [
    | inl gone ↦ absurd (ground (arith, e, gone))
    | inr (x, there) ↦ (
      ch,
      ground (arith, e, there, other, here, lookup-insert k j (record x { closed = true }) h),
      o,
    )
  ]
