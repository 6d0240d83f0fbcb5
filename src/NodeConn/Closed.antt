-- ===== src/NodeConn/Closed.antt =====
-- server/node_conn.go: channels that have been closed.
use unblink.Base.{
  ℕ, ◌≡◌, Bool, true, false, none, some, [], ◌∷◌, if◌then◌else◌, nat_eq, string_eq, Eq, ◌==◌, arith,
  Option-cases, Bool-cases, inl, inr,
}
use unblink.Base.Dict.{Dict, lookup, lookup-insert}
use unblink.NodeConn.Channels.{Channel, Heap, close_channel, try_send, close_all}

module _ {ℓ} {A : Type ℓ} where
  -- Whether channel k has been closed.
  abbrev pub is_closed : ℕ → Heap A → Bool
  is_closed k h = elim (lookup k h) [ none ↦ false | some ch ↦ ch.closed ]

  pub close_channel-is_closed :
      (j k : ℕ) (h h' : Heap A)
      → close_channel k h ≡ some h'
      → is_closed j h' ≡ (if j == k then true else is_closed j h)
  unfolding close_channel
  close_channel-is_closed j k h h' e = elim (Option-cases (lookup k h)) [
    | inl missing ↦ ground (arith, missing)
    | inr (ch, here) ↦
        let shut : Channel A = record ch { closed = true } in
        ground (arith, here, lookup-insert j k shut h)
  ]

  pub close_channel-panics : (k : ℕ) (h : Heap A) → is_closed k h ≡ true → close_channel k h ≡ none
  unfolding close_channel
  close_channel-panics k h e = ground arith

  pub try_send-panics :
      (capacity k : ℕ) (a : A) (h : Heap A) → is_closed k h ≡ true → try_send capacity k a h ≡ none
  unfolding try_send
  try_send-panics capacity k a h e = ground arith

  close_all-keeps {κ} :
      {K : Type κ} (j : ℕ) (d : Dict K ℕ) (h h' : Heap A)
      → close_all d h ≡ some h'
      → is_closed j h ≡ true
      → is_closed j h' ≡ true
  unfolding close_all
  close_all-keeps j [] h h' e c = ground arith
  close_all-keeps j ((_, k) ∷ d) h h' e c = elim (Option-cases (close_channel k h)) [
    | inl panics ↦ ground (arith, panics)
    | inr (h1, closed) ↦
        close_all-keeps j d h1 h' (ground (arith, closed))
          (ground (arith, c, close_channel-is_closed j k h h1 closed))
  ]

  -- After the loop every channel of the map is closed.
  pub close_all-is_closed {κ} :
      {K : Type κ} ⦃eq : Eq K⦄ (key : K) (j : ℕ) (d : Dict K ℕ) (h h' : Heap A)
      → close_all d h ≡ some h'
      → lookup key d ≡ some j
      → is_closed j h' ≡ true
  unfolding close_all lookup
  close_all-is_closed key j [] h h' e l = cc
  close_all-is_closed key j ((i, k) ∷ d) h h' e l = elim (Option-cases (close_channel k h)) [
    | inl panics ↦ ground (arith, panics)
    | inr (h1, closed) ↦
        let rest : close_all d h1 ≡ some h' = ground (arith, closed) in
        elim (Bool-cases (key == i)) [
          | inl same ↦
              close_all-keeps j d h1 h' rest
                (ground (arith, l, same, close_channel-is_closed j k h h1 closed))
          | inr other ↦ close_all-is_closed key j d h1 h' rest (ground (arith, l, other))
        ]
  ]
