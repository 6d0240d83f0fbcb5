-- ===== src/NodeConn/Safety.antt =====
-- server/node_conn.go: the maps of channels, and the invariant that the channels in them are open and
-- stand there once.
use unblink.Base.{
  ℕ, suc, ◌≡◌, ◌≢◌, ◌≤◌, ◌<◌, ◌∙◌, refl, true, false, some, [], ◌∷◌, ◌++◌, nat_eq, string_eq, Eq,
  ◌==◌, arith, Bool-cases, inl, inr, length, ltb,
}
use unblink.Base.Dict.{Dict, lookup, insert, erase, lookup-insert}
use unblink.NodeConn.Channels.{Channel, Heap, close_channel, try_send, close_all}

-- No key of the map has channel i.
abbrev pub Without {κ} : {K : Type κ} → ℕ → Dict K ℕ → Type κ
Without i [] = Unit
Without i ((_, k) ∷ d) = (k ≢ i) × Without i d

module _ {ℓ} {A : Type ℓ} where
  abbrev pub IsOpen : ℕ → Heap A → Type ℓ
  IsOpen k h = (ch : Channel A) × (lookup k h ≡ some ch) × (ch.closed ≡ false)

  -- Every channel of the map is open, below a bound, and there once.
  abbrev pub AllOpen {κ} : {K : Type κ} → ℕ → Dict K ℕ → Heap A → Type (ℓ ⊔ κ)
  AllOpen n [] h = Unit
  AllOpen n ((_, k) ∷ d) h = IsOpen k h × (k < n) × Without k d × AllOpen n d h

  -- What a step on channel k leaves: the others as they were.
  abbrev pub Only : ℕ → Heap A → Heap A → Type ℓ
  Only k h h' = (j : ℕ) → j ≢ k → lookup j h' ≡ lookup j h

  pub close_channel-open :
      (k : ℕ) (h : Heap A)
      → IsOpen k h
      → (h' : Heap A) × (close_channel k h ≡ some h') × Only k h h'
  unfolding close_channel
  close_channel-open k h (ch, e, o) = (
    insert k (record ch { closed = true }) h,
    rw (e, o),
    λ j differ. ground (arith, differ, lookup-insert j k (record ch { closed = true }) h),
  )

  pub AllOpen-Only {κ} :
      {K : Type κ} (n k : ℕ) (d : Dict K ℕ) (h h' : Heap A)
      → Without k d
      → Only k h h'
      → AllOpen n d h
      → AllOpen n d h'
  AllOpen-Only n k [] h h' a same o = tt
  AllOpen-Only n k ((_, j) ∷ d) h h' (differ, a) same ((ch, e, op), lt, once, o) =
      ((ch, same j differ ∙ e, op), lt, once, AllOpen-Only n k d h h' a same o)

  -- The loop of `Close` over a map of open channels does not panic.
  pub close_all-AllOpen {κ} :
      {K : Type κ} (n : ℕ) (d : Dict K ℕ) (h : Heap A)
      → AllOpen n d h
      → (h' : Heap A) × (close_all d h ≡ some h')
  unfolding close_all
  close_all-AllOpen n [] h o = (h, refl)
  close_all-AllOpen n ((_, k) ∷ d) h (open_, lt, once, o) =
      let (h1, e, same) = close_channel-open k h open_ in
      let (h', e') = close_all-AllOpen n d h1 (AllOpen-Only n k d h h1 once same o) in (h', rw e e')

  -- What a step that closes no channel leaves open.
  abbrev pub Keeps : Heap A → Heap A → Type ℓ
  Keeps h h' = (j : ℕ) → IsOpen j h → IsOpen j h'

  pub AllOpen-Keeps {κ} :
      {K : Type κ} (n m : ℕ) (d : Dict K ℕ) (h h' : Heap A)
      → n ≤ m
      → Keeps h h'
      → AllOpen n d h
      → AllOpen m d h'
  AllOpen-Keeps n m [] h h' le keep o = tt
  AllOpen-Keeps n m ((_, k) ∷ d) h h' le keep (open_, lt, once, o) =
      (keep k open_, omega (arith, le, lt), once, AllOpen-Keeps n m d h h' le keep o)

  pub Keeps-insert :
      (k : ℕ) (ch : Channel A) (h : Heap A) → ch.closed ≡ false → Keeps h (insert k ch h)
  Keeps-insert k ch h e j (x, there, o) = elim (Bool-cases (j == k)) [
    | inl same ↦ (ch, ground (arith, same, lookup-insert j k ch h), e)
    | inr other ↦ (x, ground (arith, other, there, lookup-insert j k ch h), o)
  ]

  -- A send on an open channel does not panic and closes nothing.
  pub try_send-Keeps :
      (capacity k : ℕ) (a : A) (h : Heap A)
      → IsOpen k h
      → (h' : Heap A) × (try_send capacity k a h ≡ some h') × Keeps h h'
  unfolding try_send
  try_send-Keeps capacity k a h (ch, e, o) = elim (Bool-cases (ltb (length ch.items) capacity)) [
    | inl room ↦ (
      insert k (record ch { items = ch.items ++ a ∷ [] }) h,
      rw (e, o, room),
      Keeps-insert k (record ch { items = ch.items ++ a ∷ [] }) h o,
    )
    | inr full ↦ (h, rw (e, o, full), λ j open_. open_)
  ]

module _ {κ} {K : Type κ} ⦃eq : Eq K⦄ where
  Without-insert :
      (i k : ℕ) (key : K) (d : Dict K ℕ) → k ≢ i → Without i d → Without i (insert key k d)
  unfolding insert
  Without-insert i k key [] p a = (p, tt)
  Without-insert i k key ((j, x) ∷ d) p (q, a) = elim (Bool-cases (key == j)) [
    | inl same ↦ rw same (p, a)
    | inr other ↦ rw other (q, Without-insert i k key d p a)
  ]

  Without-erase : (i : ℕ) (key : K) (d : Dict K ℕ) → Without i d → Without i (erase key d)
  unfolding erase
  Without-erase i key [] a = tt
  Without-erase i key ((j, x) ∷ d) (q, a) = elim (Bool-cases (key == j)) [
    | inl same ↦ rw same (Without-erase i key d a)
    | inr other ↦ rw other (q, Without-erase i key d a)
  ]

  Without-lookup : (i k : ℕ) (key : K) (d : Dict K ℕ) → Without i d → lookup key d ≡ some k → i ≢ k
  unfolding lookup
  Without-lookup i k key [] a e = cc
  Without-lookup i k key ((j, x) ∷ d) (p, a) e = elim (Bool-cases (key == j)) [
    | inl same ↦ ground (arith, e, same, p)
    | inr other ↦ Without-lookup i k key d a (ground (arith, e, other))
  ]

module _ {ℓ κ} {A : Type ℓ} {K : Type κ} ⦃eq : Eq K⦄ where
  All-below : (n : ℕ) (d : Dict K ℕ) (h : Heap A) → AllOpen n d h → Without n d
  All-below n [] h o = tt
  All-below n ((_, k) ∷ d) h (_, lt, _, o) = (omega (arith, lt), All-below n d h o)

  -- A channel with a new number may go into the map.
  pub AllOpen-insert :
      (n : ℕ) (key : K) (d : Dict K ℕ) (h : Heap A)
      → IsOpen n h
      → AllOpen n d h
      → AllOpen (suc n) (insert key n d) h
  unfolding insert
  AllOpen-insert n key [] h new o = (new, omega arith, tt, tt)
  AllOpen-insert n key ((j, k) ∷ d) h new (open_, lt, once, o) = elim (Bool-cases (key == j)) [
    | inl same ↦ rw same (
      new,
      omega arith,
      All-below n d h o,
      AllOpen-Keeps n (suc n) d h h (omega arith) (λ i p. p) o,
    )
    | inr other ↦ rw other (
      open_,
      omega (arith, lt),
      Without-insert k n key d (omega (arith, lt)) once,
      AllOpen-insert n key d h new o,
    )
  ]

  pub AllOpen-erase :
      (n : ℕ) (key : K) (d : Dict K ℕ) (h : Heap A) → AllOpen n d h → AllOpen n (erase key d) h
  unfolding erase
  AllOpen-erase n key [] h o = tt
  AllOpen-erase n key ((j, k) ∷ d) h (open_, lt, once, o) = elim (Bool-cases (key == j)) [
    | inl same ↦ rw same (AllOpen-erase n key d h o)
    | inr other ↦ rw other (open_, lt, Without-erase k key d once, AllOpen-erase n key d h o)
  ]

  -- A registered channel is open, and under no other key.
  pub AllOpen-lookup :
      (n k : ℕ) (key : K) (d : Dict K ℕ) (h : Heap A)
      → AllOpen n d h
      → lookup key d ≡ some k
      → IsOpen k h × Without k (erase key d)
  unfolding lookup erase
  AllOpen-lookup n k key [] h o e = cc
  AllOpen-lookup n k key ((j, i) ∷ d) h (open_, lt, once, o) e = elim (Bool-cases (key == j)) [
    | inl same ↦
        let here : i ≡ k = ground (arith, e, same) in
        rw same (rw (← here) open_, rw (← here) (Without-erase i key d once))
    | inr other ↦
        let there : lookup key d ≡ some k = ground (arith, e, other) in
        let (open_, a) = AllOpen-lookup n k key d h o there in
        rw other (open_, (Without-lookup i k key d once there, a))
  ]
