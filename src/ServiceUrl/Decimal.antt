-- ===== src/ServiceUrl/Decimal.antt =====
-- `strconv.Atoi` and `strconv.Itoa` of the ports in shared/service_url.go and node/conn.go.
use unblink.Base.{
  ℕ, zero, suc, ◌+◌, ◌*◌, ◌-◌, ◌/◌, ◌%◌, ◌^◌, ◌<◌, ◌≤◌, ◌≡◌, sym, ap, ◌∙◌, Bool, true, false, ◌&&◌,
  Option, none, some, List, [], ◌∷◌, ◌++◌, if◌then◌else◌, on_some, leb, ltb, eqb, is_empty, arith,
  Bool-cases, inl, inr,
}
use native.Mathlib.Numerals.{unary_clauses}
use unblink.Base.Int.{ℤ, pos, negsuc}

-- The number of some digits, after those that gave `n`.
unfoldable pub digits_from : ℕ → List ℕ → Option ℕ
digits_from n [] = some n
digits_from n (c ∷ cs) =
    let rest = digits_from (10 * n + (c - 48)) cs in if leb 48 c && leb c 57 then rest else none

abbrev negated : ℕ → ℤ
negated zero = pos 0
negated (suc n) = negsuc n

-- Digits are wanted, and a number of 64 bits.
abbrev signed : Bool → List ℕ → Option ℤ
signed minus cs =
    if is_empty cs
    then none
    else on_some (digits_from 0 cs) none λ n.
      if minus
      then if leb n (2 ^ 63) then some (negated n) else none
      else if ltb n (2 ^ 63)
      then some (pos n)
      else none

-- `strconv.Atoi`: a sign may stand before the digits.
unfoldable pub atoi : List ℕ → Option ℤ
atoi [] = none
atoi (c ∷ cs) =
    if eqb c 45 then signed true cs else if eqb c 43 then signed false cs else signed false (c ∷ cs)

-- `strconv.Itoa` of a number below 10 to the power of the fuel.
abbrev pub decimal : ℕ → ℕ → List ℕ
decimal zero n = []
decimal (suc fuel) n =
    let rest = decimal fuel (n / 10) in
    if ltb n 10 then (48 + n) ∷ [] else rest ++ (48 + n % 10) ∷ []

digits_from-append :
    (n d m : ℕ) (cs : List ℕ)
    → d < 10
    → digits_from n cs ≡ some m
    → digits_from n (cs ++ (48 + d) ∷ []) ≡ some (10 * m + d)
unfolding digits_from
digits_from-append n d m [] small e = ground arith
digits_from-append n d m (c ∷ cs) small e =
    ground (arith, digits_from-append (10 * n + (c - 48)) d m cs small)

-- What `Itoa` writes of a number is read back.
pub digits_from-decimal :
    (fuel n : ℕ) → n < 10 ^ fuel → 0 < fuel → digits_from 0 (decimal fuel n) ≡ some n
unfolding digits_from
digits_from-decimal zero n small some_fuel = absurd (omega arith)
digits_from-decimal (suc zero) n small some_fuel =
    let below : n < 10 = omega arith in ground (arith, below)
digits_from-decimal (suc (suc fuel)) n small some_fuel = elim (Bool-cases (ltb n 10)) [
  | inl below ↦ ground (arith, below)
  | inr above ↦
      let q : n / 10 < 10 ^ suc fuel =
        let step : 10 ^ suc (suc fuel) ≡ 10 ^ suc fuel * 10 = simp unary_clauses in omega arith in
      let r : n % 10 < 10 = omega arith in
      let whole : 10 * (n / 10) + n % 10 ≡ n = omega arith in
      ground (
        arith,
        above,
        whole,
        digits_from-append 0 (n % 10) (n / 10) (decimal (suc fuel) (n / 10)) r
            (digits_from-decimal (suc fuel) (n / 10) q (omega arith)),
      )
]

-- The text begins with a digit.
Begun : List ℕ → Type 0
Begun text = (c : ℕ) × (cs : List ℕ) × (text ≡ c ∷ cs) × (48 ≤ c) × (c ≤ 57)

decimal-Begun : (fuel n : ℕ) → Begun (decimal (suc fuel) n)
unfolding Begun
decimal-Begun zero n = elim (Bool-cases (ltb n 10)) [
  | inl below ↦ (48 + n, [], ground (arith, below), omega arith, ground (arith, below))
  | inr above ↦ (48 + n % 10, [], ground (arith, above), omega arith, omega arith)
]
decimal-Begun (suc fuel) n =
    let (c, cs, e, low, high) = decimal-Begun fuel (n / 10) in
    elim (Bool-cases (ltb n 10)) [
      | inl below ↦ (48 + n, [], ground (arith, below), omega arith, ground (arith, below))
      | inr above ↦ (c, cs ++ (48 + n % 10) ∷ [], ground (arith, e, above), low, high)
    ]

-- `Atoi` reads what `Itoa` writes of a number of 64 bits.
pub atoi-decimal :
    (fuel n : ℕ)
    → n < 10 ^ suc fuel
    → n < 2 ^ 63
    → (is_empty (decimal (suc fuel) n) ≡ false) × (atoi (decimal (suc fuel) n) ≡ some (pos n))
unfolding atoi Begun
atoi-decimal fuel n small fits =
    let (c, cs, e, low, high) = decimal-Begun fuel n in
    let read : digits_from 0 (c ∷ cs) ≡ some n =
      rw (sym e, digits_from-decimal (suc fuel) n small (omega arith)) in
    (ground (arith, e), ap atoi e ∙ ground (arith, read, low, high, fits))
