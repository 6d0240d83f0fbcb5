-- ===== src/Reconnect/Errors.antt =====
-- node/reconnect.go: the errors that end the loop.
use unblink.Base.{
  zero, suc, ℕ, ◌≡◌, refl, ap, ◌∙◌, true, false, some, List, [], ◌∷◌, ◌++◌, arith, get_elem?,
}
use unblink.Trim.Truncate.{starts_with, contains_text}
use unblink.Reconnect.{to_lower, contains_any, non_retryable_patterns, is_retryable_error}

starts_with-append : (p rest : List ℕ) → starts_with p (p ++ rest) ≡ true
starts_with-append [] rest = refl
starts_with-append (c ∷ p) rest = ground (arith, starts_with-append p rest)

-- A text contains each of its parts.
pub contains_text-middle :
    (before p after : List ℕ) → contains_text p (before ++ (p ++ after)) ≡ true
unfolding contains_text
contains_text-middle [] [] [] = refl
contains_text-middle [] [] (c ∷ after) = refl
contains_text-middle [] (c ∷ p) after = ground (arith, starts_with-append p after)
contains_text-middle (b ∷ before) p after = ground (arith, contains_text-middle before p after)

to_lower-append : (xs ys : List ℕ) → to_lower (xs ++ ys) ≡ to_lower xs ++ to_lower ys
to_lower-append [] ys = refl
to_lower-append (x ∷ xs) ys = rw (to_lower-append xs ys) refl

contains_any-part :
    (ps : List (List ℕ)) (i : ℕ) (p text : List ℕ)
    → get_elem? ps i ≡ some p
    → contains_text (to_lower p) (to_lower text) ≡ true
    → contains_any ps text ≡ true
contains_any-part [] i p text e h = cc
contains_any-part (q ∷ ps) zero p text e h = ground (arith, e, h)
contains_any-part (q ∷ ps) (suc i) p text e h = ground (arith, contains_any-part ps i p text e h)

-- An error whose text has one of the words for a refused login or a wrong address anywhere, in capital
-- or small letters, ends the loop, whatever else the text says: also where it has a word for an
-- error of the network.
pub is_retryable-refused :
    (i : ℕ) (p before word after : List ℕ)
    → get_elem? non_retryable_patterns i ≡ some p
    → to_lower word ≡ to_lower p
    → is_retryable_error (some (before ++ (word ++ after))) ≡ false
unfolding is_retryable_error
is_retryable-refused i p before word after e same =
    let split : to_lower (before ++ (word ++ after))
        ≡ to_lower before ++ (to_lower p ++ to_lower after) =
      to_lower-append before (word ++ after)
      ∙ ap (λ l. to_lower before ++ l)
          (to_lower-append word after ∙ ap (λ l. l ++ to_lower after) same) in
    let inside =
      ap (contains_text (to_lower p)) split
      ∙ contains_text-middle (to_lower before) (to_lower p) (to_lower after) in
    rw (contains_any-part non_retryable_patterns i p (before ++ (word ++ after)) e inside) refl
