-- ===== src/Frames/Images.antt =====
-- server/webrtc/frame_extractor.go: the images that are cut out.
use unblink.Base.{
  ℕ, ◌≡◌, refl, Bool, true, false, List, [], ◌∷◌, ◌++◌, ◌&&◌, not, eqb, last_or, if◌then◌else◌,
  arith,
}
use mathlib.Core.List.{append_assoc}
use unblink.Frames.{new_reader, soi, ends_in, open_frame, close_frame, take_byte, take_bytes}

-- After the byte `p`, the marker FF `m` does not occur.
abbrev pub lacks : ℕ → ℕ → List ℕ → Bool
lacks m p [] = true
lacks m p (b ∷ bs) = not (eqb p 255 && eqb b m) && lacks m b bs

-- After the byte `p`, EOI occurs at the end and nowhere before.
abbrev pub closes : ℕ → List ℕ → Bool
closes p [] = false
closes p (b ∷ []) = eqb p 255 && eqb b 217
closes p (b ∷ c ∷ bs) = not (eqb p 255 && eqb b 217) && closes b (c ∷ bs)

-- An image: it starts with SOI and ends with its only EOI.
abbrev pub is_image : List ℕ → Bool
is_image [] = false
is_image (x ∷ []) = false
is_image (x ∷ y ∷ body) = (eqb x 255 && eqb y 216) && closes y body

pub last_or-append : (d x : ℕ) (xs : List ℕ) → last_or d (xs ++ x ∷ []) ≡ x
last_or-append d x [] = refl
last_or-append d x (y ∷ xs) = last_or-append y x xs

-- The two last bytes of the buffer are its last byte and the new one.
ends_in-append :
    (m b : ℕ) (xs : List ℕ) → ends_in m (xs ++ b ∷ []) ≡ (eqb (last_or 0 xs) 255 && eqb b m)
unfolding ends_in
ends_in-append m b [] = refl
ends_in-append m b (x ∷ []) = refl
ends_in-append m b (x ∷ y ∷ xs) = ends_in-append_from m b x y xs
  where
    ends_in-append_from :
        (m b x y : ℕ) (xs : List ℕ)
        → ends_in m (x ∷ y ∷ (xs ++ b ∷ [])) ≡ (eqb (last_or y xs) 255 && eqb b m)
    ends_in-append_from m b x y [] = refl
    ends_in-append_from m b x y (z ∷ xs) = ends_in-append_from m b y z xs

ends_in-soi : ends_in 217 soi ≡ false
unfolding ends_in
ends_in-soi = refl

pub take_byte-idle :
    (b : ℕ) (xs : List ℕ)
    → take_byte b (record { frame_buffer = xs; in_frame = false }) ≡ (
        if eqb (last_or 0 xs) 255 && eqb b 216
        then (record { frame_buffer = soi; in_frame = true }, [])
        else (record { frame_buffer = xs ++ b ∷ []; in_frame = false }, []))
unfolding take_byte open_frame close_frame
take_byte-idle b xs = ground (arith, ends_in-append 216 b xs, ends_in-soi)

pub take_byte-inside :
    (b : ℕ) (xs : List ℕ)
    → take_byte b (record { frame_buffer = xs; in_frame = true }) ≡ (
        if eqb (last_or 0 xs) 255 && eqb b 217
        then (record { frame_buffer = []; in_frame = false }, (xs ++ b ∷ []) ∷ [])
        else (record { frame_buffer = xs ++ b ∷ []; in_frame = true }, []))
unfolding take_byte open_frame close_frame
take_byte-inside b xs = ground (arith, ends_in-append 217 b xs)

-- Bytes without SOI are skipped.
pub take_bytes-junk :
    (junk rest xs : List ℕ)
    → lacks 216 (last_or 0 xs) junk ≡ true
    → take_bytes (junk ++ (255 ∷ 216 ∷ rest)) (record { frame_buffer = xs; in_frame = false })
      ≡ take_bytes rest (record { frame_buffer = soi; in_frame = true })
unfolding take_bytes
take_bytes-junk [] rest xs e =
    ground
      (arith, take_byte-idle 255 xs, take_byte-idle 216 (xs ++ 255 ∷ []), last_or-append 0 255 xs)
take_bytes-junk (b ∷ junk) rest xs e =
    ground
      (arith, take_byte-idle b xs, last_or-append 0 b xs, take_bytes-junk junk rest (xs ++ b ∷ []))

-- The rest of an image completes it.
pub take_bytes-image :
    (body rest xs : List ℕ)
    → closes (last_or 0 xs) body ≡ true
    → take_bytes (body ++ rest) (record { frame_buffer = xs; in_frame = true })
      ≡ ((take_bytes rest new_reader).0, (xs ++ body) ∷ (take_bytes rest new_reader).1)
unfolding take_bytes new_reader
take_bytes-image [] rest xs e = ground arith
take_bytes-image (b ∷ []) rest xs e = ground (arith, take_byte-inside b xs)
take_bytes-image (b ∷ c ∷ body) rest xs e = ground (
  arith,
  take_byte-inside b xs,
  last_or-append 0 b xs,
  take_bytes-image (c ∷ body) rest (xs ++ b ∷ []),
  append_assoc xs (b ∷ []) (c ∷ body),
)
