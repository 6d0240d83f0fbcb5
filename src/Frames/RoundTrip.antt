-- ===== src/Frames/RoundTrip.antt =====
-- server/webrtc/frame_extractor.go: from the images to the bytes of the stream, and back.
use unblink.Base.{
  All-append, ℕ, ◌≡◌, refl, Bool, true, false, List, [], ◌∷◌, ◌++◌, ◌&&◌, eqb, last_or, All,
  if◌then◌else◌, arith, not,
}
use mathlib.Core.List.{append_assoc}
use unblink.Frames.{Reader, new_reader, soi, take_byte, take_bytes}
use unblink.Frames.Images.{
  lacks, closes, is_image, last_or-append, take_byte-idle, take_byte-inside, take_bytes-junk,
  take_bytes-image,
}

-- Images one after the other, each after some bytes that are none.
abbrev pub join : List (List ℕ × List ℕ) → List ℕ
join [] = []
join ((junk, image) ∷ parts) = junk ++ (image ++ join parts)

-- Bytes before an image: SOI does not occur in them.
abbrev pub is_junk : List ℕ → Bool
is_junk junk = lacks 216 0 junk

abbrev pub Parts : List (List ℕ × List ℕ) → Type 0
Parts [] = Unit
Parts ((junk, image) ∷ parts) = (is_junk junk ≡ true) × (is_image image ≡ true) × Parts parts

abbrev pub images : List (List ℕ × List ℕ) → List (List ℕ)
images [] = []
images ((junk, image) ∷ parts) = image ∷ images parts

-- From a new reader, junk and one image.
take_bytes-part :
    (junk image rest : List ℕ)
    → is_junk junk ≡ true
    → is_image image ≡ true
    → take_bytes (junk ++ (image ++ rest)) new_reader
      ≡ ((take_bytes rest new_reader).0, image ∷ (take_bytes rest new_reader).1)
unfolding new_reader
take_bytes-part junk [] rest e f = ground arith
take_bytes-part junk (x ∷ []) rest e f = ground arith
take_bytes-part junk (x ∷ y ∷ body) rest e f =
    ground (arith, take_bytes-junk junk (body ++ rest) [] e, take_bytes-image body rest soi)

-- Bytes without SOI give no image.
take_bytes-tail :
    (junk xs : List ℕ)
    → lacks 216 (last_or 0 xs) junk ≡ true
    → (take_bytes junk (record { frame_buffer = xs; in_frame = false })).1 ≡ []
unfolding take_bytes
take_bytes-tail [] xs e = refl
take_bytes-tail (b ∷ junk) xs e =
    ground (arith, take_byte-idle b xs, last_or-append 0 b xs, take_bytes-tail junk (xs ++ b ∷ []))

-- Images that are written one after the other, with any bytes between them and after the last in
-- which SOI does not occur, are cut out again: exactly these, in this order.
pub take_bytes-join :
    (parts : List (List ℕ × List ℕ)) (tail : List ℕ)
    → Parts parts
    → is_junk tail ≡ true
    → (take_bytes (join parts ++ tail) new_reader).1 ≡ images parts
take_bytes-join [] tail _ e = unfold new_reader in take_bytes-tail tail [] e
take_bytes-join ((junk, image) ∷ parts) tail (j, i, ps) e = ground (
  arith,
  take_bytes-part junk image (join parts ++ tail) j i,
  take_bytes-join parts tail ps e,
  append_assoc junk (image ++ join parts) tail,
  append_assoc image (join parts) tail,
)

-- SOI and further bytes, EOI not among them.
abbrev is_begun : List ℕ → Bool
is_begun [] = false
is_begun (x ∷ []) = false
is_begun (x ∷ y ∷ body) = (eqb x 255 && eqb y 216) && lacks 217 y body

-- Within an image, the buffer holds its first bytes.
abbrev pub IsBegun : Reader → Type 0
IsBegun r = if r.in_frame then is_begun r.frame_buffer ≡ true else Unit

lacks-append :
    (m p b : ℕ) (xs : List ℕ)
    → lacks m p (xs ++ b ∷ []) ≡ (lacks m p xs && not (eqb (last_or p xs) 255 && eqb b m))
lacks-append m p b [] = ground arith
lacks-append m p b (x ∷ xs) = ground (arith, lacks-append m x b xs)

closes-append :
    (p b : ℕ) (xs : List ℕ)
    → closes p (xs ++ b ∷ []) ≡ (lacks 217 p xs && (eqb (last_or p xs) 255 && eqb b 217))
closes-append p b [] = ground arith
closes-append p b (x ∷ []) = ground arith
closes-append p b (x ∷ y ∷ xs) = ground (arith, closes-append x b (y ∷ xs))

-- A byte that completes an image, or does not.
is_begun-append :
    (b : ℕ) (xs : List ℕ)
    → is_begun xs ≡ true
    → (if eqb (last_or 0 xs) 255 && eqb b 217
        then is_image (xs ++ b ∷ []) ≡ true
        else is_begun (xs ++ b ∷ []) ≡ true)
is_begun-append b [] e = ground arith
is_begun-append b (x ∷ []) e = ground arith
is_begun-append b (x ∷ y ∷ body) e =
    ground (arith, lacks-append 217 y b body, closes-append y b body)

take_byte-IsBegun :
    (b : ℕ) (xs : List ℕ) (inside : Bool)
    → (if inside then is_begun xs ≡ true else Unit)
    → let (r, out) = take_byte b (record { frame_buffer = xs; in_frame = inside }) in
      IsBegun r × All (λ image. is_image image ≡ true) out
take_byte-IsBegun b xs true h = ground (arith, take_byte-inside b xs, is_begun-append b xs h)
take_byte-IsBegun b xs false h = ground (arith, take_byte-idle b xs)

-- Whatever the bytes, each frame that is cut out is an image: it starts with SOI, and EOI stands at
-- its end and nowhere before.
pub take_bytes-is_image :
    (bytes : List ℕ) (r : Reader)
    → IsBegun r
    → All (λ image. is_image image ≡ true) (take_bytes bytes r).1
unfolding take_bytes
take_bytes-is_image [] r h = tt
take_bytes-is_image (b ∷ bytes) r h =
    let (r', out) = take_byte b r in
    let step = take_byte-IsBegun b r.frame_buffer r.in_frame h in
    All-append (λ image. is_image image ≡ true) out (take_bytes bytes r').1 step.1
      (take_bytes-is_image bytes r' step.0)
