-- ===== src/Frames/Cut.antt =====
-- server/webrtc/frame_extractor.go: how the stream falls into chunks.
use unblink.Base.{ℕ, ◌≡◌, refl, List, [], ◌∷◌, ◌++◌}
use mathlib.Core.List.{append_assoc}
use unblink.Frames.{Reader, Round, closing, failed, gives, take_byte, take_bytes, read_frames}

-- The bytes that the rounds give before the loop returns.
abbrev pub stream : List Round → List ℕ
stream [] = []
stream (closing ∷ rounds) = []
stream (failed ∷ rounds) = []
stream (gives chunk ∷ rounds) = chunk ++ stream rounds

pub take_bytes-append :
    (xs ys : List ℕ) (r : Reader)
    → take_bytes (xs ++ ys) r ≡ (
      (take_bytes ys (take_bytes xs r).0).0,
      (take_bytes xs r).1 ++ (take_bytes ys (take_bytes xs r).0).1,
    )
unfolding take_bytes
take_bytes-append [] ys r = refl
take_bytes-append (x ∷ xs) ys r =
    let (r', out) = take_byte x r in simp (take_bytes-append xs ys r', append_assoc)

-- Where the chunks of the stream are cut makes no difference: the images and the state are those of
-- all the bytes at once.
pub read_frames-stream :
    (rounds : List Round) (r : Reader) → read_frames rounds r ≡ take_bytes (stream rounds) r
unfolding read_frames take_bytes
read_frames-stream [] r = refl
read_frames-stream (closing ∷ rounds) r = refl
read_frames-stream (failed ∷ rounds) r = refl
read_frames-stream (gives chunk ∷ rounds) r =
    rw (take_bytes-append chunk (stream rounds) r, read_frames-stream rounds (take_bytes chunk r).0)
      refl
