-- ===== src/Frames.antt =====
-- server/webrtc/frame_extractor.go: `readFramesFromFFmpeg` cuts the bytes that FFmpeg writes into
-- JPEG images, at the markers SOI (FF D8) and EOI (FF D9). A frame's time stamp and the callback are
-- left to the caller.
pub mod Cut
pub mod Images
pub mod RoundTrip
mod Tests
use unblink.Base.{ℕ, Bool, true, false, List, [], ◌∷◌, ◌++◌, ◌&&◌, not, eqb, if◌then◌else◌}

-- The local variables of the loop.
pub record Reader : Type 0 where
  pub frame_buffer : List ℕ
  pub in_frame : Bool

unfoldable pub new_reader : Reader
new_reader = record { frame_buffer = []; in_frame = false }

abbrev pub soi : List ℕ
soi = 255 ∷ 216 ∷ []

-- `bytes.Equal(last2, marker)` for the marker FF `m`, false on a buffer of fewer than two bytes.
unfoldable pub ends_in : ℕ → List ℕ → Bool
ends_in m [] = false
ends_in m (x ∷ []) = false
ends_in m (x ∷ y ∷ []) = eqb x 255 && eqb y m
ends_in m (x ∷ y ∷ z ∷ l) = ends_in m (y ∷ z ∷ l)

-- `frameBuffer.WriteByte(b)` and the check for SOI.
unfoldable pub open_frame : ℕ → Reader → Reader
open_frame b r =
    let buffer = r.frame_buffer ++ b ∷ [] in
    if ends_in 216 buffer && not r.in_frame
    then record { frame_buffer = soi; in_frame = true }
    else record r { frame_buffer = buffer }

-- The check for EOI, with the image that it completes.
unfoldable pub close_frame : Reader → Reader × List (List ℕ)
close_frame r =
    if r.in_frame && ends_in 217 r.frame_buffer
    then (record { frame_buffer = []; in_frame = false }, r.frame_buffer ∷ [])
    else (r, [])

-- One round of the inner loop.
unfoldable pub take_byte : ℕ → Reader → Reader × List (List ℕ)
take_byte b r = close_frame (open_frame b r)

-- The inner loop, over what one `Read` has given.
unfoldable pub take_bytes : List ℕ → Reader → Reader × List (List ℕ)
take_bytes [] r = (r, [])
take_bytes (b ∷ bs) r =
    let (r', out) = take_byte b r in let (r'', more) = take_bytes bs r' in (r'', out ++ more)

-- A round of the outer loop: the extractor is closing, `Read` gives bytes, or it fails (also with
-- the end of the stream).
pub data Round : Type 0 where
  closing failed : Round
  gives : List ℕ → Round

-- The outer loop; it returns at the first round without bytes.
unfoldable pub read_frames : List Round → Reader → Reader × List (List ℕ)
read_frames [] r = (r, [])
read_frames (closing ∷ rounds) r = (r, [])
read_frames (failed ∷ rounds) r = (r, [])
read_frames (gives chunk ∷ rounds) r =
    let (r', out) = take_bytes chunk r in
    let (r'', more) = read_frames rounds r' in (r'', out ++ more)
