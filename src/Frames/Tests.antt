-- ===== src/Frames/Tests.antt =====
-- server/webrtc/frame_extractor.go on two short images in three chunks.
use unblink.Base.{◌≡◌, ℕ, refl, List, [], ◌∷◌, ◌++◌}
use unblink.Frames.{
  Round, new_reader, take_bytes, take_byte, open_frame, close_frame, ends_in, read_frames, gives,
  failed,
}
use unblink.Frames.Cut.{read_frames-stream}
use unblink.Frames.RoundTrip.{join, take_bytes-join}

abbrev small : List ℕ
small = 255 ∷ 216 ∷ 7 ∷ 255 ∷ 217 ∷ []

abbrev wide : List ℕ
wide = 255 ∷ 216 ∷ 255 ∷ 216 ∷ 255 ∷ 255 ∷ 217 ∷ []

abbrev rounds : List Round
rounds = gives (1 ∷ 255 ∷ []) ∷ gives (216 ∷ 7 ∷ 255 ∷ []) ∷ gives (217 ∷ 3 ∷ []) ∷ failed ∷ []

abbrev parts : List (List ℕ × List ℕ)
parts = (255 ∷ 217 ∷ [], small) ∷ ([], wide) ∷ []

read_frames_cut_markers : (read_frames rounds new_reader).1 ≡ small ∷ []
unfolding read_frames take_bytes take_byte open_frame close_frame ends_in new_reader
read_frames_cut_markers = refl

read_frames-stream_example :
    read_frames rounds new_reader ≡ take_bytes (1 ∷ 255 ∷ 216 ∷ 7 ∷ 255 ∷ 217 ∷ 3 ∷ []) new_reader
read_frames-stream_example = read_frames-stream rounds new_reader

take_bytes-join_example :
    (take_bytes (join parts ++ (9 ∷ 255 ∷ [])) new_reader).1 ≡ small ∷ wide ∷ []
take_bytes-join_example = take_bytes-join parts (9 ∷ 255 ∷ []) (refl, refl, (refl, refl, tt)) refl
