-- ===== src/Frames/Tests.antt =====
-- Runs of the frame codec of src/abmind-frame-codec.ts, and its theorem at concrete bytes.
use abmind.Prelude.{◌≡◌, refl, some, [], ◌∷◌, ◌++◌, arith}
use abmind.Frames.{
  header, encode_frame, check_length, decode_frame_head, zero_length, fails, frame, read_declared,
  read_frame,
}
use abmind.Frames.Reading.{read_frame-encode_frame}

encoded : encode_frame (7 ∷ 9 ∷ []) ≡ some (0 ∷ 0 ∷ 0 ∷ 2 ∷ 7 ∷ 9 ∷ [])
unfolding encode_frame header
encoded = refl

-- An empty payload is encoded, and its frame is refused by the reader.
empty_encoded : encode_frame [] ≡ some (0 ∷ 0 ∷ 0 ∷ 0 ∷ [])
unfolding encode_frame header
empty_encoded = refl

empty_refused : (read_frame (0 ∷ 0 ∷ 0 ∷ 0 ∷ [])).1 ≡ fails zero_length
unfolding read_frame read_declared decode_frame_head check_length
empty_refused = refl

read_frame-encode_frame_example :
    read_frame ((0 ∷ 0 ∷ 0 ∷ 2 ∷ 7 ∷ 9 ∷ []) ++ (1 ∷ 2 ∷ [])) ≡ (1 ∷ 2 ∷ [], frame (7 ∷ 9 ∷ []))
read_frame-encode_frame_example =
    read_frame-encode_frame (7 ∷ 9 ∷ []) (0 ∷ 0 ∷ 0 ∷ 2 ∷ 7 ∷ 9 ∷ []) (1 ∷ 2 ∷ []) (omega arith)
      encoded
