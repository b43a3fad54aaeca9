-- ===== src/Frames/Reading.antt =====
-- src/abmind-frame-codec.ts: a frame at the start of a buffer.
use abmind.Prelude.{
  ℕ, suc, ◌+◌, ◌*◌, ◌/◌, ◌%◌, ◌≤◌, ◌≡◌, refl, ap, false, some, List, [], ◌∷◌, ◌++◌, ltb, take, drop,
  length, length-append, take-length-append, drop-length-append, arith, Bool-cases, inl, inr,
}
use abmind.Frames.{
  header_bytes, max_payload_bytes, header, encode_frame, declared, check_length, decode_frame_head,
  frame, read_declared, read_frame,
}

append_assoc : (xs ys zs : List ℕ) → (xs ++ ys) ++ zs ≡ xs ++ (ys ++ zs)
append_assoc [] ys zs = refl
append_assoc (x ∷ xs) ys zs = ap (◌∷◌ x) (append_assoc xs ys zs)

bytes-number :
    (n : ℕ) → ((n / 16777216 * 256 + n / 65536 % 256) * 256 + n / 256 % 256) * 256 + n % 256 ≡ n
bytes-number n = omega arith

check_length-declared : (n : ℕ) → 1 ≤ n → n ≤ max_payload_bytes → check_length n ≡ declared n
unfolding check_length
check_length-declared n h k = ground arith

decode_frame_head-header :
    (n : ℕ) (rest : List ℕ)
    → 1 ≤ n
    → n ≤ max_payload_bytes
    → decode_frame_head (header n ++ rest) ≡ declared n
unfolding decode_frame_head header
decode_frame_head-header n rest h k = rw (bytes-number n) (check_length-declared n h k)

read_declared-header :
    (n : ℕ) (payload rest : List ℕ)
    → length payload ≡ n
    → read_declared (header n ++ (payload ++ rest)) (declared n) ≡ (rest, frame payload)
unfolding read_declared header
read_declared-header n payload rest e =
    let q : header_bytes + n ≡ suc (suc (suc (suc n))) = omega arith in
    let long : ltb (length (header n ++ (payload ++ rest))) (header_bytes + n) ≡ false =
      ground (arith, length-append payload rest) in
    let t : take n (payload ++ rest) ≡ payload = rw⁻¹ e (take-length-append payload rest) in
    let d : drop n (payload ++ rest) ≡ rest = rw⁻¹ e (drop-length-append payload rest) in
    rw (long, q, t, d) refl

-- A frame is read back: where `encodeFrame` has made the bytes of a payload that is not empty, and they
-- stand first in the buffer, `readFrame` gives the payload and leaves what follows.
pub read_frame-encode_frame :
    (payload bytes rest : List ℕ)
    → 1 ≤ length payload
    → encode_frame payload ≡ some bytes
    → read_frame (bytes ++ rest) ≡ (rest, frame payload)
unfolding read_frame encode_frame
read_frame-encode_frame payload bytes rest h e =
    elim (Bool-cases (ltb max_payload_bytes (length payload))) [
      | inl f ↦ ground (arith, e, f)
      | inr f ↦
          let q : header (length payload) ++ payload ≡ bytes = ground (arith, e, f) in
          rw⁻¹ q (
            rw
              (
                append_assoc (header (length payload)) payload rest,
                decode_frame_head-header (length payload) (payload ++ rest) h (ground arith),
              )
              (read_declared-header (length payload) payload rest refl))
    ]
