-- ===== src/Frames.antt =====
-- src/abmind-frame-codec.ts: the length-prefixed frames of the local transport. A buffer is the list of
-- its bytes; what throws is a constructor of the result.
pub mod Reading
mod Tests
use abmind.Prelude.{
  ℕ, suc, ◌+◌, ◌*◌, ◌/◌, ◌%◌, Bool, true, false, Option, none, some, List, [], ◌∷◌, ◌++◌, ltb, ◌==◌,
  if◌then◌else◌, take, drop, length,
}

abbrev pub header_bytes : ℕ
header_bytes = 4

abbrev pub max_payload_bytes : ℕ
max_payload_bytes = 2097152

abbrev pub max_total_bytes : ℕ
max_total_bytes = 2097156

-- writeUInt32BE
pub header : ℕ → List ℕ
header n = n / 16777216 ∷ n / 65536 % 256 ∷ n / 256 % 256 ∷ n % 256 ∷ []

pub encode_frame : List ℕ → Option (List ℕ)
encode_frame payload =
    if ltb max_payload_bytes (length payload)
    then none
    else some (header (length payload) ++ payload)

pub data Head : Type 0 where
  incomplete zero_length too_long : Head
  declared : ℕ → Head

pub check_length : ℕ → Head
check_length n =
    if n == 0 then zero_length else if ltb max_payload_bytes n then too_long else declared n

pub decode_frame_head : List ℕ → Head
decode_frame_head (a ∷ b ∷ c ∷ d ∷ rest) = check_length (((a * 256 + b) * 256 + c) * 256 + d)
decode_frame_head bytes = incomplete

-- The buffer after a chunk, and whether it is taken.
pub push : List ℕ → List ℕ → List ℕ × Bool
push buf chunk =
    let joined = buf ++ chunk in
    if ltb max_total_bytes (length joined) then ([], false) else (joined, true)

pub data Read : Type 0 where
  nothing : Read
  fails : Head → Read
  frame : List ℕ → Read

pub read_declared : List ℕ → Head → List ℕ × Read
read_declared buf incomplete = (buf, nothing)
read_declared buf zero_length = (buf, fails zero_length)
read_declared buf too_long = (buf, fails too_long)
read_declared buf (declared n) =
    if ltb (length buf) (header_bytes + n)
    then (buf, nothing)
    else (drop (header_bytes + n) buf, frame (take n (drop header_bytes buf)))

pub read_frame : List ℕ → List ℕ × Read
read_frame buf = read_declared buf (decode_frame_head buf)
