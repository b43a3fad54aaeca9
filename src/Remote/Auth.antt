-- ===== src/Remote/Auth.antt =====
-- src/remote/signed-auth.ts: `verifyRequestSignature` and `verifyHello`. A text is walked by code
-- points; `.length` counts UTF-16 units. The Ed25519 check and SHA-256 are Node's, parameters here.
use Prim.Native.Char.{code}
use Prim.Native.String
use Prim.Native.String.{String}
use abmind.Prelude.{
  utf16_length, ℕ, zero, suc, ◌+◌, ◌-◌, ◌*◌, ◌/◌, ◌%◌, Bool, true, false, ◌&&◌, ◌||◌, not, Option,
  none, some, ◌≡◌, ◌≤◌, arith, ltb, leb, ◌==◌, if◌then◌else◌,
}

infixr 65 ◌⧺◌
abbrev ◌⧺◌ : String → String → String
s ⧺ t = String.◌++◌ s t

pub data Reason : Type 0 where
  missing_fields invalid_ts stale_ts invalid_nonce invalid_sig bad_sig peer_too_long id_too_long :
      Reason

pub record AuthFields : Type 0 where
  pub peer_id : String
  pub ts : String
  pub nonce : String
  pub sig : String

pub is_empty : String → Bool
is_empty String.[] = true
is_empty (String.◌∷◌ c s) = false

abbrev is_digit : ℕ → Bool
is_digit c = leb b'0' c && leb c b'9'

-- Every character passes the test.
pub every : (ℕ → Bool) → String → Bool
every p String.[] = true
every p (String.◌∷◌ c s) = p (code c) && every p s

-- /^\d+$/
pub digits_only : String → Bool
unfolding every is_empty
digits_only s = not (is_empty s) && every is_digit s

-- /^[0-9a-f]{32}$/
pub hex32 : String → Bool
unfolding every
hex32 s = utf16_length s == 32 && every (λ c. is_digit c || leb b'a' c && leb c b'f') s

abbrev is_base64 : ℕ → Bool
is_base64 c =
    leb b'A' c && leb c b'Z' || leb b'a' c && leb c b'z' || is_digit c || c == b'+' || c == b'/'

-- ={0,2}$
pub base64_end : ℕ → String → Bool
base64_end n String.[] = true
base64_end zero (String.◌∷◌ c s) = false
base64_end (suc n) (String.◌∷◌ c s) = code c == b'=' && base64_end n s

-- [A-Za-z0-9+/]* and then the padding
pub base64_rest : String → Bool
base64_rest String.[] = true
base64_rest (String.◌∷◌ c s) =
    let more = base64_rest s in if is_base64 (code c) then more else base64_end 2 (String.◌∷◌ c s)

-- /^[A-Za-z0-9+/]+={0,2}$/
pub base64 : String → Bool
unfolding base64_rest base64_end
base64 String.[] = false
base64 (String.◌∷◌ c s) = is_base64 (code c) && base64_rest s

pub number_from : ℕ → String → ℕ
number_from n String.[] = n
number_from n (String.◌∷◌ c s) = number_from (n * 10 + (code c - b'0')) s

-- `Number(s)` of a text of digits, exact below 2^53, where the caller stops.
pub number : String → ℕ
unfolding number_from
number s = number_from 0 s

abbrev pub max_safe_integer : ℕ
max_safe_integer = 9007199254740991

abbrev pub timestamp_window_sec : ℕ
timestamp_window_sec = 30

abbrev pub peer_id_max : ℕ
peer_id_max = 128

abbrev pub frame_id_max : ℕ
frame_id_max = 64

-- `Math.abs(nowSec - ts) > WSS_TIMESTAMP_WINDOW_SEC`
pub is_stale : ℕ → ℕ → Bool
is_stale now_sec t =
    ltb (t + timestamp_window_sec) now_sec || ltb (now_sec + timestamp_window_sec) t

pub stale_lem : (n t : ℕ) → is_stale n t ≡ false → (n ≤ t + 30) × (t ≤ n + 30)
unfolding is_stale
stale_lem n t h = ground arith

pub stale_false : (n t : ℕ) → n ≤ t + 30 → t ≤ n + 30 → is_stale n t ≡ false
unfolding is_stale
stale_false n t h k = ground arith

-- `sha256` is the hexadecimal digest, `verify` is `edVerify key message sig`; `show` prints a number.
module _ (sha256 : String → String) (verify : String → String → String → Bool) where
  pub request_canonical : AuthFields → String → String → String
  request_canonical auth frame_id body =
      "abmind-wss-request-v1\n1\n"
      ⧺ auth.peer_id
      ⧺ "\n"
      ⧺ frame_id
      ⧺ "\nabmind.request.v1\n/abmind.request.v1\n"
      ⧺ auth.ts
      ⧺ "\n"
      ⧺ auth.nonce
      ⧺ "\n"
      ⧺ sha256 body

  pub hello_canonical : String → String → String → String → String
  hello_canonical peer_id connection_id challenge timestamp =
      "abmind-wss-hello-v1\n1\n" ⧺ peer_id ⧺ "\n" ⧺ connection_id ⧺ "\n" ⧺ challenge ⧺ "\n"
      ⧺ timestamp

  -- `none` is { ok: true }. `now` is Date.now() in milliseconds.
  unfoldable pub verify_request_signature :
      ℕ → AuthFields → String → String → String → Option Reason
  unfolding is_empty digits_only hex32 base64 number is_stale request_canonical
  verify_request_signature now auth frame_id body verify_key =
      if is_empty auth.peer_id || is_empty auth.ts || is_empty auth.nonce || is_empty auth.sig
      then some missing_fields
      else if ltb peer_id_max (utf16_length auth.peer_id)
      then some peer_too_long
      else if ltb frame_id_max (utf16_length frame_id)
      then some id_too_long
      else if not (digits_only auth.ts)
      then some invalid_ts
      else if not (hex32 auth.nonce)
      then some invalid_nonce
      else if not (utf16_length auth.sig % 4 == 0) || not (base64 auth.sig)
      then some invalid_sig
      else if ltb max_safe_integer (number auth.ts)
      then some invalid_ts
      else if is_stale (now / 1000) (number auth.ts)
      then some stale_ts
      else if not (verify verify_key (request_canonical auth frame_id body) auth.sig)
      then some bad_sig
      else none

  unfoldable pub verify_hello :
      ℕ → String → String → String → String → String → String → Option Reason
  unfolding is_empty digits_only number is_stale hello_canonical
  verify_hello now peer_id connection_id challenge timestamp signature verify_key =
      if is_empty peer_id
        || is_empty connection_id
        || is_empty challenge
        || is_empty timestamp
        || is_empty signature
      then some missing_fields
      else if ltb peer_id_max (utf16_length peer_id)
      then some peer_too_long
      else if not (digits_only timestamp)
      then some invalid_ts
      else if ltb max_safe_integer (number timestamp)
      then some invalid_ts
      else if is_stale (now / 1000) (number timestamp)
      then some stale_ts
      else if not
          (verify verify_key (hello_canonical peer_id connection_id challenge timestamp) signature)
      then some bad_sig
      else none

  -- A frame that was verified once fails a later check for its age alone.
  pub verify_again :
      (now later : ℕ) (auth : AuthFields) (frame_id body verify_key : String)
      → verify_request_signature now auth frame_id body verify_key ≡ none
      → verify_request_signature later auth frame_id body verify_key
        ≡ (if is_stale (later / 1000) (number auth.ts) then some stale_ts else none)
  unfolding verify_request_signature
  verify_again now later auth frame_id body verify_key h = ground arith

  pub not_stale :
      (now : ℕ) (auth : AuthFields) (frame_id body verify_key : String)
      → verify_request_signature now auth frame_id body verify_key ≡ none
      → is_stale (now / 1000) (number auth.ts) ≡ false
  unfolding verify_request_signature
  not_stale now auth frame_id body verify_key h = ground arith
