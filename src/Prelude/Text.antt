-- ===== src/Prelude/Text.antt =====
-- The length of a text.
use Prim.Native.Char.{code}
use Prim.Native.Nat.{ℕ, ◌+◌}
use Prim.Native.String.{String}
use abmind.Prelude.Test.{if◌then◌else◌, ltb}

-- The length of a text as JavaScript counts it: the characters above U+FFFF count twice.
abbrev pub utf16_length : String → ℕ
utf16_length String.[] = 0
utf16_length (String.◌∷◌ c s) = (if ltb (code c) 65536 then 1 else 2) + utf16_length s
