-- ===== src/Base/Bytes.antt =====
-- C strings as texts: each byte is the character of its number.
use Prim.Native.Nat.{ℕ, zero, suc, ◌+◌, ◌%◌, ◌<◌}
use Prim.Native.Char.{Char, char, IsScalar}
use Prim.Native.String.{String, [], ◌∷◌}
use mathlib.Core.Option.{Option, none, some}
use mathlib.Core.Option
use native.Mathlib.Omega.{arith}
use herve.Base.Test.{◌==◌, if◌then◌else◌}

pub byte-IsScalar : (n : ℕ) → n < 256 → IsScalar n
byte-IsScalar n h = ground arith

abbrev pub char_of_byte : ℕ → Char
char_of_byte b = char (b % 256) (byte-IsScalar (b % 256) (omega arith))

-- The text from offset `off` on up to a byte 0, if one is among the next `left` bytes.
unfoldable pub c_string : (ℕ → ℕ) → ℕ → ℕ → Option String
c_string bytes off zero = none
c_string bytes off (suc left) =
    let rest = c_string bytes (off + 1) left in
    if bytes off == 0 then some [] else Option.map (λ text. char_of_byte (bytes off) ∷ text) rest
