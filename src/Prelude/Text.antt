-- ===== src/Prelude/Text.antt =====
-- Text as bytes: literals, substrings, and the number formats of Go's fmt and encoding/binary.
use Prim.Native.Char.{code}
use Prim.Native.String.{String}
use Prim.Native.Nat.{ℕ, zero, suc, ◌+◌, ◌-◌, ◌*◌, ◌/◌, ◌%◌, ◌^◌}
use mathlib.Core.Bool.{Bool, true, false, ◌&&◌, ◌||◌}
use mathlib.Core.List.{List, [], ◌∷◌, ◌++◌}
use eight_sleep_pod2server.Prelude.Tests.{ltb, ◌==◌, if◌then◌else◌}

-- The code points of a literal: its bytes, if it is ASCII.
abbrev pub codes : String → List ℕ
codes String.[] = []
codes (String.◌∷◌ c s) = code c ∷ codes s

-- Equality of texts.
abbrev pub text_eq : List ℕ → List ℕ → Bool
text_eq [] [] = true
text_eq [] (y ∷ ys) = false
text_eq (x ∷ xs) [] = false
text_eq (x ∷ xs) (y ∷ ys) = (x == y) && text_eq xs ys

abbrev pub starts_with : List ℕ → List ℕ → Bool
starts_with s [] = true
starts_with [] (y ∷ ys) = false
starts_with (x ∷ xs) (y ∷ ys) = (x == y) && starts_with xs ys

-- `strings.Contains(s, sub)`
abbrev pub contains : List ℕ → List ℕ → Bool
contains [] sub = starts_with [] sub
contains (x ∷ xs) sub = starts_with (x ∷ xs) sub || contains xs sub

-- A hexadecimal digit in upper or lower case, by the code of its ten.
abbrev pub hex_digit : ℕ → ℕ → ℕ
hex_digit ten d = if ltb d 10 then b'0' + d else ten + (d - 10)

-- The last `n` hexadecimal digits of a number, `%0nX` of a number that has no more.
abbrev pub hex_upper : ℕ → ℕ → List ℕ
hex_upper zero v = []
hex_upper (suc n) v = hex_upper n (v / 16) ++ hex_digit b'A' (v % 16) ∷ []

-- `binary.BigEndian.Uint32` of four bytes.
abbrev pub uint32 : ℕ → ℕ → ℕ → ℕ → ℕ
uint32 b₀ b₁ b₂ b₃ = ((b₀ * 256 + b₁) * 256 + b₂) * 256 + b₃

-- `binary.BigEndian.PutUint32`
abbrev pub put_uint32 : ℕ → List ℕ
put_uint32 v = v / 2 ^ 24 % 256 ∷ v / 2 ^ 16 % 256 ∷ v / 2 ^ 8 % 256 ∷ v % 256 ∷ []
