-- ===== src/Prelude/Decimal.antt =====
-- `strconv.Itoa` and `strconv.Atoi`.
pub mod RoundTrip
use eight_sleep_pod2server.Prelude.Tests.{ltb, leb, ◌==◌, if◌then◌else◌}
use eight_sleep_pod2server.Prelude.Int.{ℤ, pos, negsuc}
use Prim.Native.Nat.{ℕ, zero, suc, ◌+◌, ◌-◌, ◌*◌, ◌/◌, ◌%◌, ◌^◌}
use mathlib.Core.Bool.{Bool, ◌&&◌}
use mathlib.Core.Option.{Option, none, some}
use mathlib.Core.List.{List, [], ◌∷◌}

-- The digits of a number in front of a text, none for 0; the fuel bounds their number.
unfoldable pub digits : ℕ → ℕ → List ℕ → List ℕ
digits zero n out = out
digits (suc fuel) n out =
    let more = digits fuel (n / 10) ((b'0' + n % 10) ∷ out) in if n == 0 then out else more

unfoldable pub decimal : ℕ → List ℕ
unfolding digits
decimal n = if n == 0 then b'0' ∷ [] else digits n n []

unfoldable pub itoa : ℤ → List ℕ
unfolding decimal
itoa (pos n) = decimal n
itoa (negsuc n) = b'-' ∷ decimal (suc n)

abbrev pub is_digit : ℕ → Bool
is_digit c = leb b'0' c && leb c b'9'

-- The digits of a text behind a number; `none` for any other character.
unfoldable pub scan : List ℕ → ℕ → Option ℕ
scan [] n = some n
scan (c ∷ text) n = let rest = scan text (n * 10 + (c - b'0')) in if is_digit c then rest else none

unfoldable pub unsigned : List ℕ → Option ℕ
unfolding scan
unsigned [] = none
unsigned (c ∷ text) = scan (c ∷ text) 0

-- A number behind no sign or `+`, and one behind `-`, where it fits 64 bits.
abbrev pub not_negated : Option ℕ → Option ℤ
not_negated none = none
not_negated (some n) = if ltb n (2 ^ 63) then some (pos n) else none

abbrev pub negated : Option ℕ → Option ℤ
negated none = none
negated (some n) =
    if n == 0 then some (pos 0) else if leb n (2 ^ 63) then some (negsuc (n - 1)) else none

-- `none` for a syntax error and for a number out of range.
unfoldable pub atoi : List ℕ → Option ℤ
unfolding unsigned
atoi [] = none
atoi (c ∷ text) =
    if c == b'-'
    then negated (unsigned text)
    else if c == b'+'
    then not_negated (unsigned text)
    else not_negated (unsigned (c ∷ text))
