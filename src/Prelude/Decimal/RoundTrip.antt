-- ===== src/Prelude/Decimal/RoundTrip.antt =====
-- A number that is printed is read back.
use eight_sleep_pod2server.Prelude.Tests.{◌==◌, Bool-cases}
use eight_sleep_pod2server.Prelude.Int.{ℤ, pos, negsuc, IsInt64}
use eight_sleep_pod2server.Prelude.Decimal.{digits, decimal, itoa, scan, unsigned, atoi}
use Prim.Native.Nat.{ℕ, zero, suc, ◌+◌, ◌/◌, ◌%◌, ◌≤◌, ◌<◌}
use mathlib.Core.Path.{◌≡◌, refl}
use mathlib.Core.Logic.{inl, inr}
use mathlib.Core.Option.{some}
use mathlib.Core.List.{List, [], ◌∷◌}
use native.Mathlib.Omega.{arith}

scan_last : (n : ℕ) (out : List ℕ) → scan ((b'0' + n % 10) ∷ out) (n / 10) ≡ scan out n
unfolding scan
scan_last n out = ground arith

scan-digits : (fuel n : ℕ) (out : List ℕ) → n ≤ fuel → scan (digits fuel n out) 0 ≡ scan out n
unfolding digits
scan-digits zero zero out h = refl
scan-digits zero (suc n) out h = absurd (omega arith)
scan-digits (suc fuel) n out h =
    ground (arith, scan-digits fuel (n / 10) ((b'0' + n % 10) ∷ out), scan_last n out)

digits_zero : (fuel : ℕ) (out : List ℕ) → digits fuel 0 out ≡ out
unfolding digits
digits_zero zero out = refl
digits_zero (suc fuel) out = refl

-- The first digit, and what follows it.
digits-head :
    (fuel n : ℕ) (out : List ℕ)
    → 0 < n
    → n ≤ fuel
    → (c : ℕ) × (text : List ℕ) × (digits fuel n out ≡ c ∷ text) × (b'0' ≤ c) × (c ≤ b'9')
unfolding digits
digits-head zero n out h k = absurd (omega arith)
digits-head (suc fuel) n out h k = elim (Bool-cases (n / 10 == 0)) [
  | inl last ↦
      let quotient : n / 10 ≡ 0 = ground arith in
      let whole : digits (suc fuel) n out ≡ (b'0' + n % 10) ∷ out =
        ground (arith, digits_zero fuel ((b'0' + n % 10) ∷ out)) in
      (b'0' + n % 10, out, whole, omega arith, omega arith)
  | inr more ↦
      let (c, text, e, low, high) =
        digits-head fuel (n / 10) ((b'0' + n % 10) ∷ out) (ground arith) (omega arith) in
      (c, text, ground arith, low, high)
]

decimal_pos : (n : ℕ) → decimal (suc n) ≡ digits (suc n) (suc n) []
unfolding decimal
decimal_pos n = ground arith

decimal-head :
    (n : ℕ) → (c : ℕ) × (text : List ℕ) × (decimal n ≡ c ∷ text) × (b'0' ≤ c) × (c ≤ b'9')
decimal-head zero = (b'0', [], unfold decimal in refl, omega arith, omega arith)
decimal-head (suc n) =
    rw (decimal_pos n) (digits-head (suc n) (suc n) [] (omega arith) (omega arith))

scan-decimal : (n : ℕ) → scan (decimal n) 0 ≡ some n
unfolding scan
scan-decimal zero = unfold decimal in refl
scan-decimal (suc n) = rw (decimal_pos n) (scan-digits (suc n) (suc n) [] (omega arith))

unsigned-decimal : (n : ℕ) → unsigned (decimal n) ≡ some n
unfolding unsigned
unsigned-decimal n =
    let (c, text, e, _, _) = decimal-head n in let read = scan-decimal n in ground (arith, e, read)

-- A 64-bit integer that is printed is read back.
pub atoi-itoa : (z : ℤ) → IsInt64 z → atoi (itoa z) ≡ some z
unfolding atoi itoa
atoi-itoa (pos n) fits =
    let (c, text, e, low, high) = decimal-head n in
    let read = unsigned-decimal n in ground (arith, e, read)
atoi-itoa (negsuc n) fits = let read = unsigned-decimal (suc n) in ground (arith, read)
