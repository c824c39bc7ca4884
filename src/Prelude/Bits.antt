-- ===== src/Prelude/Bits.antt =====
-- The bit operations of the source as arithmetic: masks on a byte, and `|` of disjoint parts.
use Prim.Native.Nat.{digits, differ, bit_or-bitwise, bit_xor-bitwise}
use mathlib.Core.Path.{◌≡◌, refl, ap}
use mathlib.Core.Bool.{Bool, true, false}
use Prim.Native.Nat.{ℕ, zero, suc, ◌+◌, ◌*◌, ◌/◌, ◌%◌, ◌^◌, ◌≤◌, ◌<◌, max, bit_and, bit_or, bit_xor}
use native.Mathlib.Nat.{pow-suc}
use native.Mathlib.Omega.{arith}
use eight_sleep_pod2server.Prelude.Tests.{◌==◌, if◌then◌else◌}

-- Two functions compared at every argument below a bound, by evaluation.
agree : (ℕ → ℕ) → (ℕ → ℕ) → ℕ → Bool
agree f g zero = true
agree f g (suc bound) = let lower = agree f g bound in if f bound == g bound then lower else false

agree_at : (f g : ℕ → ℕ) (bound : ℕ) {x : ℕ} → agree f g bound ≡ true → x < bound → f x ≡ g x
unfolding agree
agree_at f g zero all small = absurd (omega arith)
agree_at f g (suc bound) {x = x} all small =
    let (top, below) : (f bound ≡ g bound) × (agree f g bound ≡ true) = ground arith in
    grind (arith, agree_at f g bound {x = x} below)

-- `x & 0xE0` keeps the three upper bits of a byte.
pub bit_and_major : (x : ℕ) → x < 256 → bit_and x 0xE0 ≡ x / 32 * 32
unfolding agree
bit_and_major x byte = agree_at (λ y. bit_and y 0xE0) (λ y. y / 32 * 32) 256 refl byte

-- `x & 0x1F` keeps the five lower bits of a byte.
pub bit_and_info : (x : ℕ) → x < 256 → bit_and x 0x1F ≡ x % 32
unfolding agree
bit_and_info x byte = agree_at (λ y. bit_and y 0x1F) (λ y. y % 32) 256 refl byte

-- The fuel of the digit recursion behind the native operations does not matter, once it suffices.
module _ (f : ℕ → ℕ → ℕ) where
  fold_digits : ℕ → ℕ → ℕ → ℕ
  fold_digits = digits (λ b. b) f

  fold_digits_fuel : (b n m a : ℕ) → a ≤ m → a ≤ n → fold_digits n a b ≡ fold_digits m a b
  unfolding fold_digits
  fold_digits_fuel b zero zero zero hm hn = refl
  fold_digits_fuel b zero (suc m) zero hm hn = refl
  fold_digits_fuel b (suc n) zero zero hm hn = refl
  fold_digits_fuel b (suc n) (suc m) zero hm hn = refl
  fold_digits_fuel b zero m (suc a) hm hn = absurd (omega arith)
  fold_digits_fuel b (suc n) zero (suc a) hm hn = absurd (omega arith)
  fold_digits_fuel b (suc n) (suc m) (suc a) hm hn =
      ap (λ t. t * 2 + f (suc a % 2) (b % 2))
        (fold_digits_fuel (b / 2) n m (suc a / 2) (omega arith) (omega arith))

  -- The digits of `suc a` from those of its half.
  fold_digits-suc :
      (a b : ℕ)
      → fold_digits (suc a) (suc a) b
        ≡ fold_digits (suc a / 2) (suc a / 2) (b / 2) * 2 + f (suc a % 2) (b % 2)
  unfolding fold_digits
  fold_digits-suc a b =
      ap (λ t. t * 2 + f (suc a % 2) (b % 2))
        (fold_digits_fuel (b / 2) a (suc a / 2) (suc a / 2) (omega arith) (omega arith))

-- `|` and `^` act on the lowest digit and on the rest.
pub bit_or_low : (a b : ℕ) → bit_or a b ≡ bit_or (a / 2) (b / 2) * 2 + max (a % 2) (b % 2)
unfolding fold_digits
bit_or_low zero b = simp bit_or-bitwise (omega arith)
bit_or_low (suc a) b = simp bit_or-bitwise (fold_digits-suc max a b)

pub bit_xor_low : (a b : ℕ) → bit_xor a b ≡ bit_xor (a / 2) (b / 2) * 2 + differ (a % 2) (b % 2)
unfolding fold_digits
bit_xor_low zero b = simp bit_xor-bitwise (omega arith)
bit_xor_low (suc a) b = simp bit_xor-bitwise (fold_digits-suc differ a b)

-- `x << k` in a wide enough word.
abbrev pub shl : ℕ → ℕ → ℕ
shl x k = x * 2 ^ k

bit_or-zero : (n a : ℕ) → a ≤ n → bit_or a 0 ≡ a
bit_or-zero n zero h = refl
bit_or-zero zero (suc a) h = absurd (omega arith)
bit_or-zero (suc n) (suc a) h =
    omega (arith, bit_or_low (suc a) 0, bit_or-zero n (suc a / 2) (omega arith))

double_shl : (q k : ℕ) → q * 2 ^ suc k ≡ 2 * (q * 2 ^ k)
double_shl q k = omega (arith, ap (λ (t : ℕ). q * t) (pow-suc 2 k))

-- `|` puts a number of at most `k` digits under one that is shifted by `k`.
pub bit_or-shl : (k q r : ℕ) → r < 2 ^ k → bit_or (shl q k) r ≡ shl q k + r
bit_or-shl zero q r h = ground (arith, bit_or-zero q q)
bit_or-shl (suc k) q r h = ground (
  arith,
  bit_or_low (q * 2 ^ suc k) r,
  double_shl q k,
  pow-suc 2 k,
  bit_or-shl k q (r / 2) (omega arith),
)

xor_bits : (x y : ℕ) → x < 2 → y < 2 → (differ x y < 2) × (differ (differ x y) y ≡ x)
xor_bits zero zero hx hy = (omega arith, refl)
xor_bits zero (suc zero) hx hy = (omega arith, refl)
xor_bits (suc zero) zero hx hy = (omega arith, refl)
xor_bits (suc zero) (suc zero) hx hy = (omega arith, refl)
xor_bits zero (suc (suc y)) hx hy = absurd (omega arith)
xor_bits (suc zero) (suc (suc y)) hx hy = absurd (omega arith)
xor_bits (suc (suc x)) y hx hy = absurd (omega arith)

-- The exclusive or of numbers of at most `k` digits has at most `k` digits, and undoes itself.
pub bit_xor_twice :
    (k a b : ℕ) → a < 2 ^ k → b < 2 ^ k → (bit_xor a b < 2 ^ k) × (bit_xor (bit_xor a b) b ≡ a)
bit_xor_twice zero zero zero ha hb = (omega arith, refl)
bit_xor_twice zero zero (suc b) ha hb = absurd (omega arith)
bit_xor_twice zero (suc a) b ha hb = absurd (omega arith)
bit_xor_twice (suc k) a b ha hb = ground (
  arith,
  pow-suc 2 k,
  bit_xor_twice k (a / 2) (b / 2) (omega arith) (omega arith),
  bit_xor_low a b,
  bit_xor_low (bit_xor a b) b,
  xor_bits (a % 2) (b % 2) (omega arith) (omega arith),
)
