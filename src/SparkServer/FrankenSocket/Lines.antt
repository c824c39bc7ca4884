-- ===== src/SparkServer/FrankenSocket/Lines.antt =====
-- The lines of a read.
use eight_sleep_pod2server.Prelude.{
  ℕ, zero, suc, ◌/◌, ◌≡◌, ◌≢◌, refl, [], ◌∷◌, ◌++◌, Bytes, All, arith, ◌==◌, Bool-cases, inl, inr,
}
use eight_sleep_pod2server.Prelude.Int.{ℤ, pos, negsuc}
use eight_sleep_pod2server.Prelude.Decimal.{digits, decimal, itoa}
use eight_sleep_pod2server.SparkServer.FrankenSocket.{newline, split_lines}

-- A text of one line.
abbrev pub IsLine : Bytes → Type 0
IsLine text = All (λ b. b ≢ newline) text

pub split_lines-append :
    (text rest : Bytes)
    → IsLine text
    → split_lines (text ++ newline ∷ rest) ≡ (text, (split_lines rest).0 ∷ (split_lines rest).1)
unfolding split_lines
split_lines-append [] rest h = refl
split_lines-append (b ∷ text) rest (hb, h) = ground (arith, split_lines-append text rest h)

pub split_lines-line : (text : Bytes) → IsLine text → split_lines text ≡ (text, [])
unfolding split_lines
split_lines-line [] h = refl
split_lines-line (b ∷ text) (hb, h) = ground (arith, split_lines-line text h)

-- A read with no second part is one line.
pub IsLine-of_split : (text : Bytes) → (split_lines text).1 ≡ [] → IsLine text
unfolding split_lines
IsLine-of_split [] e = tt
IsLine-of_split (b ∷ text) e = elim (Bool-cases (b == newline)) [
  | inl same ↦ absurd (ground arith)
  | inr other ↦ (ground arith, IsLine-of_split text (ground arith))
]

digits-IsLine : (fuel n : ℕ) (out : Bytes) → IsLine out → IsLine (digits fuel n out)
unfolding digits
digits-IsLine zero n out h = h
digits-IsLine (suc fuel) n out h = elim (Bool-cases (n == 0)) [
  | inl done ↦ rw (done, digits) h
  | inr more ↦ rw (more, digits) (digits-IsLine fuel (n / 10) _ (omega arith, h))
]

decimal-IsLine : (n : ℕ) → IsLine (decimal n)
unfolding decimal
decimal-IsLine n = elim (Bool-cases (n == 0)) [
  | inl none ↦ rw (none, decimal) (omega arith, tt)
  | inr more ↦ rw (more, decimal) (digits-IsLine n n [] tt)
]

pub itoa-IsLine : (z : ℤ) → IsLine (itoa z)
itoa-IsLine (pos n) = unfold itoa in decimal-IsLine n
itoa-IsLine (negsuc n) = unfold itoa in (omega arith, decimal-IsLine (suc n))
