-- ===== src/SparkServer/Signature/Layout.antt =====
-- What `pkcs1v15PadRaw` writes.
use eight_sleep_pod2server.Prelude.{
  ℕ, zero, suc, ◌+◌, ◌-◌, ◌≡◌, refl, ap, sym, ◌∙◌, none, some, [], ◌∷◌, ◌++◌, Bytes, ltb,
  if◌then◌else◌, length, set, replicate, arith, append_assoc, ltb→le, Bool-cases, inl, inr,
  length-append, length-replicate,
}
use eight_sleep_pod2server.SparkServer.Signature.{fill, copy_at, pkcs1v15_pad_raw}

-- A write just behind a prefix.
set_behind :
    (front back : Bytes) (x v i : ℕ)
    → i ≡ length front
    → set (front ++ x ∷ back) i v ≡ front ++ v ∷ back
set_behind [] back x v zero e = refl
set_behind [] back x v (suc i) e = absurd (omega arith)
set_behind (y ∷ front) back x v zero e = absurd (omega arith)
set_behind (y ∷ front) back x v (suc i) e =
    ap (λ t. y ∷ t) (set_behind front back x v i (omega arith))

-- The loop overwrites as many bytes behind a prefix.
fill_behind :
    (n : ℕ) (front back : Bytes) (i x : ℕ)
    → i ≡ length front
    → fill n i (front ++ (replicate n x ++ back)) ≡ front ++ (replicate n 0xFF ++ back)
unfolding fill
fill_behind zero front back i x e = refl
fill_behind (suc n) front back i x e =
    ap (fill n (i + 1))
      (set_behind front (replicate n x ++ back) x 0xFF i e ∙ sym (append_assoc front (0xFF ∷ []) _))
    ∙ fill_behind n (front ++ 0xFF ∷ []) back (i + 1) x
        (omega (arith, length-append front (0xFF ∷ [])))
    ∙ append_assoc front (0xFF ∷ []) _

copy_behind :
    (bytes front : Bytes) (i x : ℕ)
    → i ≡ length front
    → copy_at i bytes (front ++ replicate (length bytes) x) ≡ front ++ bytes
unfolding copy_at
copy_behind [] front i x e = refl
copy_behind (b ∷ bytes) front i x e =
    ap (copy_at (i + 1) bytes)
      (set_behind front (replicate (length bytes) x) x b i e ∙ sym (append_assoc front (b ∷ []) _))
    ∙ copy_behind bytes (front ++ b ∷ []) (i + 1) x (omega (arith, length-append front (b ∷ [])))
    ∙ append_assoc front (b ∷ []) bytes

replicate_add : (m n k : ℕ) → k ≡ m + n → replicate {A = ℕ} k 0 ≡ replicate m 0 ++ replicate n 0
replicate_add zero n k e = let e' : k ≡ n = omega arith in rw e'
replicate_add (suc m) n zero e = absurd (omega arith)
replicate_add (suc m) n (suc k) e = ap (λ t. 0 ∷ t) (replicate_add m n k (omega arith))

-- The zeroed slice, cut where the parts of the padding go.
zeroed_parts :
    (bytes : Bytes) (p key_size : ℕ)
    → key_size ≡ length bytes + 3 + p
    → replicate {A = ℕ} key_size 0 ≡ 0 ∷ 0 ∷ (replicate p 0 ++ 0 ∷ replicate (length bytes) 0)
zeroed_parts bytes p zero e = absurd (omega arith)
zeroed_parts bytes p (suc zero) e = absurd (omega arith)
zeroed_parts bytes p (suc (suc k)) e =
    ap (λ t. 0 ∷ 0 ∷ t) (replicate_add p (suc (length bytes)) k (omega arith))

-- The writes of the source into the cut slice.
written :
    (bytes : Bytes) (p : ℕ)
    → copy_at
        (3 + p)
        bytes
        (set (fill p 2 (0 ∷ 1 ∷ (replicate p 0 ++ 0 ∷ replicate (length bytes) 0))) (2 + p) 0)
      ≡ 0 ∷ 1 ∷ (replicate p 0xFF ++ 0 ∷ bytes)
written bytes p =
    let ones = replicate p 0xFF in
    let zeros = replicate (length bytes) 0 in
    ap (λ t. copy_at (3 + p) bytes (set t (2 + p) 0))
      (fill_behind p (0 ∷ 1 ∷ []) (0 ∷ zeros) 2 0 refl)
    ∙ ap (copy_at (3 + p) bytes) (
        set_behind (0 ∷ 1 ∷ ones) zeros 0 0 (2 + p) (omega (arith, length-replicate {A = ℕ} p 0xFF))
        ∙ ap (λ t. 0 ∷ 1 ∷ t) (sym (append_assoc ones (0 ∷ []) zeros)))
    ∙ copy_behind bytes (0 ∷ 1 ∷ (ones ++ 0 ∷ [])) (3 + p) 0
        (omega (arith, length-replicate {A = ℕ} p 0xFF, length-append ones (0 ∷ [])))
    ∙ ap (λ t. 0 ∷ 1 ∷ t) (append_assoc ones (0 ∷ []) bytes)

-- The padding of a text that is at least eleven bytes shorter than the key: the bytes 0 and 1, then
-- bytes 0xFF, a byte 0, and the text, as long as the key together. A longer text is refused.
pub pkcs1v15_pad_raw_lem :
    (bytes : Bytes) (key_size : ℕ)
    → pkcs1v15_pad_raw bytes key_size ≡ (
        if ltb key_size (length bytes + 11)
        then none
        else some (0 ∷ 1 ∷ (replicate (key_size - length bytes - 3) 0xFF ++ 0 ∷ bytes)))
unfolding pkcs1v15_pad_raw
pkcs1v15_pad_raw_lem bytes key_size = elim (Bool-cases (ltb key_size (length bytes + 11))) [
  | inl short ↦ ground arith
  | inr long ↦
      let p = key_size - length bytes - 3 in
      let parts = zeroed_parts bytes p key_size (omega (arith, ltb→le _ _ long)) in
      ground (
        arith,
        ap (λ t. copy_at (3 + p) bytes (set (fill p 2 (set (set t 0 0) 1 1)) (2 + p) 0)) parts
            ∙ written bytes p,
      )
]
