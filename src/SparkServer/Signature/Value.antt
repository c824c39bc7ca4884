-- ===== src/SparkServer/Signature/Value.antt =====
-- The signature as a number: what `rsaSignRawPKCS1` returns stands for the RSA result.
use native.Mathlib.Nat.{pow-suc, mod-lt}
use eight_sleep_pod2server.Prelude.{
  ℕ, zero, suc, ◌+◌, ◌-◌, ◌/◌, ◌%◌, ◌^◌, ◌<◌, ◌≤◌, ◌≡◌, refl, ap, ◌∙◌, some, [], ◌∷◌, ◌++◌, Bytes,
  ltb, if◌then◌else◌, length, replicate, arith, length-append, length-replicate,
}
use eight_sleep_pod2server.SparkServer.Signature.{
  set_bytes, int_bytes, pkcs1v15_pad_raw, PrivateKey, exp_mod, rsa_sign_raw_pkcs1,
}

-- Reading back the bytes of `n` in front of `out` is reading `out` after `n`.
set_bytes-int_bytes :
    (fuel n : ℕ) (out : Bytes) → n ≤ fuel → set_bytes 0 (int_bytes fuel n out) ≡ set_bytes n out
unfolding int_bytes set_bytes
set_bytes-int_bytes zero n out h = ap (λ k. set_bytes k out) (omega arith)
set_bytes-int_bytes (suc fuel) n out h =
    ground (arith, set_bytes-int_bytes fuel (n / 256) (n % 256 ∷ out))

-- A number below `256 ^ w` has at most `w` bytes.
length-int_bytes :
    (fuel w n : ℕ) (out : Bytes) → n < 256 ^ w → length (int_bytes fuel n out) ≤ w + length out
unfolding int_bytes
length-int_bytes zero w n out h = omega arith
length-int_bytes (suc fuel) zero n out h = ground arith
length-int_bytes (suc fuel) (suc w) n out h =
    ground (arith, pow-suc 256 w, length-int_bytes fuel w (n / 256) (n % 256 ∷ out))

set_bytes-zeros : (k : ℕ) (bytes : Bytes) → set_bytes 0 (replicate k 0 ++ bytes) ≡ set_bytes 0 bytes
unfolding set_bytes
set_bytes-zeros zero bytes = refl
set_bytes-zeros (suc k) bytes = set_bytes-zeros k bytes

-- Zeros in front make a slice as long as the key, and leave its value.
left_pad :
    (sig : Bytes) (size : ℕ)
    → length sig ≤ size
    → (length (if ltb (length sig) size then replicate (size - length sig) 0 ++ sig else sig)
        ≡ size)
      × (set_bytes 0 (if ltb (length sig) size then replicate (size - length sig) 0 ++ sig else sig)
          ≡ set_bytes 0 sig)
left_pad sig size h = ground (
  arith,
  length-append (replicate (size - length sig) 0) sig,
  length-replicate {A = ℕ} (size - length sig) 0,
  set_bytes-zeros (size - length sig) sig,
)

-- A text that can be padded gets a signature, for a key whose modulus is positive and fits the key's
-- size. The signature is as long as the key, and read as a
-- big-endian number it is the padded text to the power of the private exponent, by the modulus.
pub rsa_sign_raw_pkcs1_lem :
    (priv : PrivateKey) (bytes padded : Bytes)
    → 0 < priv.n
    → priv.n ≤ 256 ^ priv.size
    → pkcs1v15_pad_raw bytes priv.size ≡ some padded
    → (sig : Bytes) × (rsa_sign_raw_pkcs1 priv bytes ≡ some sig)
      × (length sig ≡ priv.size)
      × (set_bytes 0 sig ≡ exp_mod (set_bytes 0 padded) priv.d priv.n)
unfolding rsa_sign_raw_pkcs1
rsa_sign_raw_pkcs1_lem priv bytes padded pos fits e =
    let s = exp_mod (set_bytes 0 padded) priv.d priv.n in
    let sig = int_bytes s s [] in
    let (len, same) =
      left_pad sig priv.size (omega (arith, length-int_bytes s priv.size s [] below)) in
    (
      (if ltb (length sig) priv.size then replicate (priv.size - length sig) 0 ++ sig else sig),
      rw (e, rsa_sign_raw_pkcs1),
      len,
      same ∙ set_bytes-int_bytes s s [] (omega arith) ∙ unfold set_bytes in refl,
    )
  where
    below : exp_mod (set_bytes 0 padded) priv.d priv.n < 256 ^ priv.size
    below = omega (arith, mod-lt (set_bytes 0 padded ^ priv.d) pos)
