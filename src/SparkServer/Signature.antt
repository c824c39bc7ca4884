-- ===== src/SparkServer/Signature.antt =====
-- SparkServer/Handshake.go, `pkcs1v15PadRaw` and `rsaSignRawPKCS1`: a raw RSA signature over padding
-- that is written into a zeroed slice.
pub mod Layout
pub mod Value
use eight_sleep_pod2server.Prelude.{
  ℕ, zero, suc, ◌+◌, ◌-◌, ◌*◌, ◌/◌, ◌%◌, ◌^◌, Option, none, some, List, [], ◌∷◌, ◌++◌, Bytes, ltb,
  ◌==◌, if◌then◌else◌, length, set, replicate,
}

-- `padded[i] = 0xFF` for `n` indices from `i` on.
pub fill : ℕ → ℕ → Bytes → Bytes
fill zero i padded = padded
fill (suc n) i padded = fill n (i + 1) (set padded i 0xFF)

-- `copy(padded[i:], bytes)`, which stops at the end of the slice.
pub copy_at : ℕ → Bytes → Bytes → Bytes
copy_at i [] padded = padded
copy_at i (b ∷ bytes) padded = copy_at (i + 1) bytes (set padded i b)

-- `keySize - len(data) - 3 < 8` is compared without the subtraction, which may be negative in Go. `none`
-- is the error "data too long for key size".
pub pkcs1v15_pad_raw : Bytes → ℕ → Option Bytes
pkcs1v15_pad_raw bytes key_size =
    if ltb key_size (length bytes + 3 + 8)
    then none
    else let padding_len = key_size - length bytes - 3 in
      let zeroed = replicate key_size 0 in
      let marked = set (set zeroed 0 0x00) 1 0x01 in
      let filled = set (fill padding_len 2 marked) (2 + padding_len) 0x00 in
      some (copy_at (3 + padding_len) bytes filled)

-- `big.Int.SetBytes`, big-endian.
pub set_bytes : ℕ → Bytes → ℕ
set_bytes acc [] = acc
set_bytes acc (b ∷ bytes) = set_bytes (acc * 256 + b) bytes

-- `big.Int.Bytes`: big-endian with no leading zero. The fuel bounds the number of bytes.
pub int_bytes : ℕ → ℕ → Bytes → Bytes
int_bytes zero n out = out
int_bytes (suc fuel) n out =
    let more = int_bytes fuel (n / 256) (n % 256 ∷ out) in if n == 0 then out else more

-- The parts of `rsa.PrivateKey` that are used: the exponent, the modulus, and `Size()`.
pub record PrivateKey : Type 0 where
  pub d : ℕ
  pub n : ℕ
  pub size : ℕ

-- `big.Int.Exp(m, d, n)`
abbrev pub exp_mod : ℕ → ℕ → ℕ → ℕ
exp_mod m d n = m ^ d % n

pub rsa_sign_raw_pkcs1 : PrivateKey → Bytes → Option Bytes
rsa_sign_raw_pkcs1 priv bytes = elim (pkcs1v15_pad_raw bytes priv.size) [
  | none ↦ none
  | some padded ↦
      let s = exp_mod (set_bytes 0 padded) priv.d priv.n in
      let sig = int_bytes s s [] in
      some (if ltb (length sig) priv.size then replicate (priv.size - length sig) 0 ++ sig else sig)
]
