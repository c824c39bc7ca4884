-- ===== src/SparkServer/Cipher/Faults.antt =====
-- The slices on which `decrypt` panics, and those that it refuses.
use eight_sleep_pod2server.Prelude.{◌%◌, ◌≡◌, ◌≢◌, refl, Bytes, length, ◌⊎◌, inl, inr, arith}
use eight_sleep_pod2server.SparkServer.Cipher.{
  BlockCipher, block_size, Decrypted, plain, invalid_padding, decrypt,
}

pub Decrypted-cases :
    (d : Decrypted)
    → ((p : Bytes) × (iv : Bytes) × (d ≡ plain p iv))
      ⊎ ((d ≡ invalid_padding) ⊎ (d ≡ Decrypted.panics))
Decrypted-cases (plain p iv) = inl (p, iv, refl)
Decrypted-cases invalid_padding = inr (inl refl)
Decrypted-cases Decrypted.panics = inr (inr refl)

pub decrypt-panics :
    (k : BlockCipher) (iv c : Bytes)
    → (length c ≡ 0) ⊎ (length c % block_size ≢ 0)
    → decrypt k iv c ≡ Decrypted.panics
unfolding decrypt
decrypt-panics k iv c bad = ground arith
