-- ===== src/SparkServer/Frames/Faults.antt =====
-- Reads on which `SplitMessages` panics, and that its loop always ends.
use eight_sleep_pod2server.Prelude.{
  ℕ, zero, suc, ◌%◌, ◌<◌, ◌≡◌, ◌≢◌, refl, List, [], ◌∷◌, ◌++◌, Bytes, length, take, drop, get_or,
  arith, length-append, length-drop, take-append, ◌⊎◌, inl, inr,
}
use eight_sleep_pod2server.SparkServer.Cipher.{BlockCipher, block_size, decrypt}
use eight_sleep_pod2server.SparkServer.Cipher.Faults.{Decrypted-cases, decrypt-panics}
use eight_sleep_pod2server.SparkServer.Frames.{
  uint16, put_uint16, panicked, stuck, split_loop, split_messages,
}

module _ (k : BlockCipher) where
  split_loop-ne-stuck :
      (fuel : ℕ) (iv rest : Bytes) (found : List Bytes)
      → length rest < fuel
      → split_loop k fuel iv rest found ≢ stuck
  unfolding split_loop
  split_loop-ne-stuck zero iv rest found h = absurd (omega arith)
  split_loop-ne-stuck (suc fuel) iv rest found h =
      let n = uint16 (get_or rest 0 0) (get_or rest 1 0) in
      let c = take n (drop 2 rest) in
      elim (Decrypted-cases (decrypt k iv c)) [
        | inl (p, next, e) ↦ ground (
          arith,
          split_loop-ne-stuck fuel next (drop n (drop 2 rest)) (found ++ p ∷ []),
          length-drop n (drop 2 rest),
          length-drop 2 rest,
        )
        | inr (inl e) ↦ ground arith
        | inr (inr e) ↦ ground arith
      ]

  -- `SplitMessages` ends on every read.
  pub split_messages-ne-stuck : (iv bytes : Bytes) → split_messages k iv bytes ≢ stuck
  unfolding split_messages
  split_messages-ne-stuck iv bytes =
      split_loop-ne-stuck (suc (length bytes)) iv bytes [] (omega arith)

  -- A read that begins with a complete frame whose length, below 65536, is 0 or no multiple of 16
  -- makes the server panic, whatever the key, the vector and the bytes behind it.
  pub split_messages-panicked :
      (iv c rest : Bytes)
      → length c < 65536
      → (length c ≡ 0) ⊎ (length c % block_size ≢ 0)
      → split_messages k iv (put_uint16 (length c) ++ c ++ rest) ≡ panicked
  unfolding split_messages split_loop
  split_messages-panicked iv c rest small bad =
      ground
        (arith, take-append (length c) c rest refl, length-append c rest, decrypt-panics k iv c bad)
