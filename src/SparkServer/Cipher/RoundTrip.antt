-- ===== src/SparkServer/Cipher/RoundTrip.antt =====
-- What one end encrypts the other decrypts, and their vectors stay the same.
use eight_sleep_pod2server.Prelude.{
  ℕ, zero, suc, ◌+◌, ◌-◌, ◌*◌, ◌/◌, ◌%◌, ◌<◌, ◌≤◌, ◌≡◌, refl, ap, sym, ◌∙◌, [], ◌∷◌, ◌++◌, Bytes,
  IsByte, All, length, take, drop, replicate, get_or, arith, length-append, length-take,
  length-drop, length-replicate, take-append, drop-append, All-append, take-append-drop,
}
use eight_sleep_pod2server.Prelude.Bits.{bit_xor_twice}
use eight_sleep_pod2server.SparkServer.Cipher.{
  BlockCipher, IsBlock, IsBlockCipher, block_size, xor_bytes, cbc_encrypt, cbc_decrypt, pad, plain,
  encrypt, decrypt,
}

All-take : (n : ℕ) (xs : Bytes) → All IsByte xs → All IsByte (take n xs)
All-take zero xs h = tt
All-take (suc n) [] h = tt
All-take (suc n) (x ∷ xs) (hx, h) = (hx, All-take n xs h)

All-drop : (n : ℕ) (xs : Bytes) → All IsByte xs → All IsByte (drop n xs)
All-drop zero xs h = h
All-drop (suc n) [] h = tt
All-drop (suc n) (x ∷ xs) (hx, h) = All-drop n xs h

All-replicate : (n b : ℕ) → IsByte b → All IsByte (replicate n b)
All-replicate zero b h = tt
All-replicate (suc n) b h = (h, All-replicate n b h)

-- The exclusive or of equally long slices of bytes, and with the same slice again.
xor_bytes_twice :
    (xs ys : Bytes)
    → length xs ≡ length ys
    → All IsByte xs
    → All IsByte ys
    → (length (xor_bytes xs ys) ≡ length xs)
      × All IsByte (xor_bytes xs ys)
      × (xor_bytes (xor_bytes xs ys) ys ≡ xs)
xor_bytes_twice [] ys e hx hy = (refl, tt, refl)
xor_bytes_twice (x ∷ xs) [] e hx hy = absurd (omega arith)
xor_bytes_twice (x ∷ xs) (y ∷ ys) e (hx, hxs) (hy, hys) =
    let (byte, back) = bit_xor_twice 8 x y hx hy in
    let (len, all, rest) = xor_bytes_twice xs ys (omega arith) hxs hys in
    (ap suc len, (byte, all), λ i. back i ∷ rest i)

xor-IsBlock :
    (p iv : Bytes)
    → IsBlock p
    → IsBlock iv
    → IsBlock (xor_bytes p iv) × (xor_bytes (xor_bytes p iv) iv ≡ p)
xor-IsBlock p iv hp hi =
    let (len, all, back) = xor_bytes_twice p iv (omega arith) hp.bytes hi.bytes in
    (record { sized = omega arith; bytes = all }, back)

module _ (k : BlockCipher) (aes : IsBlockCipher k) where
  cbc_decrypt-cbc_encrypt :
      (n : ℕ) (iv p : Bytes)
      → IsBlock iv
      → length p ≡ n * block_size
      → All IsByte p
      → (length (cbc_encrypt k n iv p) ≡ n * block_size)
        × (cbc_decrypt k n iv (cbc_encrypt k n iv p) ≡ p)
  unfolding cbc_encrypt cbc_decrypt
  cbc_decrypt-cbc_encrypt zero iv [] hi e h = (refl, refl)
  cbc_decrypt-cbc_encrypt zero iv (x ∷ p) hi e h = absurd (omega arith)
  cbc_decrypt-cbc_encrypt (suc n) iv p hi e h =
      let front : IsBlock (take block_size p) = record {
        sized = omega (arith, length-take block_size p);
        bytes = All-take block_size p h;
      } in
      let (mixed, back) = xor-IsBlock (take block_size p) iv front hi in
      let c = k.encrypt_block (xor_bytes (take block_size p) iv) in
      let hc = aes.encrypts _ mixed in
      let (len, later) =
        cbc_decrypt-cbc_encrypt n c (drop block_size p) hc (omega (arith, length-drop block_size p))
          (All-drop block_size p h) in
      let later_c = cbc_encrypt k n c (drop block_size p) in
      (
        omega (arith, length-append c later_c, len, hc.sized),
        rw
            (
              take-append block_size c later_c (sym hc.sized),
              drop-append block_size c later_c (sym hc.sized),
              aes.decrypts _ mixed,
              back,
              later,
            )
            (take-append-drop block_size p),
      )

  -- The first block of a ciphertext is a block.
  first-IsBlock :
      (n : ℕ) (iv p : Bytes)
      → IsBlock iv
      → 0 < n
      → length p ≡ n * block_size
      → All IsByte p
      → IsBlock (take 16 (cbc_encrypt k n iv p))
  unfolding cbc_encrypt
  first-IsBlock zero iv p hi pos e h = absurd (omega arith)
  first-IsBlock (suc n) iv p hi pos e h =
      let front : IsBlock (take block_size p) = record {
        sized = omega (arith, length-take block_size p);
        bytes = All-take block_size p h;
      } in
      let hc = aes.encrypts _ (xor-IsBlock (take block_size p) iv front hi).0 in
      rw (take-append block_size _ _ (sym hc.sized)) hc

-- The padding fills up the last block, and its last byte gives its length.
pad_lem :
    (p : Bytes)
    → (length (pad p) % block_size ≡ 0)
      × (length (pad p) ≡ length p + (block_size - length p % block_size))
unfolding pad
pad_lem p = omega (
  arith,
  length-append p
      (replicate (block_size - length p % block_size) (block_size - length p % block_size)),
  length-replicate (block_size - length p % block_size) (block_size - length p % block_size),
)

get_or-append_right :
    (p q : Bytes) (i : ℕ) → length p ≤ i → get_or (p ++ q) i 0 ≡ get_or q (i - length p) 0
get_or-append_right [] q i h = ap (λ j. get_or q j 0) (omega arith)
get_or-append_right (x ∷ p) q zero h = absurd (omega arith)
get_or-append_right (x ∷ p) q (suc i) h =
    get_or-append_right p q i (omega arith) ∙ ap (λ j. get_or q j 0) (omega arith)

get_or-replicate : (m b i : ℕ) → i < m → get_or (replicate m b) i 0 ≡ b
get_or-replicate zero b i h = absurd (omega arith)
get_or-replicate (suc m) b zero h = refl
get_or-replicate (suc m) b (suc i) h = get_or-replicate m b i (omega arith)

-- The last byte of a padded text is the length of its padding.
pad_last : (p : Bytes) → get_or (pad p) (length (pad p) - 1) 0 ≡ block_size - length p % block_size
unfolding pad
pad_last p =
    let n = block_size - length p % block_size in
    let len : length (p ++ replicate n n) ≡ length p + n =
      omega (arith, length-append p (replicate n n), length-replicate n n) in
    get_or-append_right p (replicate n n) _ (omega arith) ∙ get_or-replicate n n _ (omega arith)

take-pad : (p : Bytes) (n : ℕ) → n ≡ length p → take n (pad p) ≡ p
unfolding pad
take-pad p n e = take-append n p _ e

pad-IsByte : (p : Bytes) → All IsByte p → All IsByte (pad p)
unfolding pad
pad-IsByte p h = All-append IsByte p _ h (All-replicate _ _ (omega arith))

module _ (k : BlockCipher) (aes : IsBlockCipher k) (iv p : Bytes) (hi : IsBlock iv)
    (h : All IsByte p) where
  whole_blocks :
      (0 < length (pad p) / block_size)
      × (length (pad p) ≡ length (pad p) / block_size * block_size)
  whole_blocks = omega (arith, pad_lem p)

  -- The text of whole blocks that CBC works on, and what it makes of it.
  cbc :
      (length (cbc_encrypt k (length (pad p) / block_size) iv (pad p))
        ≡ length (pad p) / block_size * block_size)
      × (cbc_decrypt k
            (length (pad p) / block_size)
            iv
            (cbc_encrypt k (length (pad p) / block_size) iv (pad p))
          ≡ pad p)
  cbc =
      cbc_decrypt-cbc_encrypt k aes (length (pad p) / block_size) iv (pad p) hi whole_blocks.1
        (pad-IsByte p h)

  -- The length of a ciphertext: the text with one to sixteen bytes of padding, in whole blocks.
  pub length-encrypt : length (encrypt k iv p).0 ≡ length p + (block_size - length p % block_size)
  unfolding encrypt
  length-encrypt = omega (arith, cbc, pad_lem p)

  -- The next vector is a block again.
  pub encrypt-IsBlock : IsBlock (encrypt k iv p).1
  unfolding encrypt
  encrypt-IsBlock =
      first-IsBlock k aes (length (pad p) / block_size) iv (pad p) hi whole_blocks.0 whole_blocks.1
        (pad-IsByte p h)

  -- Decrypting with the vector, one block, that a text of bytes was encrypted with gives the text
  -- back, and both ends go on with the same next vector.
  pub decrypt-encrypt : decrypt k iv (encrypt k iv p).0 ≡ plain p (encrypt k iv p).1
  unfolding encrypt decrypt
  decrypt-encrypt = ground (
    arith,
    cbc,
    pad_lem p,
    pad_last p,
    take-pad p (length (pad p) - (block_size - length p % block_size)),
  )
