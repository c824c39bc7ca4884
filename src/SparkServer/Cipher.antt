-- ===== src/SparkServer/Cipher.antt =====
-- SparkServer/PodConnection.go, `encrypt` and `decrypt`: AES in CBC mode with PKCS#7 padding and one
-- initialisation vector for each direction. The block cipher is a parameter; the CBC mode of
-- crypto/cipher is written out.
pub mod RoundTrip
pub mod Faults
use eight_sleep_pod2server.Prelude.{
  ℕ, zero, suc, ◌+◌, ◌-◌, ◌/◌, ◌%◌, ◌<◌, ◌≡◌, Bool, ◌||◌, not, List, [], ◌∷◌, ◌++◌, Bytes, IsByte,
  All, ltb, ◌==◌, if◌then◌else◌, length, take, drop, replicate, get_or, bit_xor,
}

-- `aes.BlockSize`
abbrev pub block_size : ℕ
block_size = 16

-- `cipher.Block`, as far as the code uses it.
pub record BlockCipher : Type 0 where
  pub encrypt_block : Bytes → Bytes
  pub decrypt_block : Bytes → Bytes

-- Sixteen bytes.
pub record IsBlock (b : Bytes) : Type 0 where
  pub sized : length b ≡ block_size
  pub bytes : All IsByte b

-- What is relied on of AES: a block is enciphered to a block, and deciphering undoes it.
pub record IsBlockCipher (k : BlockCipher) : Type 0 where
  pub encrypts : (b : Bytes) → IsBlock b → IsBlock (k.encrypt_block b)
  pub decrypts : (b : Bytes) → IsBlock b → k.decrypt_block (k.encrypt_block b) ≡ b

-- The exclusive or of two slices, up to the shorter one.
abbrev pub xor_bytes : Bytes → Bytes → Bytes
xor_bytes [] ys = []
xor_bytes (x ∷ xs) [] = []
xor_bytes (x ∷ xs) (y ∷ ys) = bit_xor x y ∷ xor_bytes xs ys

module _ (k : BlockCipher) where
  -- `NewCBCEncrypter(k, iv).CryptBlocks` on the given number of blocks.
  unfoldable pub cbc_encrypt : ℕ → Bytes → Bytes → Bytes
  cbc_encrypt zero iv p = []
  cbc_encrypt (suc n) iv p =
      let c = k.encrypt_block (xor_bytes (take block_size p) iv) in
      c ++ cbc_encrypt n c (drop block_size p)

  -- `NewCBCDecrypter(k, iv).CryptBlocks`
  pub cbc_decrypt : ℕ → Bytes → Bytes → Bytes
  cbc_decrypt zero iv c = []
  cbc_decrypt (suc n) iv c =
      xor_bytes (k.decrypt_block (take block_size c)) iv
      ++ cbc_decrypt n (take block_size c) (drop block_size c)

-- A slice with its padding.
unfoldable pub pad : Bytes → Bytes
pad plaintext =
    let pad_len = block_size - length plaintext % block_size in
    plaintext ++ replicate pad_len pad_len

-- `decrypt` returns the text and the next vector, or the error "invalid padding", with the vector left
-- as it was. It panics on a slice that is not made of whole blocks, and on an empty one.
pub data Decrypted : Type 0 where
  plain : Bytes → Bytes → Decrypted
  invalid_padding : Decrypted
  panics : Decrypted

module _ (k : BlockCipher) where
  -- The ciphertext and the next outgoing vector. No error is ever returned.
  unfoldable pub encrypt : Bytes → Bytes → Bytes × Bytes
  encrypt outgoing_iv plaintext =
      let padded = pad plaintext in
      let ciphertext = cbc_encrypt k (length padded / block_size) outgoing_iv padded in
      (ciphertext, take 16 ciphertext)

  pub decrypt : Bytes → Bytes → Decrypted
  decrypt incoming_iv input =
      if not (length input % block_size == 0) || (length input == 0)
      then panics
      else let plaintext = cbc_decrypt k (length input / block_size) incoming_iv input in
        let pad_len = get_or plaintext (length plaintext - 1) 0 in
        if ltb block_size pad_len || (pad_len == 0)
        then invalid_padding
        else plain (take (length plaintext - pad_len) plaintext) (take 16 input)
