-- ===== src/SparkServer/Frames/Lengths.antt =====
-- The two bytes of length in front of a message.
use eight_sleep_pod2server.Prelude.{
  ◌+◌, ◌-◌, ◌*◌, ◌/◌, ◌%◌, ◌<◌, ◌≡◌, ◌↔◌, Bytes, IsByte, All, length, get_or, arith,
}
use eight_sleep_pod2server.SparkServer.Cipher.{
  BlockCipher, IsBlock, IsBlockCipher, block_size, encrypt,
}
use eight_sleep_pod2server.SparkServer.Cipher.RoundTrip.{length-encrypt}
use eight_sleep_pod2server.SparkServer.Frames.{uint16, frame}

frame_sizes :
    (k : BlockCipher) (iv p : Bytes)
    → (length (frame k iv p).0 ≡ 2 + length (encrypt k iv p).0)
      × (uint16 (get_or (frame k iv p).0 0 0) (get_or (frame k iv p).0 1 0)
          ≡ length (encrypt k iv p).0 % 65536)
unfolding frame
frame_sizes k iv p = (omega arith, omega arith)

-- The frame of a message of bytes has two bytes, and one to sixteen bytes more than the message, in whole
-- blocks. The two bytes tell the length of what follows exactly if the message has fewer than 65520
-- bytes.
pub length-frame_exact :
    (k : BlockCipher) (iv p : Bytes)
    → IsBlockCipher k
    → IsBlock iv
    → All IsByte p
    → (length (frame k iv p).0 ≡ 2 + (length p / block_size + 1) * block_size)
      × ((uint16 (get_or (frame k iv p).0 0 0) (get_or (frame k iv p).0 1 0)
            ≡ length (frame k iv p).0 - 2)
          ↔ (length p < 65520))
length-frame_exact k iv p aes block h =
    let (len, told) = frame_sizes k iv p in
    let whole = length-encrypt k aes iv p block h in
    (omega arith, ((λ exact. omega arith), (λ short. omega arith)))
