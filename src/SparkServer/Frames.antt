-- ===== src/SparkServer/Frames.antt =====
-- SparkServer/PodConnection.go, `SplitMessages` and the wire side of `sendMessage`: encrypted messages
-- behind a length of two bytes.
pub mod RoundTrip
pub mod Faults
pub mod Lengths
use eight_sleep_pod2server.Prelude.{
  ℕ, zero, suc, ◌+◌, ◌*◌, ◌/◌, ◌%◌, List, [], ◌∷◌, ◌++◌, Bytes, ltb, ◌==◌, if◌then◌else◌, length,
  take, drop, get_or,
}
use eight_sleep_pod2server.SparkServer.Cipher.{
  BlockCipher, Decrypted, plain, invalid_padding, encrypt, decrypt,
}

-- `binary.BigEndian.Uint16` and `PutUint16`.
abbrev pub uint16 : ℕ → ℕ → ℕ
uint16 hi lo = hi * 256 + lo

abbrev pub put_uint16 : ℕ → Bytes
put_uint16 v = v / 256 % 256 ∷ v % 256 ∷ []

-- The messages with the next vector, the error of `decrypt`, or a panic of it. `stuck` is no Go
-- outcome: the fuel ran out.
pub data SplitResult : Type 0 where
  messages : List Bytes → Bytes → SplitResult
  failed : SplitResult
  panicked : SplitResult
  stuck : SplitResult

module _ (k : BlockCipher) where
  -- The loop of `SplitMessages`, on the bytes from `offset` on.
  pub split_loop : ℕ → Bytes → Bytes → List Bytes → SplitResult
  split_loop zero incoming_iv rest found = stuck
  split_loop (suc fuel) incoming_iv rest found =
      if length rest == 0
      then messages found incoming_iv
      else if ltb (length rest) 2
      then messages found incoming_iv
      else let payload_len = uint16 (get_or rest 0 0) (get_or rest 1 0) in
        let body = drop 2 rest in
        if ltb (length body) payload_len
        then messages found incoming_iv
        else elim (decrypt k incoming_iv (take payload_len body)) [
          | plain plaintext next_iv ↦
              split_loop fuel next_iv (drop payload_len body) (found ++ plaintext ∷ [])
          | invalid_padding ↦ failed
          | Decrypted.panics ↦ panicked
        ]

  -- A round takes two bytes at least, so one round more than bytes is enough.
  pub split_messages : Bytes → Bytes → SplitResult
  split_messages incoming_iv bytes = split_loop (suc (length bytes)) incoming_iv bytes []

  -- What `sendMessage` writes for an encoded message, and the next outgoing vector. The length is
  -- converted to 16 bits.
  unfoldable pub frame : Bytes → Bytes → Bytes × Bytes
  frame outgoing_iv output =
      let (encrypted_payload, next_iv) = encrypt k outgoing_iv output in
      (put_uint16 (length encrypted_payload % 65536) ++ encrypted_payload, next_iv)
