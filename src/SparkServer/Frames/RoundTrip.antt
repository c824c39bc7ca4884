-- ===== src/SparkServer/Frames/RoundTrip.antt =====
-- A burst of messages framed by one end is split into the same messages by the other.
use eight_sleep_pod2server.Prelude.{
  ℕ, zero, suc, ◌+◌, ◌%◌, ◌<◌, ◌≤◌, ◌≡◌, refl, ap, sym, ◌∙◌, List, [], ◌∷◌, ◌++◌, Bytes, IsByte,
  All, length, get_or, arith, length-append, append_assoc, append-nil, take-append, drop-append,
  length-drop, ◌⊎◌,
}
use eight_sleep_pod2server.SparkServer.Cipher.{
  BlockCipher, IsBlock, IsBlockCipher, plain, encrypt, decrypt,
}
use eight_sleep_pod2server.SparkServer.Cipher.RoundTrip.{
  length-encrypt, encrypt-IsBlock, decrypt-encrypt,
}
use eight_sleep_pod2server.SparkServer.Frames.{
  uint16, put_uint16, messages, split_loop, split_messages, frame,
}

-- A message whose padded length fits the two bytes of a frame.
abbrev pub IsMessage : Bytes → Type 0
IsMessage p = All IsByte p × (length p < 65520)

module _ (k : BlockCipher) where
  -- The frames of messages sent one behind the other, and the vector behind them.
  abbrev pub frames : Bytes → List Bytes → Bytes
  frames iv [] = []
  frames iv (p ∷ ps) = (frame k iv p).0 ++ frames (frame k iv p).1 ps

  abbrev pub iv_after : Bytes → List Bytes → Bytes
  iv_after iv [] = iv
  iv_after iv (p ∷ ps) = iv_after (frame k iv p).1 ps

  -- One round on a whole frame with anything behind it.
  split_loop-frame :
      (fuel : ℕ) (iv c rest : Bytes) (found : List Bytes) {p next_iv : Bytes}
      → length c < 65536
      → decrypt k iv c ≡ plain p next_iv
      → split_loop k (suc fuel) iv (put_uint16 (length c % 65536) ++ c ++ rest) found
        ≡ split_loop k fuel next_iv rest (found ++ p ∷ [])
  unfolding split_loop
  split_loop-frame fuel iv c rest found small e = ground (
    arith,
    take-append (length c) c rest refl,
    drop-append (length c) c rest refl,
    length-append c rest,
  )

  -- The start of a frame of which bytes are missing.
  abbrev pub IsCut : Bytes → Type 0
  IsCut c = (length c < 2) ⊎ (length c < 2 + uint16 (get_or c 0 0) (get_or c 1 0))

  split_loop-cut :
      (fuel : ℕ) (iv c : Bytes) (found : List Bytes)
      → IsCut c
      → split_loop k (suc fuel) iv c found ≡ messages found iv
  unfolding split_loop
  split_loop-cut fuel iv c found cut = ground (arith, length-drop 2 c)

  module _ (aes : IsBlockCipher k) where
    length-frame : (iv p : Bytes) → IsBlock iv → IsMessage p → length (encrypt k iv p).0 < 65536
    length-frame iv p hi hp = omega (arith, length-encrypt k aes iv p hi hp.0)

    split_loop-frames :
        (ps : List Bytes) (fuel : ℕ) (iv c : Bytes) (found : List Bytes)
        → IsBlock iv
        → All IsMessage ps
        → IsCut c
        → length ps < fuel
        → split_loop k fuel iv (frames iv ps ++ c) found ≡ messages (found ++ ps) (iv_after iv ps)
    unfolding frame
    split_loop-frames [] (suc fuel) iv c found hi h cut enough =
        split_loop-cut fuel iv c found cut ∙ ap (λ t. messages t iv) (sym (append-nil found))
    split_loop-frames ps zero iv c found hi h cut enough = absurd (omega arith)
    split_loop-frames (p ∷ ps) (suc fuel) iv c found hi (hp, h) cut enough =
        let (sent, next) = encrypt k iv p in
        rw (append_assoc) (
          split_loop-frame fuel iv sent (frames next ps ++ c) found (length-frame iv p hi hp)
            (decrypt-encrypt k aes iv p hi hp.0)
          ∙ split_loop-frames ps fuel next c (found ++ p ∷ []) (encrypt-IsBlock k aes iv p hi hp.0)
              h cut (omega arith)
          ∙ ap (λ t. messages t (iv_after next ps)) (append_assoc found (p ∷ []) ps))

    length-frames : (ps : List Bytes) (iv : Bytes) → length ps ≤ length (frames iv ps)
    unfolding frame
    length-frames [] iv = omega arith
    length-frames (p ∷ ps) iv = omega (
      arith,
      length-append (frame k iv p).0 (frames (frame k iv p).1 ps),
      length-frames ps (frame k iv p).1,
    )

    -- Messages of fewer than 65520 bytes that were framed one behind the other with a vector of one
    -- block are split, with the same vector, into exactly these messages, and the vector goes on to
    -- the sender's. The bytes of a frame that the read ends inside of are dropped.
    pub split_messages-frames :
        (ps : List Bytes) (iv c : Bytes)
        → IsBlock iv
        → All IsMessage ps
        → IsCut c
        → split_messages k iv (frames iv ps ++ c) ≡ messages ps (iv_after iv ps)
    unfolding split_messages
    split_messages-frames ps iv c hi h cut =
        split_loop-frames ps _ iv c [] hi h cut
          (omega (arith, length-frames ps iv, length-append (frames iv ps) c))
