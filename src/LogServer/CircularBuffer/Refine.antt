-- ===== src/LogServer/CircularBuffer/Refine.antt =====
-- The ring as the queue of the bytes that it holds.
use mathlib.Core.Path.{ap₂}
use native.Mathlib.Nat.{add-zero}
use eight_sleep_pod2server.Prelude.{
  ℕ, zero, suc, ◌+◌, ◌-◌, ◌%◌, ◌≤◌, ◌<◌, ◌≡◌, refl, ap, ◌∙◌, [], ◌∷◌, ◌++◌, append_assoc,
  append-nil, arith, Bytes, ltb, if◌then◌else◌, length, get_or, set, take, drop, Bool-cases, inl,
  inr, sym, take_all, drop_all, ltb→lt, ltb→le, length-set, length-replicate, get_or-set_self,
  get_or-set_ne, get_or-append_left, get_or-append_right, get_or-drop, get_or-take, take-drop-suc,
  length-append, length-drop, length-take,
}
use eight_sleep_pod2server.LogServer.CircularBuffer.{
  CircularBuffer, buffer_size, empty, write_loop, write, peek_loop, peek, advance, data_len,
}

pub record IsValid (cb : CircularBuffer) : Type 0 where
  pub storage : length cb.buf ≡ buffer_size
  pub read_in : cb.read_pos < buffer_size
  pub write_at : cb.write_pos ≡ (cb.read_pos + cb.data_length) % buffer_size
  pub fits : cb.data_length ≤ buffer_size

-- The bytes in some slots of the ring, from the given one on behind a position.
slots : Bytes → ℕ → ℕ → ℕ → Bytes
slots buf r i zero = []
slots buf r i (suc n) = get_or buf ((r + i) % buffer_size) 0 ∷ slots buf r (i + 1) n

-- The bytes between `readPos` and `writePos`, oldest first.
pub contents : CircularBuffer → Bytes
contents cb = slots cb.buf cb.read_pos 0 cb.data_length

length-slots : (buf : Bytes) (r i n : ℕ) → length (slots buf r i n) ≡ n
unfolding slots
length-slots buf r i zero = refl
length-slots buf r i (suc n) = ap suc (length-slots buf r (i + 1) n)

pub length-contents : (cb : CircularBuffer) → length (contents cb) ≡ cb.data_length
unfolding contents
length-contents cb = length-slots _ _ _ _

pub data_len-contents : (cb : CircularBuffer) → data_len cb ≡ length (contents cb)
unfolding data_len
data_len-contents cb = sym (length-contents cb)

-- A write to the slot just behind a window extends the window by that byte.
slots-set :
    (buf : Bytes) (r i n w x : ℕ)
    → length buf ≡ buffer_size
    → i + n < buffer_size
    → w ≡ (r + i + n) % buffer_size
    → slots (set buf w x) r i (suc n) ≡ slots buf r i n ++ x ∷ []
unfolding slots
slots-set buf r i zero w x hs hn e =
    ap (λ t. t ∷ []) (rw (at_write) (get_or-set_self buf w x 0 (omega arith)))
  where
    at_write : (r + i) % buffer_size ≡ w
    at_write = omega arith
slots-set buf r i (suc n) w x hs hn e =
    ap₂ ◌∷◌ (get_or-set_ne buf w ((r + i) % buffer_size) x 0 (omega arith))
      (slots-set buf r (i + 1) n w x hs (omega arith) (omega arith))

-- The write loop extends the window by the bytes written, and leaves `writePos` behind them.
write_loop_lem :
    (bytes buf : Bytes) (r n w : ℕ)
    → length buf ≡ buffer_size
    → n + length bytes ≤ buffer_size
    → w ≡ (r + n) % buffer_size
    → (length (write_loop buf w bytes).0 ≡ buffer_size)
      × ((write_loop buf w bytes).1 ≡ (r + (n + length bytes)) % buffer_size)
      × (slots (write_loop buf w bytes).0 r 0 (n + length bytes) ≡ slots buf r 0 n ++ bytes)
unfolding write_loop
write_loop_lem [] buf r n w hs hn e = (hs, omega arith, rw (add-zero, append-nil))
write_loop_lem (b ∷ bytes) buf r n w hs hn e = ground (
  arith,
  write_loop_lem bytes (set buf w b) r (suc n) ((w + 1) % buffer_size),
  length-set buf w b,
  slots-set buf r 0 n w b,
  append_assoc (slots buf r 0 n) (b ∷ []) bytes,
)

-- A window from `r + n` is the rest of the window from `r`.
slots_shift :
    (buf : Bytes) (r n i k : ℕ) → slots buf ((r + n) % buffer_size) i k ≡ slots buf r (n + i) k
unfolding slots
slots_shift buf r n i zero = refl
slots_shift buf r n i (suc k) =
    ap₂ ◌∷◌ (ap (λ j. get_or buf j 0) (omega arith))
      (slots_shift buf r n (i + 1) k ∙ ap (λ j. slots buf r j k) (omega arith))

slots-nil : (buf : Bytes) (r k : ℕ) → k ≡ 0 → slots buf r 0 k ≡ []
unfolding slots
slots-nil buf r zero e = refl
slots-nil buf r (suc k) e = absurd (omega arith)

drop-slots :
    (buf : Bytes) (r n i k : ℕ) → n ≤ k → drop n (slots buf r i k) ≡ slots buf r (n + i) (k - n)
unfolding slots
drop-slots buf r zero i k h = ap₂ (slots buf r) (omega arith) (omega arith)
drop-slots buf r (suc n) i zero h = absurd (omega arith)
drop-slots buf r (suc n) i (suc k) h =
    drop-slots buf r n (i + 1) k (omega arith) ∙ ap₂ (slots buf r) (omega arith) (omega arith)

take-slots : (buf : Bytes) (r n i k : ℕ) → n ≤ k → take n (slots buf r i k) ≡ slots buf r i n
unfolding slots
take-slots buf r zero i k h = refl
take-slots buf r (suc n) i zero h = absurd (omega arith)
take-slots buf r (suc n) i (suc k) h =
    ap (λ t. get_or buf ((r + i) % buffer_size) 0 ∷ t) (take-slots buf r n (i + 1) k (omega arith))

pub empty-IsValid : IsValid empty
unfolding empty
empty-IsValid = record {
  storage = length-replicate {A = ℕ} buffer_size 0;
  read_in = omega arith;
  write_at = omega arith;
  fits = omega arith;
}

pub contents-empty : contents empty ≡ []
unfolding contents empty slots
contents-empty = refl

-- On a valid ring, `Write` reports the error exactly when the bytes do not all fit behind what the
-- ring holds, and then the ring holds what it held. Otherwise the ring holds the bytes behind what
-- it held. The ring stays valid either way.
pub write_refines :
    (cb : CircularBuffer) (bytes : Bytes)
    → IsValid cb
    → IsValid (write cb bytes).0
      × ((write cb bytes).1 ≡ ltb buffer_size (length (contents cb) + length bytes))
      × (contents (write cb bytes).0 ≡ (
          if ltb buffer_size (length (contents cb) + length bytes)
          then contents cb
          else contents cb ++ bytes))
unfolding write contents
write_refines cb bytes v = elim (Bool-cases (ltb (buffer_size - cb.data_length) (length bytes))) [
  | inl full ↦ rw full (v, ground (arith, length-contents cb), ground (arith, length-contents cb))
  | inr room ↦
      rw room (ground (arith, length-contents cb, written (omega (arith, ltb→le _ _ room))))
]
  where
    written :
        cb.data_length + length bytes ≤ buffer_size
        → (length (write_loop cb.buf cb.write_pos bytes).0 ≡ buffer_size)
          × ((write_loop cb.buf cb.write_pos bytes).1
              ≡ (cb.read_pos + (cb.data_length + length bytes)) % buffer_size)
          × (slots
                (write_loop cb.buf cb.write_pos bytes).0
                cb.read_pos
                0
                (cb.data_length + length bytes)
              ≡ slots cb.buf cb.read_pos 0 cb.data_length ++ bytes)
    written h =
        write_loop_lem bytes cb.buf cb.read_pos cb.data_length cb.write_pos v.storage h v.write_at

peek_loop-slots : (buf : Bytes) (r i n : ℕ) → peek_loop buf r i n ≡ slots buf r i n
unfolding peek_loop slots
peek_loop-slots buf r i zero = refl
peek_loop-slots buf r i (suc n) =
    ap (λ t. get_or buf ((r + i) % buffer_size) 0 ∷ t) (peek_loop-slots buf r (i + 1) n)

pub peek-contents : (cb : CircularBuffer) (n : ℕ) → peek cb n ≡ take n (contents cb)
unfolding peek contents
peek-contents cb n = elim (Bool-cases (ltb cb.data_length n)) [
  | inl more ↦
      rw (more, peek_loop-slots)
        (sym (take_all n _ (omega (arith, length-contents cb, ltb→lt _ _ more))))
  | inr less ↦
      rw (less, peek_loop-slots)
        (sym (take-slots cb.buf cb.read_pos n 0 cb.data_length (ltb→le _ _ less)))
]

-- The array from the read position on, and then its part before.
abbrev pub rotated : CircularBuffer → Bytes
rotated cb = drop cb.read_pos cb.buf ++ take cb.read_pos cb.buf

get_or-rotated :
    (cb : CircularBuffer) (i : ℕ)
    → IsValid cb
    → i < buffer_size
    → get_or (rotated cb) i 0 ≡ get_or cb.buf ((cb.read_pos + i) % buffer_size) 0
get_or-rotated cb i v h = elim (Bool-cases (ltb i (length (drop cb.read_pos cb.buf)))) [
  | inl near ↦
      get_or-append_left (drop cb.read_pos cb.buf) (take cb.read_pos cb.buf) i 0 (ltb→lt _ _ near)
      ∙ get_or-drop cb.read_pos cb.buf i 0
      ∙ ap (λ j. get_or cb.buf j 0) (front (ltb→lt _ _ near))
  | inr far ↦
      get_or-append_right (drop cb.read_pos cb.buf) (take cb.read_pos cb.buf) i 0 (ltb→le _ _ far)
      ∙ get_or-take cb.read_pos cb.buf (i - length (drop cb.read_pos cb.buf)) 0
          (omega (arith, len, ltb→le i _ far, v.read_in, h))
      ∙ ap (λ j. get_or cb.buf j 0) (back (ltb→le _ _ far))
]
  where
    len : length (drop cb.read_pos cb.buf) ≡ buffer_size - cb.read_pos
    len = omega (arith, length-drop cb.read_pos cb.buf, v.storage)

    front : i < length (drop cb.read_pos cb.buf) → cb.read_pos + i ≡ (cb.read_pos + i) % buffer_size
    front near = omega (arith, len)

    back :
        length (drop cb.read_pos cb.buf) ≤ i
        → i - length (drop cb.read_pos cb.buf) ≡ (cb.read_pos + i) % buffer_size
    back far = omega (arith, len, v.read_in)

length-rotated : (cb : CircularBuffer) → IsValid cb → length (rotated cb) ≡ buffer_size
length-rotated cb v = omega (
  arith,
  length-append (drop cb.read_pos cb.buf) (take cb.read_pos cb.buf),
  length-drop cb.read_pos cb.buf,
  length-take cb.read_pos cb.buf,
  v.storage,
  v.read_in,
)

slots-rotated :
    (cb : CircularBuffer) (i n : ℕ)
    → IsValid cb
    → i + n ≤ buffer_size
    → slots cb.buf cb.read_pos i n ≡ take n (drop i (rotated cb))
unfolding slots
slots-rotated cb i zero v h = refl
slots-rotated cb i (suc n) v h =
    ap₂ ◌∷◌ (sym (get_or-rotated cb i v (omega arith))) (slots-rotated cb (i + 1) n v (omega arith))
    ∙ sym (take-drop-suc n i (rotated cb) 0 (omega (arith, length-rotated cb v)))

-- On a valid ring, `Peek` returns the first `n` of the bytes that it holds, or all of them if it holds
-- fewer. These bytes are the first `dataLength` of the array rotated to start at the read position.
pub peek_refines :
    (cb : CircularBuffer) (n : ℕ)
    → IsValid cb
    → (peek cb n ≡ take n (contents cb))
      × (contents cb ≡ take cb.data_length (drop cb.read_pos cb.buf ++ take cb.read_pos cb.buf))
unfolding contents
peek_refines cb n v =
    (peek-contents cb n, slots-rotated cb 0 cb.data_length v (omega (arith, v.fits)))

-- `Advance` drops the first `n` bytes that a valid ring holds, or all of them if it holds fewer,
-- and the ring stays valid.
pub advance_refines :
    (cb : CircularBuffer) (n : ℕ)
    → IsValid cb
    → IsValid (advance cb n) × (contents (advance cb n) ≡ drop n (contents cb))
unfolding advance contents
advance_refines cb n v = elim (Bool-cases (ltb cb.data_length n)) [
  | inl more ↦ rw more (
    ground arith,
    slots-nil _ _ _ (omega arith)
        ∙ sym (drop_all n _ (omega (arith, length-contents cb, ltb→lt _ _ more))),
  )
  | inr less ↦ rw less (
    ground (arith, ltb→le _ _ less),
    slots_shift cb.buf cb.read_pos n 0 (cb.data_length - n)
        ∙ sym (drop-slots cb.buf cb.read_pos n 0 cb.data_length (ltb→le _ _ less)),
  )
]
