-- ===== src/LogServer/CircularBuffer.antt =====
-- LogServer/CircularBuffer.go: the ring of 8192 bytes behind the stream parser.
pub mod Refine
use eight_sleep_pod2server.Prelude.{
  ℕ, zero, suc, ◌+◌, ◌-◌, ◌%◌, Bool, true, false, List, [], ◌∷◌, Bytes, ltb, if◌then◌else◌, length,
  get_or, set, replicate,
}

abbrev pub buffer_size : ℕ
buffer_size = 8192

pub record CircularBuffer : Type 0 where
  pub buf : Bytes
  pub read_pos : ℕ
  pub write_pos : ℕ
  pub data_length : ℕ

-- `CircularBuffer{}`, the zero value.
pub empty : CircularBuffer
empty = record { buf = replicate buffer_size 0; read_pos = 0; write_pos = 0; data_length = 0 }

-- The loop of `Write` over `buf` and `writePos`. A `set` out of range changes nothing: `writePos`
-- is taken modulo the size, so it stays in range.
pub write_loop : Bytes → ℕ → Bytes → Bytes × ℕ
write_loop buf write_pos [] = (buf, write_pos)
write_loop buf write_pos (b ∷ bs) =
    write_loop (set buf write_pos b) ((write_pos + 1) % buffer_size) bs

-- `true` stands for the error "not enough space in buffer".
pub write : CircularBuffer → Bytes → CircularBuffer × Bool
write cb bytes = if ltb (buffer_size - cb.data_length) (length bytes) then (cb, true) else (
  record cb {
    buf = (write_loop cb.buf cb.write_pos bytes).0;
    write_pos = (write_loop cb.buf cb.write_pos bytes).1;
    data_length = cb.data_length + length bytes;
  },
  false,
)

-- The loop of `Peek` from index `i`, with `n` rounds left.
pub peek_loop : Bytes → ℕ → ℕ → ℕ → Bytes
peek_loop buf read_pos i zero = []
peek_loop buf read_pos i (suc n) =
    get_or buf ((read_pos + i) % buffer_size) 0 ∷ peek_loop buf read_pos (i + 1) n

-- `if n > cb.dataLength { n = cb.dataLength }`
abbrev pub clip : CircularBuffer → ℕ → ℕ
clip cb n = if ltb cb.data_length n then cb.data_length else n

pub peek : CircularBuffer → ℕ → Bytes
peek cb n = peek_loop cb.buf cb.read_pos 0 (clip cb n)

pub advance : CircularBuffer → ℕ → CircularBuffer
advance cb n = record cb {
  read_pos = (cb.read_pos + clip cb n) % buffer_size;
  data_length = cb.data_length - clip cb n;
}

pub data_len : CircularBuffer → ℕ
data_len cb = cb.data_length
