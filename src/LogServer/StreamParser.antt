-- ===== src/LogServer/StreamParser.antt =====
-- LogServer/StreamParser.go: CBOR byte strings cut out of the buffered stream.
pub mod Wire
pub mod Refine
pub mod Decode
pub mod Stream
pub mod Feed
pub mod Stall
use eight_sleep_pod2server.Prelude.{
  ℕ, zero, suc, ◌+◌, Bool, true, false, Option, none, some, List, [], ◌∷◌, ◌++◌, Bytes, ltb, ◌==◌,
  if◌then◌else◌, get_or, bit_and, bit_or, not,
}
use eight_sleep_pod2server.Prelude.Bits.{shl}
use eight_sleep_pod2server.LogServer.CircularBuffer.{
  CircularBuffer, empty, write, peek, advance, data_len,
}

pub record StreamParser : Type 0 where
  pub cb : CircularBuffer

-- The write error is ignored, as the source does.
pub insert : StreamParser → Bytes → StreamParser
insert sp bytes = record { cb = (write sp.cb bytes).0 }

-- `Data` and `ResetFound` of `CBORExtractResult`.
pub record CborExtractResult : Type 0 where
  pub extracted : List Bytes
  pub reset_found : Bool

-- `peek[i]` of a slice that holds at least `i + 1` bytes.
abbrev pub byte_at : CircularBuffer → ℕ → ℕ → ℕ
byte_at cb n i = get_or (peek cb n) i 0

-- The byte string header at the head of the buffer as `(length, headerLen)`, `none` for `ok = false`.
-- Every shift fits the 64 bits of Go's `int`.
pub parse_cbor_byte_string_header_circular : CircularBuffer → Option (ℕ × ℕ)
parse_cbor_byte_string_header_circular cb =
    if ltb (data_len cb) 1
    then none
    else let first = byte_at cb 1 0 in
      if not (bit_and first 0xE0 == 0x40)
      then none
      else let ai = bit_and first 0x1F in
        if ltb ai 24
        then some (ai, 1)
        else if ai == 24
        then if ltb (data_len cb) 2 then none else some (byte_at cb 2 1, 2)
        else if ai == 25
        then if ltb (data_len cb) 3
          then none
          else some (bit_or (shl (byte_at cb 3 1) 8) (byte_at cb 3 2), 3)
        else if ai == 26
        then if ltb (data_len cb) 5
          then none
          else some (
            bit_or
                (bit_or (bit_or (shl (byte_at cb 5 1) 24) (shl (byte_at cb 5 2) 16))
                  (shl (byte_at cb 5 3) 8))
                (byte_at cb 5 4),
            5,
          )
        else none

-- What one round of the loop in `ExtractCBORByteStrings` does: it breaks with nothing changed, breaks
-- after clearing the buffer, or appends a byte string and goes on with the advanced buffer.
pub data Round (B : Type 0) : Type 0 where
  stop : Round B
  reset : Round B
  found : Bytes → B → Round B

pub round : CircularBuffer → Round CircularBuffer
round cb =
    if data_len cb == 0
    then stop
    else if byte_at cb 1 0 == 0xFF
    then reset
    else elim (parse_cbor_byte_string_header_circular cb) [
      | none ↦ stop
      | some (length, header_len) ↦
          if ltb (data_len cb) (header_len + length)
          then stop
          else let body = advance cb header_len in found (peek body length) (advance body length)
    ]

-- The loop with fuel for its rounds; `none` means that the fuel ran out.
pub extract_loop : ℕ → CircularBuffer → List Bytes → Option (CborExtractResult × CircularBuffer)
extract_loop zero cb results = none
extract_loop (suc fuel) cb results = elim (round cb) [
  | stop ↦ some (record { extracted = results; reset_found = false }, cb)
  | reset ↦ some (record { extracted = results; reset_found = true }, empty)
  | found bs cb' ↦ extract_loop fuel cb' (results ++ bs ∷ [])
]

-- A round that goes on takes a header byte at least, so one round more than bytes is enough.
pub extract_cbor_byte_strings : StreamParser → Option (CborExtractResult × StreamParser)
extract_cbor_byte_strings sp = elim (extract_loop (suc (data_len sp.cb)) sp.cb []) [
  | none ↦ none
  | some (result, cb) ↦ some (result, record { cb = cb })
]

-- What the connection loop does with a read in the receiving state.
unfoldable pub receive : StreamParser → Bytes → Option (CborExtractResult × StreamParser)
receive sp bytes = extract_cbor_byte_strings (insert sp bytes)

abbrev pub new_parser : StreamParser
new_parser = record { cb = empty }
