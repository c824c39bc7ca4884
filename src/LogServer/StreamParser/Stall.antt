-- ===== src/LogServer/StreamParser/Stall.antt =====
-- Streams on which the parser stops for good.
use eight_sleep_pod2server.Prelude.{
  ℕ, suc, ◌+◌, ◌/◌, ◌%◌, ◌<◌, ◌≤◌, ◌≡◌, ◌≢◌, refl, ap, ◌∙◌, false, ◌⊎◌, inl, inr, List, [], ◌∷◌,
  ◌++◌, Bytes, length, length-append, append_assoc, arith, some, ltb, Bool-cases, if◌then◌else◌,
}
use eight_sleep_pod2server.Prelude.Bits.{bit_and_major, bit_and_info}
use eight_sleep_pod2server.LogServer.CircularBuffer.{CircularBuffer, buffer_size, write, data_len}
use eight_sleep_pod2server.LogServer.CircularBuffer.Refine.{
  IsValid, contents, length-contents, write_refines, data_len-contents,
}
use eight_sleep_pod2server.LogServer.StreamParser.{
  StreamParser, insert, extract_cbor_byte_strings, receive, stop,
}
use eight_sleep_pod2server.LogServer.StreamParser.Refine.{
  header_of, round_of, ends, extract_loop-Outcome, Extracts-unique,
}
use eight_sleep_pod2server.LogServer.StreamParser.Decode.{length-header, round_of-header}
use eight_sleep_pod2server.LogServer.StreamParser.Wire.{HeaderForm, header, header_len, limit}
use eight_sleep_pod2server.LogServer.StreamParser.Feed.{feed}

-- A first byte that is neither the reset code nor the head of a byte string of definite length.
abbrev pub IsForeign : ℕ → Type 0
IsForeign b = (b < 256) × (b ≢ 0xFF) × ((b / 32 ≢ 2) ⊎ (27 ≤ b % 32))

round_of_foreign : (b : ℕ) (c : Bytes) → IsForeign b → round_of (b ∷ c) ≡ stop
unfolding round_of header_of
round_of_foreign b c (byte, code, foreign) =
    ground (arith, bit_and_major b byte, bit_and_info b byte)

-- Bytes at the head of the buffer behind which nothing that still fits lets the parser go on.
abbrev pub IsDead : Bytes → Type 0
IsDead held = (x : Bytes) → length (held ++ x) ≤ buffer_size → round_of (held ++ x) ≡ stop

-- Reads that leave the buffer with such a head hand out nothing, and keep the head.
record Stuck (sp : StreamParser) (held : Bytes) (chunks : List Bytes) : Type 0 where
  last : StreamParser
  behind : Bytes
  returns : feed sp chunks ≡ some ([], 0, last)
  holds : contents last.cb ≡ held ++ behind

-- One read into a buffer that a round then leaves alone.
record Idle (sp : StreamParser) (held chunk : Bytes) : Type 0 where
  next : StreamParser
  behind : Bytes
  returns : receive sp chunk ≡ some (record { extracted = []; reset_found = false }, next)
  valid : IsValid next.cb
  holds : contents next.cb ≡ held ++ behind

after_write :
    (cb : CircularBuffer) (held x chunk : Bytes)
    → IsValid cb
    → contents cb ≡ held ++ x
    → (y : Bytes) × (contents (write cb chunk).0 ≡ held ++ y) × (length (held ++ y) ≤ buffer_size)
after_write cb held x chunk v e =
    elim (Bool-cases (ltb buffer_size (length (contents cb) + length chunk))) [
      | inl full ↦
          let now : contents (write cb chunk).0 ≡ held ++ x = written ∙ rw full e in
          (x, now, bound x now)
      | inr room ↦
          let now : contents (write cb chunk).0 ≡ held ++ (x ++ chunk) =
            written ∙ rw room (ap (λ t. t ++ chunk) e ∙ append_assoc held x chunk) in
          (x ++ chunk, now, bound (x ++ chunk) now)
    ]
  where
    written : contents (write cb chunk).0 ≡ (
        if ltb buffer_size (length (contents cb) + length chunk)
        then contents cb
        else contents cb ++ chunk)
    written = (write_refines cb chunk v).2

    bound : (y : Bytes) → contents (write cb chunk).0 ≡ held ++ y → length (held ++ y) ≤ buffer_size
    bound y now = omega (
      arith,
      ap length now,
      length-contents (write cb chunk).0,
      (write_refines cb chunk v).0.fits,
    )

receive-Idle :
    (sp : StreamParser) (held x chunk : Bytes)
    → IsDead held
    → IsValid sp.cb
    → contents sp.cb ≡ held ++ x
    → Idle sp held chunk
unfolding receive insert extract_cbor_byte_strings
receive-Idle sp held x chunk dead v e =
    let (y, here, fits) = after_write sp.cb held x chunk v e in
    let cb = (write sp.cb chunk).0 in
    let o =
      extract_loop-Outcome (suc (data_len cb)) cb [] (write_refines sp.cb chunk v).0
        (omega (arith, data_len-contents cb)) in
    let (taken, seen, left) = Extracts-unique o.extracts (ends (ap round_of here ∙ dead y fits)) in
    record {
      next = record { cb = o.left };
      behind = y;
      returns =
          rw (o.returns, extract_cbor_byte_strings)
            (λ i.
              some (record { extracted = taken i; reset_found = seen i }, record { cb = o.left }));
      valid = o.valid;
      holds = left ∙ here;
    }

feed-Stuck :
    (chunks : List Bytes) (sp : StreamParser) (held x : Bytes)
    → IsDead held
    → IsValid sp.cb
    → contents sp.cb ≡ held ++ x
    → Stuck sp held chunks
unfolding feed
feed-Stuck [] sp held x dead v e = record { last = sp; behind = x; returns = refl; holds = e }
feed-Stuck (chunk ∷ chunks) sp held x dead v e =
    let now = receive-Idle sp held x chunk dead v e in
    let later = feed-Stuck chunks now.next held now.behind dead now.valid now.holds in
    record {
      last = later.last;
      behind = later.behind;
      returns = rw (now.returns, feed) (rw (later.returns, feed));
      holds = later.holds;
    }

foreign-IsDead : (b : ℕ) → IsForeign b → IsDead (b ∷ [])
foreign-IsDead b f x fits = round_of_foreign b x f

long-IsDead :
    (f : HeaderForm) (n : ℕ) → n < limit f → buffer_size < header_len f + n → IsDead (header f n)
long-IsDead f n writable long x fits =
    round_of-header f n x writable ∙ ground (arith, length-append (header f n) x, length-header f n)

-- With a byte at the head of a valid ring that is neither the reset code nor the head of a byte
-- string with a length of at most four bytes, no read hands out anything or finds the reset code
-- ever again, whatever the pod sends.
pub feed_foreign :
    (b : ℕ) (c : Bytes) (sp : StreamParser) (chunks : List Bytes)
    → IsForeign b
    → IsValid sp.cb
    → contents sp.cb ≡ b ∷ c
    → (last : StreamParser) × (feed sp chunks ≡ some ([], 0, last))
feed_foreign b c sp chunks f v e =
    let s = feed-Stuck chunks sp (b ∷ []) c (foreign-IsDead b f) v e in (s.last, s.returns)

-- With the header of a byte string at the head of a valid ring that, with its header, is longer
-- than the ring, no read hands out anything or finds the reset code ever again, whatever the pod
-- sends.
pub feed_too_long :
    (f : HeaderForm) (n : ℕ) (c : Bytes) (sp : StreamParser) (chunks : List Bytes)
    → n < limit f
    → buffer_size < header_len f + n
    → IsValid sp.cb
    → contents sp.cb ≡ header f n ++ c
    → (last : StreamParser) × (feed sp chunks ≡ some ([], 0, last))
feed_too_long f n c sp chunks writable long v e =
    let s = feed-Stuck chunks sp (header f n) c (long-IsDead f n writable long) v e in
    (s.last, s.returns)
