-- ===== src/LogServer/StreamParser/Decode.antt =====
-- Rounds of the parser on the wire format: a whole byte string is taken, a cut one is waited for.
use eight_sleep_pod2server.Prelude.{
  ℕ, zero, suc, ◌+◌, ◌-◌, ◌*◌, ◌/◌, ◌%◌, ◌^◌, ◌<◌, ◌≡◌, refl, ◌∙◌, some, ◌++◌, Bytes, ltb, length,
  take, drop, arith, bit_or, length-append, if◌then◌else◌, Bool-cases, inl, inr, ltb→lt, ltb→le,
  length-take, take-append_short, take-append_long, take-append, drop-append, append_assoc,
}
use eight_sleep_pod2server.Prelude.Bits.{bit_and_major, bit_and_info, bit_or-shl, shl}
use eight_sleep_pod2server.LogServer.StreamParser.{stop, found}
use eight_sleep_pod2server.LogServer.StreamParser.Refine.{header_of, round_of}
use eight_sleep_pod2server.LogServer.StreamParser.Wire.{
  HeaderForm, short, one, two, four, ByteString, header_len, limit, header, encode, IsWritable,
}

-- The two bytes of a length in big-endian order spell it.
two_bytes : (n : ℕ) → n < 2 ^ 16 → bit_or (shl (n / 2 ^ 8) 8) (n % 2 ^ 8) ≡ n
two_bytes n h = omega (arith, bit_or-shl 8 (n / 2 ^ 8) (n % 2 ^ 8) (omega arith))

-- `|` of four shifted bytes is their sum.
join_bytes :
    (q r s t : ℕ)
    → r < 256
    → s < 256
    → t < 256
    → bit_or (bit_or (bit_or (shl q 24) (shl r 16)) (shl s 8)) t ≡ shl q 24 + shl r 16 + shl s 8 + t
join_bytes q r s t hr hs ht = ground (
  arith,
  bit_or-shl 24 q (shl r 16) (omega arith),
  bit_or-shl 16 (q * 256 + r) (shl s 8) (omega arith),
  bit_or-shl 8 (q * 65536 + r * 256 + s) t (omega arith),
)

-- The four bytes of a length spell it.
four_bytes :
    (n : ℕ)
    → n < 2 ^ 32
    → bit_or
        (bit_or
          (bit_or (shl (n / 2 ^ 24) 24) (shl (n / 2 ^ 16 % 2 ^ 8) 16))
          (shl (n / 2 ^ 8 % 2 ^ 8) 8))
        (n % 2 ^ 8)
      ≡ n
four_bytes n h =
    join_bytes (n / 2 ^ 24) (n / 2 ^ 16 % 2 ^ 8) (n / 2 ^ 8 % 2 ^ 8) (n % 2 ^ 8) (omega arith)
      (omega arith) (omega arith)
    ∙ omega arith

-- The parser reads back every length that a form can write.
header_of-header :
    (f : HeaderForm) (n : ℕ) (rest : Bytes)
    → n < limit f
    → header_of (header f n ++ rest) ≡ some (n, header_len f)
unfolding header_of
header_of-header short n rest h = ground (arith, bit_and_major (0x40 + n), bit_and_info (0x40 + n))
header_of-header one n rest h = ground arith
header_of-header two n rest h = ground (arith, two_bytes n)
header_of-header four n rest h = ground (arith, four_bytes n)

pub length-header : (f : HeaderForm) (n : ℕ) → length (header f n) ≡ header_len f
length-header short n = refl
length-header one n = refl
length-header two n = refl
length-header four n = refl

-- A round behind a whole header waits for the body or takes it.
pub round_of-header :
    (f : HeaderForm) (n : ℕ) (rest : Bytes)
    → n < limit f
    → round_of (header f n ++ rest)
      ≡ (if ltb (length rest) n then stop else found (take n rest) (drop n rest))
unfolding round_of
round_of-header short n rest h = ground (arith, header_of-header short n rest h)
round_of-header one n rest h = ground (arith, header_of-header one n rest h)
round_of-header two n rest h = ground (arith, header_of-header two n rest h)
round_of-header four n rest h = ground (arith, header_of-header four n rest h)

-- A whole byte string at the head is taken, and the bytes behind it are left.
pub round_of-encode :
    (r : ByteString) (rest : Bytes) → IsWritable r → round_of (encode r ++ rest) ≡ found r.body rest
round_of-encode r rest h = rw append_assoc (
    round_of-header r.form (length r.body) (r.body ++ rest) h
    ∙ ground (
      arith,
      length-append r.body rest,
      take-append (length r.body) r.body rest refl,
      drop-append (length r.body) r.body rest refl,
    ))

-- A header cut short is waited for.
round_of_cut_header :
    (f : HeaderForm) (n k : ℕ)
    → n < limit f
    → k < header_len f
    → round_of (take k (header f n)) ≡ stop
unfolding round_of header_of
round_of_cut_header short n zero h e = refl
round_of_cut_header one n zero h e = refl
round_of_cut_header two n zero h e = refl
round_of_cut_header four n zero h e = refl
round_of_cut_header short n (suc k) h e = absurd (omega arith)
round_of_cut_header one n (suc zero) h e = refl
round_of_cut_header two n (suc zero) h e = refl
round_of_cut_header four n (suc zero) h e = refl
round_of_cut_header one n (suc (suc k)) h e = absurd (omega arith)
round_of_cut_header two n (suc (suc zero)) h e = refl
round_of_cut_header two n (suc (suc (suc k))) h e = absurd (omega arith)
round_of_cut_header four n (suc (suc zero)) h e = refl
round_of_cut_header four n (suc (suc (suc zero))) h e = refl
round_of_cut_header four n (suc (suc (suc (suc zero)))) h e = refl
round_of_cut_header four n (suc (suc (suc (suc (suc k))))) h e = absurd (omega arith)

-- A byte string of which only the first `k` bytes have come is waited for.
pub round_of_cut :
    (r : ByteString) (k : ℕ)
    → IsWritable r
    → k < length (encode r)
    → round_of (take k (encode r)) ≡ stop
round_of_cut r k h e = elim (Bool-cases (ltb k (header_len form))) [
  | inl inside ↦
      rw (take-append_short k (header form n) body (omega (arith, head_len, ltb→lt _ _ inside)))
        (round_of_cut_header form n k h (ltb→lt _ _ inside))
  | inr past ↦
      rw (take-append_long k (header form n) body (omega (arith, head_len, ltb→le _ _ past))) (
        round_of-header form n (take (k - length (header form n)) body) h
        ∙ ground (
          arith,
          length-take (k - length (header form n)) body,
          length-append (header form n) body,
          head_len,
          ltb→le _ _ past,
        ))
]
  where
    open r use {form, body}

    n : ℕ
    n = length body

    head_len : length (header form n) ≡ header_len form
    head_len = length-header form n
