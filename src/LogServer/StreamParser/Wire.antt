-- ===== src/LogServer/StreamParser/Wire.antt =====
-- The wire format of the log stream, independent of the parser: CBOR byte strings of definite length
-- with any of the four header forms that a length may be written in.
use eight_sleep_pod2server.Prelude.{
  ℕ, ◌+◌, ◌/◌, ◌%◌, ◌^◌, ◌<◌, List, [], ◌∷◌, ◌++◌, Bytes, length, concat, map,
}

-- The form of a header: the length inside the first byte, or in one, two or four bytes behind it.
pub data HeaderForm : Type 0 where
  short one two four : HeaderForm

pub record ByteString : Type 0 where
  pub form : HeaderForm
  pub body : Bytes

abbrev pub header_len : HeaderForm → ℕ
header_len short = 1
header_len one = 2
header_len two = 3
header_len four = 5

-- The first length that a form cannot write.
abbrev pub limit : HeaderForm → ℕ
limit short = 24
limit one = 2 ^ 8
limit two = 2 ^ 16
limit four = 2 ^ 32

abbrev pub header : HeaderForm → ℕ → Bytes
header short n = (0x40 + n) ∷ []
header one n = 0x58 ∷ n ∷ []
header two n = 0x59 ∷ n / 2 ^ 8 ∷ n % 2 ^ 8 ∷ []
header four n = 0x5A ∷ n / 2 ^ 24 ∷ n / 2 ^ 16 % 2 ^ 8 ∷ n / 2 ^ 8 % 2 ^ 8 ∷ n % 2 ^ 8 ∷ []

abbrev pub encode : ByteString → Bytes
encode r = header r.form (length r.body) ++ r.body

abbrev pub encode_all : List ByteString → Bytes
encode_all rs = concat (map encode rs)

abbrev pub bodies : List ByteString → List Bytes
bodies rs = map (λ (r : ByteString). r.body) rs

-- The length fits the form.
abbrev pub IsWritable : ByteString → Type 0
IsWritable r = length r.body < limit r.form

abbrev pub reset_code : ℕ
reset_code = 0xFF
