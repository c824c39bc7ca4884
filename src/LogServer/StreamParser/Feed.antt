-- ===== src/LogServer/StreamParser/Feed.antt =====
-- Any way of cutting a stream into reads gives the same byte strings.
use mathlib.Core.Path.{subst}
use mathlib.Core.List.{map-append}
use eight_sleep_pod2server.Prelude.{
  ℕ, ◌+◌, ◌<◌, ◌≤◌, ◌≡◌, ◌≢◌, refl, ap, sym, ◌∙◌, Bool, true, false, List, [], ◌∷◌, ◌++◌, Bytes,
  length, concat, All, arith, length-append, append_assoc, append-nil, some, none, Option,
}
use eight_sleep_pod2server.LogServer.CircularBuffer.Refine.{
  IsValid, contents, empty-IsValid, contents-empty,
}
use eight_sleep_pod2server.LogServer.StreamParser.{StreamParser, new_parser, receive}
use eight_sleep_pod2server.LogServer.StreamParser.Stream.{receive-Received, next_len, tail, count}
use eight_sleep_pod2server.LogServer.StreamParser.Decode.{length-header}
use eight_sleep_pod2server.LogServer.StreamParser.Wire.{
  HeaderForm, short, one, two, four, header, header_len, ByteString, encode, encode_all, bodies,
  IsWritable, reset_code,
}

-- The reads of one stream in order: the byte strings taken and the number of resets.
unfoldable pub feed : StreamParser → List Bytes → Option (List Bytes × ℕ × StreamParser)
feed sp [] = some ([], 0, sp)
feed sp (chunk ∷ chunks) = elim (receive sp chunk) [
  | none ↦ none
  | some (result, sp') ↦ elim (feed sp' chunks) [
    | none ↦ none
    | some (later, closed, last) ↦
        some (result.extracted ++ later, count result.reset_found + closed, last)
  ]
]

-- A read of `c.Read(buf)` with the connection's buffer of 4096 bytes.
abbrev pub IsRead : Bytes → Type 0
IsRead chunk = length chunk ≤ 4096

-- A byte string that fits the ring behind a full read.
abbrev pub Fits : ByteString → Type 0
Fits r = IsWritable r × (length (encode r) ≤ 4097)

pub Fits-IsWritable : (rs : List ByteString) → All Fits rs → All IsWritable rs
Fits-IsWritable [] f = tt
Fits-IsWritable (r ∷ rs) (f, fs) = (f.0, Fits-IsWritable rs fs)

pub next_len-le : (rs : List ByteString) → All Fits rs → next_len rs ≤ 4097
next_len-le [] f = omega arith
next_len-le (r ∷ rs) (f, fs) = f.1

header_pos : (f : HeaderForm) → 1 ≤ header_len f
header_pos short = omega arith
header_pos one = omega arith
header_pos two = omega arith
header_pos four = omega arith

pub next_len-pos : (rs : List ByteString) → 0 < next_len rs
next_len-pos [] = omega arith
next_len-pos (r ∷ rs) = omega (
  arith,
  length-append (header r.form (length r.body)) r.body,
  length-header r.form (length r.body),
  header_pos r.form,
)

-- What is left behind a prefix fits too.
pub All-rest {ℓ κ} :
    {A : Type ℓ} (P : A → Type κ) (xs ys zs : List A) → xs ++ ys ≡ zs → All P zs → All P ys
All-rest P [] ys zs e h = subst (All P) (sym e) h
All-rest P (x ∷ xs) ys [] e h = absurd (cc)
All-rest P (x ∷ xs) ys (z ∷ zs) e h = All-rest P xs ys zs (cc) h.1

-- A buffer that lacks a part of the next item does not hold the whole stream.
pub unfinished :
    (held : Bytes) (rs : List ByteString)
    → length held < next_len rs
    → held ≢ encode_all rs ++ tail true
unfinished held [] near e = omega (arith, ap length e)
unfinished held (r ∷ rs) near e = omega (
  arith,
  ap length e,
  ap length (append_assoc (encode r) (encode_all rs) (tail true)),
  length-append (encode r) (encode_all rs ++ tail true),
)

-- The reads of a stream from a buffer that holds the start of its next item.
pub record Fed (sp : StreamParser) (chunks : List Bytes) (rs : List ByteString) (ending : Bool)
    : Type 0 where
  pub last : StreamParser
  pub returns : feed sp chunks ≡ some (bodies rs, count ending, last)
  pub valid : IsValid last.cb
  pub drained : contents last.cb ≡ []

feed-Fed :
    (chunks : List Bytes) (sp : StreamParser) (rs : List ByteString) (ending : Bool)
    → IsValid sp.cb
    → All Fits rs
    → All IsRead chunks
    → length (contents sp.cb) < next_len rs
    → contents sp.cb ++ concat chunks ≡ encode_all rs ++ tail ending
    → Fed sp chunks rs ending
unfolding feed
feed-Fed [] sp rs ending v f reads near e = ended rs ending near (sym (append-nil _) ∙ e)
  where
    ended :
        (ts : List ByteString) (b : Bool)
        → length (contents sp.cb) < next_len ts
        → contents sp.cb ≡ encode_all ts ++ tail b
        → Fed sp [] ts b
    ended [] false s held = record { last = sp; returns = refl; valid = v; drained = held }
    ended [] true s held = absurd (unfinished _ [] s held)
    ended (r ∷ ts) b s held = absurd (
        omega (
          arith,
          ap length held,
          length-append (encode r) (encode_all ts ++ tail b),
          ap length (append_assoc (encode r) (encode_all ts) (tail b)),
        ))
feed-Fed (chunk ∷ chunks) sp rs ending v f (read, reads) near e =
    let now =
      receive-Received sp chunk (concat chunks) rs ending v (Fits-IsWritable rs f)
        (omega (arith, next_len-le rs f)) e in
    let s = now.split_at in
    let joined : bodies s.taken ++ bodies s.rest ≡ bodies rs =
      sym (map-append _ s.taken s.rest) ∙ ap bodies s.whole in
    let fed =
      feed-Fed chunks now.next s.rest s.more now.valid (All-rest Fits s.taken s.rest rs s.whole f)
        reads (rw now.holds s.short) (rw now.holds s.remains) in
    record {
      last = fed.last;
      returns =
          rw (now.returns, feed)
            (rw (fed.returns, feed) (λ i. some (joined i, s.once i, fed.last)));
      valid = fed.valid;
      drained = fed.drained;
    }

-- A batch stream, cut into reads anywhere: byte strings in any definite-length form, each at most 4097
-- bytes encoded, then the reset code. Reads of at most 4096 bytes that spell this stream make the
-- parser hand out exactly the bodies, in order, find the reset once, and end with an empty buffer.
pub feed_stream :
    (rs : List ByteString) (chunks : List Bytes)
    → All Fits rs
    → All IsRead chunks
    → concat chunks ≡ encode_all rs ++ reset_code ∷ []
    → (last : StreamParser) × (feed new_parser chunks ≡ some (bodies rs, 1, last))
      × (contents last.cb ≡ [])
feed_stream rs chunks f reads e =
    let fed =
      feed-Fed chunks new_parser rs true empty-IsValid f reads (rw contents-empty (next_len-pos rs))
        (rw contents-empty e) in
    (fed.last, fed.returns, fed.drained)
