-- ===== src/LogServer/StreamParser/Stream.antt =====
-- The stream as the pod sends it, cut anywhere into reads.
use mathlib.Core.Path.{subst}
use eight_sleep_pod2server.LogServer.CircularBuffer.{buffer_size, write, data_len}
use eight_sleep_pod2server.LogServer.CircularBuffer.Refine.{
  IsValid, contents, write_refines, data_len-contents,
}
use eight_sleep_pod2server.Prelude.{
  ℕ, suc, ◌+◌, ◌<◌, ◌≤◌, ◌≡◌, refl, ap, ◌∙◌, Bool, true, false, inl, inr, List, [], ◌∷◌, ◌++◌,
  Bytes, length, drop, All, arith, append_assoc, ltb, Bool-cases, ltb→lt, le→ltb, some, ltb→le,
  append-eq-append_short, append-eq-append_long,
}
use eight_sleep_pod2server.LogServer.StreamParser.Refine.{
  extract_loop-Outcome, Extracts-unique, round_of, Extracts, ends, resets, takes,
}
use eight_sleep_pod2server.LogServer.StreamParser.Decode.{round_of-encode, round_of_cut}
use eight_sleep_pod2server.LogServer.StreamParser.Wire.{
  ByteString, encode, encode_all, bodies, IsWritable, reset_code,
}
use eight_sleep_pod2server.LogServer.StreamParser.{
  StreamParser, insert, extract_cbor_byte_strings, receive,
}

-- What may end a stream: the reset code, or nothing yet.
abbrev pub tail : Bool → Bytes
tail true = reset_code ∷ []
tail false = []

abbrev pub count : Bool → ℕ
count true = 1
count false = 0

-- The number of bytes with which the next item of the stream would be complete.
abbrev pub next_len : List ByteString → ℕ
next_len [] = 1
next_len (r ∷ rs) = length (encode r)

-- How a buffer that holds `c`, with the bytes `q` still to come, takes the byte strings `rs` apart.
pub record Split (c q : Bytes) (rs : List ByteString) (ending : Bool) : Type 0 where
  pub taken : List ByteString
  pub rest : List ByteString
  pub seen : Bool
  pub more : Bool
  pub left : Bytes
  pub extracts : Extracts c (bodies taken) seen left
  pub whole : taken ++ rest ≡ rs
  pub once : count seen + count more ≡ count ending
  pub remains : left ++ q ≡ encode_all rest ++ tail more
  pub short : length left < next_len rest
  pub closed : seen ≡ true → (rest ≡ []) × (q ≡ []) × (left ≡ [])

Split-tail : (c q : Bytes) (ending : Bool) → c ++ q ≡ tail ending → Split c q [] ending
unfolding round_of
Split-tail [] q ending e = record {
  taken = [];
  rest = [];
  seen = false;
  more = ending;
  left = [];
  extracts = ends refl;
  whole = refl;
  once = omega arith;
  remains = e;
  short = omega arith;
  closed = λ h. absurd (cc);
}
Split-tail (x ∷ c) q false e = absurd (cc)
Split-tail (x ∷ y ∷ c) q true e = absurd (cc)
Split-tail (x ∷ []) q true e =
    let code : x ≡ reset_code = ground arith in
    let last : q ≡ [] = ground arith in
    record {
      taken = [];
      rest = [];
      seen = true;
      more = false;
      left = [];
      extracts = resets (rw code refl);
      whole = refl;
      once = omega arith;
      remains = last;
      short = omega arith;
      closed = λ h. (refl, last, refl);
    }

-- The byte strings that lie whole in the buffer are taken, in order and unchanged.
pub split :
    (rs : List ByteString) (c q : Bytes) (ending : Bool)
    → All IsWritable rs
    → c ++ q ≡ encode_all rs ++ tail ending
    → Split c q rs ending
split [] c q ending w e = Split-tail c q ending e
split (r ∷ rs) c q ending (wr, w) e = elim (Bool-cases (ltb (length c) (length (encode r)))) [
  | inl cut ↦ record {
    taken = [];
    rest = r ∷ rs;
    seen = false;
    more = ending;
    left = c;
    extracts = ends (
        rw (append-eq-append_short c q (encode r) _ regroup (omega (arith, ltb→lt _ _ cut)))
          (round_of_cut r (length c) wr (ltb→lt _ _ cut)));
    whole = refl;
    once = omega arith;
    remains = e;
    short = ltb→lt _ _ cut;
    closed = λ h. absurd (cc);
  }
  | inr full ↦
      let (here, behind) = append-eq-append_long c q (encode r) _ regroup (ltb→le _ _ full) in
      let s = split rs (drop (length (encode r)) c) q ending w behind in
      record {
        taken = r ∷ s.taken;
        rest = s.rest;
        seen = s.seen;
        more = s.more;
        left = s.left;
        extracts = takes (ap round_of here ∙ round_of-encode r _ wr) s.extracts;
        whole = ap (λ t. r ∷ t) s.whole;
        once = s.once;
        remains = s.remains;
        short = s.short;
        closed = s.closed;
      }
]
  where
    regroup : c ++ q ≡ encode r ++ (encode_all rs ++ tail ending)
    regroup = e ∙ append_assoc (encode r) (encode_all rs) (tail ending)

-- What one read does: `out` is what `receive` returned for it.
pub record Received (sp : StreamParser) (chunk q : Bytes) (rs : List ByteString) (ending : Bool)
    : Type 0 where
  pub split_at : Split (contents sp.cb ++ chunk) q rs ending
  pub next : StreamParser
  pub returns :
      receive sp chunk
      ≡ some (record { extracted = bodies split_at.taken; reset_found = split_at.seen }, next)
  pub valid : IsValid next.cb
  pub holds : contents next.cb ≡ split_at.left

pub receive-Received :
    (sp : StreamParser) (chunk q : Bytes) (rs : List ByteString) (ending : Bool)
    → IsValid sp.cb
    → All IsWritable rs
    → length (contents sp.cb) + length chunk ≤ buffer_size
    → contents sp.cb ++ (chunk ++ q) ≡ encode_all rs ++ tail ending
    → Received sp chunk q rs ending
unfolding receive insert extract_cbor_byte_strings
receive-Received sp chunk q rs ending v w room e =
    let (v', _, held) = write_refines sp.cb chunk v in
    let cb = (write sp.cb chunk).0 in
    let here : contents cb ≡ contents sp.cb ++ chunk =
      held ∙ rw (le→ltb buffer_size (length (contents sp.cb) + length chunk) room) in
    let s = split rs (contents sp.cb ++ chunk) q ending w (append_assoc _ chunk q ∙ e) in
    let o =
      extract_loop-Outcome (suc (data_len cb)) cb [] v' (omega (arith, data_len-contents cb)) in
    let (taken, seen, left) =
      Extracts-unique
        (subst (λ c. Extracts c o.taken o.reset_seen (contents o.left)) here o.extracts)
        s.extracts in
    record {
      split_at = s;
      next = record { cb = o.left };
      returns =
          rw (o.returns, extract_cbor_byte_strings)
            (λ i.
              some (record { extracted = taken i; reset_found = seen i }, record { cb = o.left }));
      valid = o.valid;
      holds = left;
    }
