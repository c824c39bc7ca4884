-- ===== src/LogServer/StreamParser/Refine.antt =====
-- The parser on the ring as a parser on the bytes that the ring holds.
use mathlib.Core.Path.{subst}
use eight_sleep_pod2server.Prelude.{
  ℕ, zero, suc, ◌+◌, ◌<◌, ◌≤◌, ◌≡◌, refl, ap, sym, ◌∙◌, Bool, true, false, not, Option, none, some,
  List, [], ◌∷◌, ◌++◌, Bytes, ltb, ◌==◌, if◌then◌else◌, get_or, take, drop, length, bit_and, bit_or,
  arith, length-drop, append-nil, append_assoc, ◌⊎◌, Option-cases, inl, inr,
}
use eight_sleep_pod2server.Prelude.Bits.{shl}
use eight_sleep_pod2server.LogServer.CircularBuffer.{
  CircularBuffer, write, data_len, empty, advance,
}
use eight_sleep_pod2server.LogServer.CircularBuffer.Refine.{
  IsValid, contents, data_len-contents, write_refines, peek-contents, advance_refines,
  empty-IsValid, contents-empty,
}
use eight_sleep_pod2server.LogServer.StreamParser.{
  StreamParser, receive, insert, extract_cbor_byte_strings, CborExtractResult,
  parse_cbor_byte_string_header_circular, Round, stop, reset, found, round, extract_loop,
}

abbrev at : Bytes → ℕ → ℕ → ℕ
at c n i = get_or (take n c) i 0

-- `parseCBORByteStringHeaderCircular` on a list.
unfoldable pub header_of : Bytes → Option (ℕ × ℕ)
header_of c =
    if ltb (length c) 1
    then none
    else if not (bit_and (at c 1 0) 0xE0 == 0x40)
    then none
    else if ltb (bit_and (at c 1 0) 0x1F) 24
    then some (bit_and (at c 1 0) 0x1F, 1)
    else if bit_and (at c 1 0) 0x1F == 24
    then if ltb (length c) 2 then none else some (at c 2 1, 2)
    else if bit_and (at c 1 0) 0x1F == 25
    then if ltb (length c) 3 then none else some (bit_or (shl (at c 3 1) 8) (at c 3 2), 3)
    else if bit_and (at c 1 0) 0x1F == 26
    then if ltb (length c) 5
      then none
      else some (
        bit_or (bit_or (bit_or (shl (at c 5 1) 24) (shl (at c 5 2) 16)) (shl (at c 5 3) 8))
            (at c 5 4),
        5,
      )
    else none

header_of-contents :
    (cb : CircularBuffer) → parse_cbor_byte_string_header_circular cb ≡ header_of (contents cb)
unfolding parse_cbor_byte_string_header_circular header_of
header_of-contents cb = simp (peek-contents, data_len-contents)

-- `round` on a list.
unfoldable pub round_of : Bytes → Round Bytes
round_of c =
    if length c == 0 then stop else if at c 1 0 == 0xFF then reset else elim (header_of c) [
      | none ↦ stop
      | some (n, header_len) ↦
          if ltb (length c) (header_len + n)
          then stop
          else found (take n (drop header_len c)) (drop n (drop header_len c))
    ]

-- The round with the ring replaced by what it holds.
abbrev view : Round CircularBuffer → Round Bytes
view stop = stop
view reset = reset
view (found bs cb) = found bs (contents cb)

-- A round leaves a valid ring.
abbrev Keeps : Round CircularBuffer → Type 0
Keeps stop = Unit
Keeps reset = Unit
Keeps (found bs cb) = IsValid cb

contents-advance :
    (cb : CircularBuffer) (n : ℕ) → IsValid cb → contents (advance cb n) ≡ drop n (contents cb)
contents-advance cb n v = (advance_refines cb n v).1

round_refines :
    (cb : CircularBuffer)
    → IsValid cb
    → Keeps (round cb) × (view (round cb) ≡ round_of (contents cb))
unfolding round round_of
round_refines cb v = elim (Option-cases (header_of (contents cb))) [
  | inl e ↦ ground (arith, header_of-contents cb, peek-contents cb 1, data_len-contents cb)
  | inr ((n, h), e) ↦
      let (v₁, c₁) = advance_refines cb h v in
      let (v₂, c₂) = advance_refines (advance cb h) n v₁ in
      ground (
        arith,
        header_of-contents cb,
        peek-contents cb 1,
        data_len-contents cb,
        peek-contents (advance cb h) n,
      )
]

-- A header takes one to five of the bytes at hand.
pub header_of_bounds :
    (c : Bytes) {n h : ℕ} → header_of c ≡ some (n, h) → (1 ≤ h) × (h ≤ length c) × (h ≤ 5)
unfolding header_of
header_of_bounds c e = ground arith

-- A round that goes on leaves fewer bytes.
round_of_shorter :
    (c : Bytes) {bs rest : Bytes} → round_of c ≡ found bs rest → length rest < length c
unfolding round_of
round_of_shorter c {bs} {rest} e = elim (Option-cases (header_of c)) [
  | inl none_e ↦ absurd (ground arith)
  | inr ((n, h), some_e) ↦
      let (pos, fit, small) = header_of_bounds c some_e in
      ground (arith, length-drop n (drop h c), length-drop h c)
]

-- What the whole loop does to the bytes held: the byte strings taken, whether a reset code ended it,
-- and the bytes left over.
pub data Extracts : Bytes → List Bytes → Bool → Bytes → Type 0 where
  ends : {c : Bytes} → round_of c ≡ stop → Extracts c [] false c
  resets : {c : Bytes} → round_of c ≡ reset → Extracts c [] true []
  takes :
      {c bs rest c' : Bytes} {bss : List Bytes} {b : Bool}
      → round_of c ≡ found bs rest
      → Extracts rest bss b c'
      → Extracts c (bs ∷ bss) b c'

Round-cases :
    {B : Type 0} (r : Round B)
    → (r ≡ stop) ⊎ ((r ≡ reset) ⊎ ((bs : Bytes) × (b : B) × (r ≡ found bs b)))
Round-cases stop = inl refl
Round-cases reset = inr (inl refl)
Round-cases (found bs b) = inr (inr (bs, b, refl))

-- The outcome of the loop from `cb` with `results` taken before.
pub record Outcome (cb : CircularBuffer) (results : List Bytes)
    (out : Option (CborExtractResult × CircularBuffer)) : Type 0 where
  pub taken : List Bytes
  pub reset_seen : Bool
  pub left : CircularBuffer
  pub returns : out ≡ some (record { extracted = results ++ taken; reset_found = reset_seen }, left)
  pub valid : IsValid left
  pub extracts : Extracts (contents cb) taken reset_seen (contents left)

-- With a round more than bytes the loop ends, on a valid ring, with what `Extracts` says.
pub extract_loop-Outcome :
    (fuel : ℕ) (cb : CircularBuffer) (results : List Bytes)
    → IsValid cb
    → length (contents cb) < fuel
    → Outcome cb results (extract_loop fuel cb results)
unfolding extract_loop
extract_loop-Outcome zero cb results v h = absurd (omega arith)
extract_loop-Outcome (suc fuel) cb results v h = elim (Round-cases (round cb)) [
  | inl e ↦
      rw (e, extract_loop)
        (record {
          taken = [];
          reset_seen = false;
          left = cb;
          returns = rw append-nil;
          valid = v;
          extracts = ends (sym (round_refines cb v).1 ∙ ap view e);
        })
  | inr (inl e) ↦
      rw (e, extract_loop)
        (record {
          taken = [];
          reset_seen = true;
          left = empty;
          returns = rw append-nil;
          valid = empty-IsValid;
          extracts = rw contents-empty (resets (sym (round_refines cb v).1 ∙ ap view e));
        })
  | inr (inr (bs, cb', e)) ↦
      let step : round_of (contents cb) ≡ found bs (contents cb') =
        sym (round_refines cb v).1 ∙ ap view e in
      let valid' : IsValid cb' = rw e at (round_refines cb v).0 in
      let o =
        extract_loop-Outcome fuel cb' (results ++ bs ∷ []) valid'
          (omega (arith, round_of_shorter (contents cb) step)) in
      rw (e, extract_loop)
        (record {
          taken = bs ∷ o.taken;
          reset_seen = o.reset_seen;
          left = o.left;
          returns = o.returns ∙ rw append_assoc;
          valid = o.valid;
          extracts = takes step o.extracts;
        })
]

-- The loop has one outcome.
pub Extracts-unique :
    {c l₁ l₂ : Bytes} {t₁ t₂ : List Bytes} {b₁ b₂ : Bool}
    → Extracts c t₁ b₁ l₁
    → Extracts c t₂ b₂ l₂
    → (t₁ ≡ t₂) × (b₁ ≡ b₂) × (l₁ ≡ l₂)
Extracts-unique (ends e) (ends f) = (refl, refl, refl)
Extracts-unique (ends e) (resets f) = cc
Extracts-unique (ends e) (takes f y) = cc
Extracts-unique (resets e) (ends f) = cc
Extracts-unique (resets e) (resets f) = (refl, refl, refl)
Extracts-unique (resets e) (takes f y) = cc
Extracts-unique (takes e x) (ends f) = cc
Extracts-unique (takes e x) (resets f) = cc
Extracts-unique (takes {bs = bs₁} {rest = r₁} e x)
      (takes {bs = bs₂} {rest = r₂} {c' = l} {bss = bss} {b = b} f y) =
    let same_rest : r₂ ≡ r₁ = cc in
    let same_bytes : bs₁ ≡ bs₂ = cc in
    let (same, once, left) = Extracts-unique x (subst (λ c. Extracts c bss b l) same_rest y) in
    (cc, once, left)

-- With a valid ring, a read always has a result: the parser's loop ends, and its ring stays valid.
pub receive-total :
    (sp : StreamParser) (bytes : Bytes)
    → IsValid sp.cb
    → (result : CborExtractResult) × (next : StreamParser) × (receive sp bytes
        ≡ some (result, next))
      × IsValid next.cb
unfolding receive insert extract_cbor_byte_strings
receive-total sp bytes v =
    let cb = (write sp.cb bytes).0 in
    let o =
      extract_loop-Outcome (suc (data_len cb)) cb [] (write_refines sp.cb bytes v).0
        (omega (arith, data_len-contents cb)) in
    (
      record { extracted = o.taken; reset_found = o.reset_seen },
      record { cb = o.left },
      rw (o.returns, extract_cbor_byte_strings),
      o.valid,
    )
