-- ===== src/LogServer/Server/Streamed.antt =====
-- The reads of one stream through the connection's state machine.
use mathlib.Core.Path.{subst, ap₂}
use mathlib.Core.List.{map-append}
use eight_sleep_pod2server.Prelude.{
  ℕ, ◌+◌, ◌<◌, ◌^◌, ◌≡◌, refl, ap, sym, ◌∙◌, Bool, true, false, inl, inr, List, [], ◌∷◌, ◌++◌,
  Bytes, length, concat, map, All, arith, length-append, append_assoc, append-nil, some,
  if◌then◌else◌, Bool-cases,
}
use eight_sleep_pod2server.Prelude.Text.{codes, put_uint32}
use eight_sleep_pod2server.LogServer.CircularBuffer.Refine.{IsValid, contents}
use eight_sleep_pod2server.LogServer.StreamParser.{StreamParser, receive}
use eight_sleep_pod2server.LogServer.StreamParser.Stream.{
  Received, receive-Received, next_len, tail, count,
}
use eight_sleep_pod2server.LogServer.StreamParser.Feed.{
  Fits, IsRead, unfinished, Fits-IsWritable, next_len-le, All-rest,
}
use eight_sleep_pod2server.LogServer.StreamParser.Wire.{ByteString, encode_all, bodies}
use eight_sleep_pod2server.LogServer.Models.{waiting_for_stream_start, receiving_stream}
use eight_sleep_pod2server.LogServer.Server.{
  Cbor, Answers, Effect, create_file, write_file, flush_file, close_file, send, log_finished,
  Connection, Next, goes_on, get_file_ack, batch_marker, batch_id_of, file_name, on_stream_start,
  save_records, on_stream, on_read, handle_connection, add_lengths,
}

-- The packet with which the pod starts batch `id`.
abbrev pub batch_start : ℕ → Bytes
batch_start id = 0xa4 ∷ codes "eprotocrawdpartebatchbid" ++ 0x1a ∷ put_uint32 id ++ codes "fstream_"

abbrev pub IsUint32 : ℕ → Type 0
IsUint32 n = n < 2 ^ 32

-- The batch id is read back from the packet.
batch_id_of-batch_start : (id : ℕ) → IsUint32 id → batch_id_of (batch_start id) ≡ id
unfolding batch_id_of
batch_id_of-batch_start id h = omega arith

abbrev Reply : Type 0
Reply = List Effect × Next

-- Every batch start packet that the pod can send is accepted, if the creation of a file does not
-- fail: its id becomes the batch id, the file named by it is created if files are saved, and the
-- connection goes over to receiving.
pub on_stream_start-batch_start :
    (answers : Answers) (c : Connection) (id : ℕ)
    → IsUint32 id
    → answers.create_fails ≡ false
    → on_stream_start answers c (batch_start id) ≡ (
      (if c.save_files then create_file (file_name c.file_path id) ∷ [] else []),
      goes_on (record c {
        state = receiving_stream;
        batch_id = id;
        os_file = if c.save_files then some (file_name c.file_path id) else c.os_file;
      }),
    )
unfolding on_stream_start batch_marker
on_stream_start-batch_start answers c id h ok = rw (batch_id_of-batch_start id h) (ground arith)

-- What the connection keeps between batches: an empty parser, and its settings.
pub record IsReady (save : Bool) (path : Bytes) (c : Connection) : Type 0 where
  pub waits : c.state ≡ waiting_for_stream_start
  pub saving : c.save_files ≡ save
  pub at_path : c.file_path ≡ path
  pub valid : IsValid c.parser.cb
  pub drained : contents c.parser.cb ≡ []

save_records-append :
    (save : Bool) (xs ys : List Bytes)
    → save_records save (xs ++ ys) ≡ save_records save xs ++ save_records save ys
unfolding save_records
save_records-append save [] ys = refl
save_records-append true (x ∷ xs) ys =
    ap (λ t. write_file x ∷ flush_file ∷ t) (save_records-append true xs ys)
save_records-append false (x ∷ xs) ys = save_records-append false xs ys

save_records_joined :
    (save : Bool) (taken rest : List ByteString) {rs : List ByteString} (end : List Effect)
    → taken ++ rest ≡ rs
    → save_records save (bodies taken) ++ (save_records save (bodies rest) ++ end)
      ≡ save_records save (bodies rs) ++ end
save_records_joined save taken rest end whole =
    sym (append_assoc (save_records save (bodies taken)) (save_records save (bodies rest)) end)
    ∙ ap (λ t. t ++ end)
        (sym (save_records-append save (bodies taken) (bodies rest))
          ∙ ap (save_records save) (sym (map-append _ taken rest) ∙ ap bodies whole))

abbrev pub bytes_of : List (Answers × Bytes) → List Bytes
bytes_of reads = map (λ (r : Answers × Bytes). r.1) reads

still_open : (seen more : Bool) → count seen + count more ≡ 1 → seen ≡ false → more ≡ true
still_open seen true e h = refl
still_open true false e h = absurd (cc)
still_open false false e h = absurd (omega arith)

-- What `receive` returned, with the reset flag known.
returned_as :
    {sp : StreamParser} {chunk q : Bytes} {rs : List ByteString} {ending flag : Bool}
    (now : Received sp chunk q rs ending)
    → now.split_at.seen ≡ flag
    → receive sp chunk
      ≡ some (record { extracted = bodies now.split_at.taken; reset_found = flag }, now.next)
returned_as now e = now.returns ∙ λ i.
    some (record { extracted = bodies now.split_at.taken; reset_found = e i }, now.next)

-- A read that is not empty and fits the connection's buffer.
abbrev pub IsChunk : Bytes → Type 0
IsChunk chunk = IsRead chunk × (0 < length chunk)

module _ (cbor : Cbor) where
  -- What the end of batch `id` makes the handler do.
  abbrev pub batch_end : Bool → ℕ → List Effect
  batch_end save id =
      (if save then flush_file ∷ close_file ∷ [] else [])
      ++ (send (get_file_ack cbor id) ∷ log_finished id 0 ∷ [])

  pub handle_connection-step :
      (answers : Answers) (c c' : Connection) (chunk : Bytes) (reads : List (Answers × Bytes))
      {effects : List Effect}
      → on_read cbor answers c chunk ≡ (effects, goes_on c')
      → handle_connection cbor c ((answers, chunk) ∷ reads)
        ≡ (effects ++ (handle_connection cbor c' reads).0, (handle_connection cbor c' reads).1)
  unfolding handle_connection
  handle_connection-step answers c c' chunk reads e = ground arith

  on_read-on_stream :
      (answers : Answers) (c : Connection) (chunk : Bytes)
      → c.state ≡ receiving_stream
      → on_read cbor answers c chunk ≡ on_stream cbor c chunk
  unfolding on_read
  on_read-on_stream answers c chunk st = ground arith

  -- A read that ends inside the stream, and the read that ends it.
  on_read_more :
      (answers : Answers) (c : Connection) (chunk : Bytes) (xs : List Bytes) (p : StreamParser)
      → c.state ≡ receiving_stream
      → receive c.parser chunk ≡ some (record { extracted = xs; reset_found = false }, p)
      → on_read cbor answers c chunk ≡ (
        save_records c.save_files xs,
        goes_on (record c { parser = p; counter = add_lengths c.counter xs }),
      )
  unfolding on_stream
  on_read_more answers c chunk xs p st e = on_read-on_stream answers c chunk st ∙ rw (e, on_stream)

  on_read_last :
      (answers : Answers) (c : Connection) (chunk : Bytes) (xs : List Bytes) (p : StreamParser)
      → c.state ≡ receiving_stream
      → receive c.parser chunk ≡ some (record { extracted = xs; reset_found = true }, p)
      → on_read cbor answers c chunk ≡ (
        save_records c.save_files xs ++ batch_end c.save_files c.batch_id,
        goes_on (record c { parser = p; counter = 0; state = waiting_for_stream_start }),
      )
  unfolding on_stream
  on_read_last answers c chunk xs p st e = on_read-on_stream answers c chunk st ∙ rw (e, on_stream)

  -- The reads of the rest of a stream.
  pub record Streamed (c : Connection) (rs : List ByteString) (reads : List (Answers × Bytes))
      : Type 0 where
    pub last : Connection
    pub returned :
        handle_connection cbor c reads
        ≡ (save_records c.save_files (bodies rs) ++ batch_end c.save_files c.batch_id, goes_on last)
    pub ready : IsReady c.save_files c.file_path last

  -- The read with the reset code ends the batch.
  last_read :
      (answers : Answers) (chunk : Bytes) (reads : List (Answers × Bytes)) (c : Connection)
      (rs : List ByteString)
      → c.state ≡ receiving_stream
      → All IsChunk (bytes_of reads)
      → (now : Received c.parser chunk (concat (bytes_of reads)) rs true) → now.split_at.seen ≡ true
      → Streamed c rs ((answers, chunk) ∷ reads)
  last_read answers chunk (r ∷ reads) c rs st (next, chunks) now done = absurd (
      omega (
        arith,
        ap length (now.split_at.closed done).1,
        length-append r.1 (concat (bytes_of reads)),
      ))
  last_read answers chunk [] c rs st chunks now done =
      let s = now.split_at in
      let (no_rest, _, empty_left) = s.closed done in
      let all_taken : s.taken ≡ rs =
        sym (append-nil s.taken) ∙ ap (λ t. s.taken ++ t) (sym no_rest) ∙ s.whole in
      record {
        last = record c { parser = now.next; counter = 0; state = waiting_for_stream_start };
        returned =
            handle_connection-step answers c _ chunk []
              (on_read_last answers c chunk _ _ st (returned_as now done))
            ∙ unfold handle_connection in
              (ap₂ (λ xs n. (xs, n))
                (append-nil _
                  ∙ ap
                      (λ t.
                        save_records c.save_files (bodies t) ++ batch_end c.save_files c.batch_id)
                      all_taken)
                refl);
        ready = record {
          waits = refl;
          saving = refl;
          at_path = refl;
          valid = now.valid;
          drained = now.holds ∙ empty_left;
        };
      }

  pub stream-Streamed :
      (reads : List (Answers × Bytes)) (c : Connection) (rs : List ByteString)
      → c.state ≡ receiving_stream
      → IsValid c.parser.cb
      → All Fits rs
      → All IsChunk (bytes_of reads)
      → length (contents c.parser.cb) < next_len rs
      → contents c.parser.cb ++ concat (bytes_of reads) ≡ encode_all rs ++ tail true
      → Streamed c rs reads
  stream-Streamed [] c rs st v f chunks near e =
      absurd (unfinished (contents c.parser.cb) rs near (sym (append-nil _) ∙ e))
  stream-Streamed ((answers, chunk) ∷ reads) c rs st v f (read, chunks) near e =
      let now =
        receive-Received c.parser chunk (concat (bytes_of reads)) rs true v (Fits-IsWritable rs f)
          (omega (arith, next_len-le rs f)) e in
      let s = now.split_at in
      elim (Bool-cases s.seen) [
        | inl done ↦ last_read answers chunk reads c rs st chunks now done
        | inr more ↦
            let c' = record c {
              parser = now.next;
              counter = add_lengths c.counter (bodies s.taken);
            } in
            let later =
              stream-Streamed reads c' s.rest st now.valid
                (All-rest Fits s.taken s.rest rs s.whole f) chunks (rw now.holds s.short)
                (rw now.holds (
                  subst (λ b. s.left ++ concat (bytes_of reads) ≡ encode_all s.rest ++ tail b)
                    (still_open s.seen s.more s.once more) s.remains)) in
            record {
              last = later.last;
              returned =
                  handle_connection-step answers c c' chunk reads
                    (on_read_more answers c chunk _ _ st (returned_as now more))
                  ∙ rw later.returned (
                      ap₂ (λ xs n. (xs, n))
                        (save_records_joined c.save_files s.taken s.rest
                          (batch_end c.save_files c.batch_id) s.whole)
                        refl);
              ready = later.ready;
            }
      ]
