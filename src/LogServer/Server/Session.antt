-- ===== src/LogServer/Server/Session.antt =====
-- Whole batches, and whole connections.
use mathlib.Core.Path.{subst₂}
use eight_sleep_pod2server.Prelude.{
  ℕ, ◌≡◌, refl, ◌∙◌, Bool, false, ◌⊎◌, inl, inr, List, [], ◌∷◌, ◌++◌, Bytes, concat, map, All,
  arith, append_assoc, some, if◌then◌else◌,
}
use eight_sleep_pod2server.LogServer.CircularBuffer.Refine.{
  IsValid, contents, empty-IsValid, contents-empty,
}
use eight_sleep_pod2server.LogServer.StreamParser.Feed.{Fits, next_len-pos}
use eight_sleep_pod2server.LogServer.StreamParser.Wire.{ByteString, encode_all, bodies, reset_code}
use eight_sleep_pod2server.LogServer.Models.{
  WelcomeMessage, waiting_for_stream_start, receiving_stream,
}
use eight_sleep_pod2server.LogServer.Server.{
  Cbor, Answers, Effect, create_file, send, Connection, Next, goes_on, file_name, on_stream_start,
  save_records, on_read, on_client_hello, open_connection, welcome_response, handle_connection,
}
use eight_sleep_pod2server.LogServer.Server.Streamed.{
  batch_start, IsUint32, on_stream_start-batch_start, IsReady, bytes_of, IsChunk, batch_end,
  handle_connection-step, stream-Streamed,
}

-- A batch as the pod sends it: its id, its byte strings, and the reads that its stream is cut into,
-- with what the operating system answers at each.
pub record Batch : Type 0 where
  pub id : ℕ
  pub strings : List ByteString
  pub started : Answers
  pub reads : List (Answers × Bytes)

pub record IsSent (b : Batch) : Type 0 where
  pub id_fits : IsUint32 b.id
  pub created : b.started.create_fails ≡ false
  pub fits : All Fits b.strings
  pub chunks : All IsChunk (bytes_of b.reads)
  pub spelled : concat (bytes_of b.reads) ≡ encode_all b.strings ++ reset_code ∷ []

-- The reads of a batch.
abbrev pub batch_reads : Batch → List (Answers × Bytes)
batch_reads b = (b.started, batch_start b.id) ∷ b.reads

pub Next-cases :
    (n : Next) → ((c : Connection) × (n ≡ goes_on c)) ⊎ ((n ≡ Next.returns) ⊎ (n ≡ Next.stuck))
Next-cases (goes_on c) = inl (c, refl)
Next-cases Next.returns = inr (inl refl)
Next-cases Next.stuck = inr (inr refl)

module _ (cbor : Cbor) where
  -- What a batch makes the handler do.
  abbrev pub batch_effects : Bool → Bytes → Batch → List Effect
  batch_effects save path b =
      (if save then create_file (file_name path b.id) ∷ [] else [])
      ++ (save_records save (bodies b.strings) ++ batch_end cbor save b.id)

  on_read-on_stream_start :
      (answers : Answers) (c : Connection) (bytes : Bytes)
      → c.state ≡ waiting_for_stream_start
      → on_read cbor answers c bytes ≡ on_stream_start answers c bytes
  unfolding on_read
  on_read-on_stream_start answers c bytes waits = ground arith

  batch_from :
      (c : Connection) (b : Batch)
      → c.state ≡ waiting_for_stream_start
      → IsValid c.parser.cb
      → contents c.parser.cb ≡ []
      → IsSent b
      → (last : Connection) × (handle_connection cbor c (batch_reads b)
          ≡ (batch_effects c.save_files c.file_path b, goes_on last))
        × IsReady c.save_files c.file_path last
  batch_from c b waits valid drained sent =
      let c' = record c {
        state = receiving_stream;
        batch_id = b.id;
        os_file = if c.save_files then some (file_name c.file_path b.id) else c.os_file;
      } in
      let streamed =
        stream-Streamed cbor b.reads c' b.strings refl valid sent.fits sent.chunks
          (rw drained (next_len-pos b.strings)) (rw drained sent.spelled) in
      (
        streamed.last,
        handle_connection-step cbor b.started c c' (batch_start b.id) b.reads (
              on_read-on_stream_start b.started c (batch_start b.id) waits
              ∙ on_stream_start-batch_start b.started c b.id sent.id_fits sent.created)
            ∙ rw streamed.returned,
        streamed.ready,
      )

  -- From a connection between batches, a batch that is sent whole, in any reads of 1 to 4096 bytes,
  -- with byte strings of at most 4097 bytes and no failing file creation, makes the handler create the
  -- file, write the bodies of its byte strings and close the file, if files are saved, and acknowledge
  -- the batch. It leaves the connection between batches again.
  pub handle_connection-batch :
      (save : Bool) (path : Bytes) (c : Connection) (b : Batch)
      → IsReady save path c
      → IsSent b
      → (last : Connection) × (handle_connection cbor c (batch_reads b)
          ≡ (batch_effects save path b, goes_on last))
        × IsReady save path last
  handle_connection-batch save path c b ready sent =
      subst₂
        (λ s p.
          (last : Connection) × (handle_connection cbor c (batch_reads b)
            ≡ (batch_effects s p b, goes_on last))
          × IsReady s p last)
        ready.saving ready.at_path (batch_from c b ready.waits ready.valid ready.drained sent)

  handle_connection-append :
      (c c' : Connection) (reads later : List (Answers × Bytes)) (effects : List Effect)
      → handle_connection cbor c reads ≡ (effects, goes_on c')
      → handle_connection cbor c (reads ++ later)
        ≡ (effects ++ (handle_connection cbor c' later).0, (handle_connection cbor c' later).1)
  unfolding handle_connection
  handle_connection-append c c' [] later effects e = ground arith
  handle_connection-append c c' ((answers, bytes) ∷ reads) later effects e =
      elim (Next-cases (on_read cbor answers c bytes).1) [
        | inl (d, go) ↦ ground (
          arith,
          handle_connection-append d c' reads later (handle_connection cbor d reads).0,
          append_assoc (on_read cbor answers c bytes).0 (handle_connection cbor d reads).0
              (handle_connection cbor c' later).0,
        )
        | inr (inl done) ↦ ground arith
        | inr (inr out) ↦ ground arith
      ]

  -- Everything that the pod sends after its hello, and what it makes the handler do.
  abbrev pub session_effects : Bool → Bytes → List Batch → List Effect
  session_effects save path [] = []
  session_effects save path (b ∷ bs) = batch_effects save path b ++ session_effects save path bs

  batches_from :
      (save : Bool) (path : Bytes) (bs : List Batch) (c : Connection)
      → IsReady save path c
      → All IsSent bs
      → (last : Connection) × (handle_connection cbor c (concat (map batch_reads bs))
          ≡ (session_effects save path bs, goes_on last))
        × IsReady save path last
  batches_from save path [] c ready sent = (c, unfold handle_connection in refl, ready)
  batches_from save path (b ∷ bs) c ready (sent, all_sent) =
      let (c', done, ready') = handle_connection-batch save path c b ready sent in
      let (last, later, ready'') = batches_from save path bs c' ready' all_sent in
      (
        last,
        handle_connection-append c c' (batch_reads b) (concat (map batch_reads bs)) _ done
            ∙ rw later,
        ready'',
      )

  -- A whole connection: a hello that the library decodes and answers and whose answer is written, then
  -- any number of batches. Each has its id, its byte strings in any definite-length form, at most 4097
  -- bytes each, and its stream cut anywhere into reads of 1 to 4096 bytes; no file creation fails. The
  -- handler answers the hello, and then for each batch, in order, creates the file of its id, writes
  -- exactly the bodies to it and closes it, all this if files are saved, and acknowledges the id. At
  -- the end it waits for a batch.
  pub log_session :
      (save : Bool) (path hello response : Bytes) (req : WelcomeMessage) (greeted : Answers)
      (bs : List Batch)
      → cbor.unmarshal_welcome hello ≡ some req
      → cbor.marshal_welcome welcome_response ≡ some response
      → greeted.write_fails ≡ false
      → All IsSent bs
      → (last : Connection) × (handle_connection cbor
            (open_connection save path)
            ((greeted, hello) ∷ concat (map batch_reads bs))
          ≡ (send response ∷ session_effects save path bs, goes_on last))
        × IsReady save path last
  unfolding on_read on_client_hello open_connection
  log_session save path hello response req greeted bs decoded encoded written sent =
      let c = record (open_connection save path) { state = waiting_for_stream_start } in
      let ready : IsReady save path c = record {
        waits = refl;
        saving = refl;
        at_path = refl;
        valid = empty-IsValid;
        drained = contents-empty;
      } in
      let greeting : on_read cbor greeted (open_connection save path) hello
          ≡ (send response ∷ [], goes_on c) =
        ground arith in
      let (last, later, ready') = batches_from save path bs c ready sent in
      (
        last,
        handle_connection-step cbor greeted (open_connection save path) c hello _ greeting
            ∙ rw later,
        ready',
      )
