-- ===== src/LogServer/Server/Files.antt =====
-- What every connection does with its files and its byte counter, whatever the pod sends and whatever
-- the operating system answers.
use eight_sleep_pod2server.Prelude.{
  ℕ, ◌≡◌, refl, Bool, true, false, ◌⊎◌, inl, inr, List, [], ◌∷◌, ◌++◌, Bytes, arith, some, none,
  Option, if◌then◌else◌, Bool-cases,
}
use eight_sleep_pod2server.LogServer.StreamParser.{StreamParser, receive, CborExtractResult}
use eight_sleep_pod2server.LogServer.CircularBuffer.Refine.{IsValid}
use eight_sleep_pod2server.LogServer.StreamParser.Refine.{receive-total}
use eight_sleep_pod2server.LogServer.Models.{
  State, client_hello, waiting_for_stream_start, receiving_stream,
}
use eight_sleep_pod2server.LogServer.Server.Session.{Next-cases}
use eight_sleep_pod2server.LogServer.Server.{
  Cbor, Answers, create_failed, Effect, create_file, write_file, flush_file, close_file, send,
  log_finished, Connection, Next, goes_on, get_file_ack, on_client_hello, on_stream_start,
  save_records, on_stream, on_read, handle_connection,
}

-- Whether a file is open after some effects, from whether one was open before; `none` if a file is
-- created while another is open, or written, flushed or closed while none is.
abbrev pub open_after : Bool → List Effect → Option Bool
open_after is_open [] = some is_open
open_after is_open (send b ∷ es) = open_after is_open es
open_after is_open (create_failed name ∷ es) = open_after is_open es
open_after is_open (log_finished id n ∷ es) = open_after is_open es
open_after false (create_file name ∷ es) = open_after true es
open_after true (create_file name ∷ es) = none
open_after true (write_file b ∷ es) = open_after true es
open_after false (write_file b ∷ es) = none
open_after true (flush_file ∷ es) = open_after true es
open_after false (flush_file ∷ es) = none
open_after true (close_file ∷ es) = open_after false es
open_after false (close_file ∷ es) = none

-- A file is open exactly while a stream is received and files are saved.
abbrev pub file_open : Connection → Bool
file_open c = elim c.state [
  | client_hello ↦ false
  | waiting_for_stream_start ↦ false
  | receiving_stream ↦ c.save_files
]

-- How the handling of reads may end: with a valid parser and the files as the state says, or with the
-- handler returned and no file open. It never gets stuck.
abbrev pub Lands : Next → Option Bool → Type 0
Lands (goes_on c) files = (files ≡ some (file_open c)) × IsValid c.parser.cb
Lands Next.returns files = files ≡ some false
Lands Next.stuck files = ⊥

pub open_after-append :
    (is_open : Bool) (xs ys : List Effect) {now : Bool}
    → open_after is_open xs ≡ some now
    → open_after is_open (xs ++ ys) ≡ open_after now ys
open_after-append is_open [] ys e = ground arith
open_after-append is_open (send b ∷ xs) ys e = open_after-append is_open xs ys e
open_after-append is_open (create_failed name ∷ xs) ys e = open_after-append is_open xs ys e
open_after-append is_open (log_finished id n ∷ xs) ys e = open_after-append is_open xs ys e
open_after-append false (create_file name ∷ xs) ys e = open_after-append true xs ys e
open_after-append true (create_file name ∷ xs) ys e = absurd (cc)
open_after-append true (write_file b ∷ xs) ys e = open_after-append true xs ys e
open_after-append false (write_file b ∷ xs) ys e = absurd (cc)
open_after-append true (flush_file ∷ xs) ys e = open_after-append true xs ys e
open_after-append false (flush_file ∷ xs) ys e = absurd (cc)
open_after-append true (close_file ∷ xs) ys e = open_after-append false xs ys e
open_after-append false (close_file ∷ xs) ys e = absurd (cc)

-- The records of a read are written to an open file, which stays open.
open_after-save_records :
    (save : Bool) (rs : List Bytes) → open_after save (save_records save rs) ≡ some save
unfolding save_records
open_after-save_records save [] = refl
open_after-save_records true (r ∷ rs) = open_after-save_records true rs
open_after-save_records false (r ∷ rs) = open_after-save_records false rs

pub State-cases :
    (s : State) → (s ≡ client_hello) ⊎ ((s ≡ waiting_for_stream_start) ⊎ (s ≡ receiving_stream))
State-cases client_hello = inl refl
State-cases waiting_for_stream_start = inr (inl refl)
State-cases receiving_stream = inr (inr refl)

module _ (cbor : Cbor) where
  on_client_hello-Lands :
      (answers : Answers) (c : Connection) (bytes : Bytes)
      → file_open c ≡ false
      → IsValid c.parser.cb
      → Lands
          (on_client_hello cbor answers c bytes).1
          (open_after false (on_client_hello cbor answers c bytes).0)
  unfolding on_client_hello
  on_client_hello-Lands answers c bytes e v = ground arith

  on_stream_start-Lands :
      (answers : Answers) (c : Connection) (bytes : Bytes)
      → file_open c ≡ false
      → IsValid c.parser.cb
      → Lands
          (on_stream_start answers c bytes).1
          (open_after false (on_stream_start answers c bytes).0)
  unfolding on_stream_start
  on_stream_start-Lands answers c bytes e v = ground arith

  -- The end of a batch closes the file that is open.
  open_after-end :
      (save : Bool) (saved : List Effect) (ack : Bytes) (id n : ℕ)
      → open_after save saved ≡ some save
      → open_after save (
          saved
          ++ ((if save then flush_file ∷ close_file ∷ [] else [])
              ++ send ack ∷ log_finished id n ∷ []))
        ≡ some false
  open_after-end true saved ack id n e = open_after-append true saved _ e
  open_after-end false saved ack id n e = open_after-append false saved _ e

  on_stream-Lands :
      (c : Connection) (bytes : Bytes) (result : CborExtractResult) (next : StreamParser)
      → c.state ≡ receiving_stream
      → receive c.parser bytes ≡ some (result, next)
      → IsValid next.cb
      → Lands (on_stream cbor c bytes).1 (open_after c.save_files (on_stream cbor c bytes).0)
  unfolding on_stream
  on_stream-Lands c bytes result next st e v = elim (Bool-cases result.reset_found) [
    | inl done ↦ ground (
      arith,
      open_after-save_records c.save_files result.extracted,
      open_after-end c.save_files (save_records c.save_files result.extracted)
          (get_file_ack cbor c.batch_id) c.batch_id 0,
    )
    | inr more ↦ ground (arith, open_after-save_records c.save_files result.extracted)
  ]

  on_read-Lands :
      (answers : Answers) (c : Connection) (bytes : Bytes)
      → IsValid c.parser.cb
      → Lands
          (on_read cbor answers c bytes).1
          (open_after (file_open c) (on_read cbor answers c bytes).0)
  unfolding on_read
  on_read-Lands answers c bytes v = elim (State-cases c.state) [
    | inl st ↦
        rw st (on_client_hello-Lands answers (record c { state = client_hello }) bytes refl v)
    | inr (inl st) ↦
        rw st (
          on_stream_start-Lands answers (record c { state = waiting_for_stream_start }) bytes refl
            v)
    | inr (inr st) ↦
        let (result, next, e, v') = receive-total c.parser bytes v in
        rw st (on_stream-Lands (record c { state = receiving_stream }) bytes result next refl e v')
  ]

  -- Whatever is sent, and whatever the operating system answers to writes and to the creation of files, a
  -- connection with a valid parser, as long as no read fails, never gets stuck, creates a file only while
  -- none is open, and writes, flushes and closes only an open one. When it goes on, a file is open exactly
  -- if a stream is being received and files are saved; when the handler returns by itself, none is.
  pub handle_connection-Lands :
      (c : Connection) (reads : List (Answers × Bytes))
      → IsValid c.parser.cb
      → Lands
          (handle_connection cbor c reads).1
          (open_after (file_open c) (handle_connection cbor c reads).0)
  unfolding handle_connection
  handle_connection-Lands c [] v = (refl, v)
  handle_connection-Lands c ((answers, bytes) ∷ reads) v =
      elim (Next-cases (on_read cbor answers c bytes).1) [
        | inl (d, go) ↦
            let here : Lands (goes_on d)
                (open_after (file_open c) (on_read cbor answers c bytes).0) =
              rw go at (on_read-Lands answers c bytes v) in
            rw (go, handle_connection)
              (rw
                (open_after-append (file_open c) (on_read cbor answers c bytes).0
                  (handle_connection cbor d reads).0 here.0)
                (handle_connection-Lands d reads here.1))
        | inr (inl done) ↦
            rw (done, handle_connection) (rw done at (on_read-Lands answers c bytes v))
        | inr (inr out) ↦ absurd (rw out at (on_read-Lands answers c bytes v))
      ]
