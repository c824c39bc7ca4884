-- ===== src/LogServer/Server.antt =====
-- LogServer/Server.go: one log connection as a state machine over its reads. The CBOR library is a
-- parameter. What the handler does to the socket and to the files is a list of effects; whether a
-- socket write or a file creation fails comes with each read. Errors of the file writes are only
-- logged by the source, and change nothing.
pub mod Streamed
pub mod Session
pub mod Files
pub mod Closing
pub mod Counter
pub mod Fileless
use eight_sleep_pod2server.Prelude.{
  ℕ, ◌+◌, ◌%◌, ◌^◌, Bool, true, false, not, ◌||◌, Option, none, some, List, [], ◌∷◌, ◌++◌, Bytes,
  ◌==◌, if◌then◌else◌, length, get_or,
}
use eight_sleep_pod2server.Prelude.Text.{codes, contains, hex_upper, uint32}
use eight_sleep_pod2server.LogServer.StreamParser.{
  StreamParser, CborExtractResult, new_parser, receive,
}
use eight_sleep_pod2server.LogServer.Models.{
  State, client_hello, waiting_for_stream_start, receiving_stream, WelcomeMessage, WelcomeResponse,
  FileAckResponse,
}

-- github.com/fxamacker/cbor, as far as the log server calls it; `none` is an error.
pub record Cbor : Type 0 where
  pub unmarshal_welcome : Bytes → Option WelcomeMessage
  pub marshal_welcome : WelcomeResponse → Option Bytes
  pub marshal_ack : FileAckResponse → Option Bytes

-- What the operating system answers while one read is handled.
pub record Answers : Type 0 where
  pub write_fails : Bool
  pub create_fails : Bool

pub data Effect : Type 0 where
  send : Bytes → Effect
  create_file : Bytes → Effect
  create_failed : Bytes → Effect
  write_file : Bytes → Effect
  flush_file : Effect
  close_file : Effect
  -- "Stream finished" in the log, with the batch and `bytes_received`
  log_finished : ℕ → ℕ → Effect

-- The variables of `handleConnection` and the server's fields that it reads.
pub record Connection : Type 0 where
  pub state : State
  pub save_files : Bool
  pub file_path : Bytes
  pub parser : StreamParser
  pub batch_id : ℕ
  -- `osFile`: nil, or the name of the file opened last
  pub os_file : Option Bytes
  pub counter : ℕ

-- How the handling of one read ends: the loop goes on, or the handler returns. `stuck` is no Go
-- outcome: the parser's loop ran out of fuel.
pub data Next : Type 0 where
  goes_on : Connection → Next
  returns : Next
  stuck : Next

-- The variables at the head of the loop.
unfoldable pub open_connection : Bool → Bytes → Connection
open_connection save_files file_path = record {
  state = client_hello;
  save_files = save_files;
  file_path = file_path;
  parser = new_parser;
  batch_id = 0;
  os_file = none;
  counter = 0;
}

pub welcome_response : WelcomeResponse
welcome_response = record { proto = codes "raw"; part = codes "session" }

pub batch_marker : Bytes
batch_marker = codes "eprotocrawdpartebatchbid"

-- `binary.BigEndian.Uint32(data[0x1a:0x1e])`
pub batch_id_of : Bytes → ℕ
batch_id_of bytes =
    uint32 (get_or bytes 0x1a 0) (get_or bytes 0x1b 0) (get_or bytes 0x1c 0) (get_or bytes 0x1d 0)

-- `fmt.Sprintf("%s/%08X.RAW", b.filePath, batchId)`
pub file_name : Bytes → ℕ → Bytes
file_name path batch_id = path ++ codes "/" ++ hex_upper 8 batch_id ++ codes ".RAW"

-- The branch for StateWaitingForStreamStart.
pub on_stream_start : Answers → Connection → Bytes → List Effect × Next
on_stream_start answers c bytes =
    if not (length bytes == 38) || not (contains bytes batch_marker)
    then ([], goes_on c)
    else let id = batch_id_of bytes in
      let name = file_name c.file_path id in
      if c.save_files
      then if answers.create_fails then (create_failed name ∷ [], returns) else (
        create_file name ∷ [],
        goes_on (record c { state = receiving_stream; batch_id = id; os_file = some name }),
      )
      else ([], goes_on (record c { state = receiving_stream; batch_id = id }))

-- `counter += uint64(len(record))` for every record.
pub add_lengths : ℕ → List Bytes → ℕ
add_lengths counter [] = counter
add_lengths counter (r ∷ rs) = add_lengths ((counter + length r) % 2 ^ 64) rs

-- The writes of the records of one read.
pub save_records : Bool → List Bytes → List Effect
save_records save [] = []
save_records save (r ∷ rs) =
    (if save then write_file r ∷ flush_file ∷ [] else []) ++ save_records save rs

-- The read failed: the file that was opened last is flushed and closed, and the handler returns.
pub on_read_error : Connection → List Effect
on_read_error c = elim c.os_file [
  | none ↦ []
  | some name ↦ if c.save_files then flush_file ∷ close_file ∷ [] else []
]

module _ (cbor : Cbor) where
  -- `getFileAck`; a marshalling error gives the nil slice.
  pub get_file_ack : ℕ → Bytes
  get_file_ack batch_id =
      elim (cbor.marshal_ack
        (record { proto = codes "raw"; part = codes "batch"; id = batch_id })) [
          | none ↦ []
          | some template ↦ template
        ]

  -- The branch for StateClientHello.
  pub on_client_hello : Answers → Connection → Bytes → List Effect × Next
  on_client_hello answers c bytes = elim (cbor.unmarshal_welcome bytes) [
    | none ↦ ([], goes_on c)
    | some req ↦ elim (cbor.marshal_welcome welcome_response) [
      | none ↦ ([], returns)
      | some response ↦
          if answers.write_fails
          then (send response ∷ [], returns)
          else (send response ∷ [], goes_on (record c { state = waiting_for_stream_start }))
    ]
  ]

  -- The branch for StateReceivingStream. A failed write of the acknowledgement is only logged. The
  -- counter is cleared before it is logged.
  pub on_stream : Connection → Bytes → List Effect × Next
  on_stream c bytes = elim (receive c.parser bytes) [
    | none ↦ ([], stuck)
    | some (result, parser) ↦
        let counted = record c {
          parser = parser;
          counter = add_lengths c.counter result.extracted;
        } in
        let finished = record counted { state = waiting_for_stream_start; counter = 0 } in
        if result.reset_found
        then (
          save_records c.save_files result.extracted
              ++ ((if c.save_files then flush_file ∷ close_file ∷ [] else [])
                  ++ send (get_file_ack c.batch_id)
                    ∷ log_finished finished.batch_id finished.counter
                    ∷ []),
          goes_on finished,
        )
        else (save_records c.save_files result.extracted, goes_on counted)
  ]

  -- One read of `n` bytes without an error.
  pub on_read : Answers → Connection → Bytes → List Effect × Next
  on_read answers c bytes = elim c.state [
    | client_hello ↦ on_client_hello answers c bytes
    | waiting_for_stream_start ↦ on_stream_start answers c bytes
    | receiving_stream ↦ on_stream c bytes
  ]

  -- The loop over the reads of a connection, with the operating system's answers for each. At the end
  -- of the list the connection still waits for a read.
  pub handle_connection : Connection → List (Answers × Bytes) → List Effect × Next
  handle_connection c [] = ([], goes_on c)
  handle_connection c ((answers, bytes) ∷ reads) =
      let (effects, next) = on_read answers c bytes in
      elim next [
        | goes_on c' ↦ let (later, end) = handle_connection c' reads in (effects ++ later, end)
        | returns ↦ (effects, returns)
        | stuck ↦ (effects, stuck)
      ]
