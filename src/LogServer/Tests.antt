-- ===== src/LogServer/Tests.antt =====
-- The log server on small inputs: a hello, and a batch of two byte strings that three reads cut.
mod Clients
use eight_sleep_pod2server.Prelude.{
  ◌+◌, ◌≤◌, ◌≡◌, refl, true, false, none, some, inl, List, [], ◌∷◌, ◌++◌, Bytes, ltb, if◌then◌else◌,
  length, take, drop, concat, map, All, arith,
}
use eight_sleep_pod2server.LogServer.CircularBuffer.{
  CircularBuffer, buffer_size, empty, write, peek, advance,
}
use eight_sleep_pod2server.LogServer.CircularBuffer.Refine.{
  IsValid, contents, empty-IsValid, contents-empty, write_refines, peek_refines, advance_refines,
}
use eight_sleep_pod2server.LogServer.StreamParser.{
  StreamParser, CborExtractResult, new_parser, receive,
}
use eight_sleep_pod2server.LogServer.StreamParser.Wire.{short, one, two, ByteString}
use eight_sleep_pod2server.LogServer.StreamParser.Refine.{receive-total}
use eight_sleep_pod2server.LogServer.StreamParser.Feed.{feed, Fits, feed_stream}
use eight_sleep_pod2server.LogServer.StreamParser.Stall.{feed_foreign, feed_too_long}
use eight_sleep_pod2server.LogServer.Models.{waiting_for_stream_start, receiving_stream}
use eight_sleep_pod2server.LogServer.Server.{
  Cbor, Answers, send, create_file, Connection, goes_on, open_connection, file_name,
  on_stream_start, on_read_error, handle_connection,
}
use eight_sleep_pod2server.LogServer.Server.Streamed.{
  batch_start, IsReady, on_stream_start-batch_start,
}
use eight_sleep_pod2server.LogServer.Server.Session.{
  Batch, IsSent, batch_reads, batch_effects, session_effects, handle_connection-batch, log_session,
}
use eight_sleep_pod2server.LogServer.Server.Closing.{Ends, connection_files}
use eight_sleep_pod2server.LogServer.Server.Files.{
  Lands, open_after, file_open, handle_connection-Lands,
}
use eight_sleep_pod2server.LogServer.Server.Counter.{IsZeroCount, bytes_received_zero}

-- What a new ring holds after a write.
holds : (bytes : Bytes) → length bytes ≤ buffer_size → contents (write empty bytes).0 ≡ bytes
holds bytes fits =
    let (_, _, e) = write_refines empty bytes empty-IsValid in
    let f = rw contents-empty at e in ground (arith, f)

write_refines_example :
    IsValid (write empty (7 ∷ 8 ∷ [])).0
    × ((write empty (7 ∷ 8 ∷ [])).1 ≡ ltb buffer_size (length (contents empty) + 2))
    × (contents (write empty (7 ∷ 8 ∷ [])).0 ≡ (
        if ltb buffer_size (length (contents empty) + 2)
        then contents empty
        else contents empty ++ 7 ∷ 8 ∷ []))
write_refines_example = write_refines empty (7 ∷ 8 ∷ []) empty-IsValid

abbrev held : CircularBuffer
held = (write empty (7 ∷ 8 ∷ [])).0

held-IsValid : IsValid held
held-IsValid = (write_refines empty (7 ∷ 8 ∷ []) empty-IsValid).0

peek_refines_example :
    (peek held 1 ≡ take 1 (contents held))
    × (contents held
        ≡ take held.data_length (drop held.read_pos held.buf ++ take held.read_pos held.buf))
peek_refines_example = peek_refines held 1 held-IsValid

advance_refines_example :
    IsValid (advance (write empty (7 ∷ 8 ∷ [])).0 1)
    × (contents (advance (write empty (7 ∷ 8 ∷ [])).0 1)
        ≡ drop 1 (contents (write empty (7 ∷ 8 ∷ [])).0))
advance_refines_example =
    advance_refines (write empty (7 ∷ 8 ∷ [])).0 1
      (write_refines empty (7 ∷ 8 ∷ []) empty-IsValid).0

receive-total_example :
    (result : CborExtractResult) × (next : StreamParser) × (receive new_parser
        (0x41 ∷ 5 ∷ 0x58 ∷ [])
      ≡ some (result, next))
    × IsValid next.cb
receive-total_example = receive-total new_parser (0x41 ∷ 5 ∷ 0x58 ∷ []) empty-IsValid

abbrev strings : List ByteString
strings =
    record { form = short; body = 1 ∷ 2 ∷ 3 ∷ [] } ∷ record { form = one; body = 9 ∷ 8 ∷ [] } ∷ []

abbrev chunks : List Bytes
chunks = (0x43 ∷ 1 ∷ []) ∷ (2 ∷ 3 ∷ 0x58 ∷ 2 ∷ 9 ∷ []) ∷ (8 ∷ 0xFF ∷ []) ∷ []

strings_fit : All Fits strings
strings_fit = ((omega arith, omega arith), ((omega arith, omega arith), tt))

feed_stream_example :
    (last : StreamParser) × (feed new_parser chunks
      ≡ some ((1 ∷ 2 ∷ 3 ∷ []) ∷ (9 ∷ 8 ∷ []) ∷ [], 1, last))
    × (contents last.cb ≡ [])
feed_stream_example =
    feed_stream strings chunks strings_fit (omega arith, (omega arith, (omega arith, tt))) refl

feed_foreign_example :
    (last : StreamParser) × (feed (record { cb = (write empty (0x10 ∷ [])).0 }) chunks
      ≡ some ([], 0, last))
feed_foreign_example =
    feed_foreign 0x10 [] (record { cb = (write empty (0x10 ∷ [])).0 }) chunks
      (omega arith, omega arith, inl (omega arith))
      (write_refines empty (0x10 ∷ []) empty-IsValid).0 (holds (0x10 ∷ []) (omega arith))

feed_too_long_example :
    (last : StreamParser) × (feed (record { cb = (write empty (0x59 ∷ 0x20 ∷ 0 ∷ [])).0 }) chunks
      ≡ some ([], 0, last))
feed_too_long_example =
    feed_too_long two 0x2000 [] (record { cb = (write empty (0x59 ∷ 0x20 ∷ 0 ∷ [])).0 }) chunks
      (omega arith) (omega arith) (write_refines empty (0x59 ∷ 0x20 ∷ 0 ∷ []) empty-IsValid).0
      (holds (0x59 ∷ 0x20 ∷ 0 ∷ []) (omega arith))

abbrev pub path : Bytes
path = 108 ∷ 111 ∷ 103 ∷ []

-- A connection that saved batch 6 and waits for the next one.
abbrev between : Connection
between = record {
  state = waiting_for_stream_start;
  save_files = true;
  file_path = path;
  parser = new_parser;
  batch_id = 6;
  os_file = some (file_name path 6);
  counter = 0;
}

abbrev pub well : Answers
well = record { write_fails = false; create_fails = false }

abbrev pub cbor : Cbor
cbor = record {
  unmarshal_welcome =
      λ bytes. some (record { proto = bytes; version = []; part = []; device_id = [] });
  marshal_welcome = λ response. some (0xA2 ∷ []);
  marshal_ack = λ ack. some (0xA3 ∷ ack.id ∷ []);
}

abbrev pub batch : Batch
batch = record {
  id = 7;
  strings = strings;
  started = well;
  reads = map (λ (c : Bytes). (well, c)) chunks;
}

batch-IsSent : IsSent batch
batch-IsSent = record {
  id_fits = omega arith;
  created = refl;
  fits = strings_fit;
  chunks =
      ((omega arith, omega arith), ((omega arith, omega arith), ((omega arith, omega arith), tt)));
  spelled = refl;
}

between-IsReady : IsReady true path between
between-IsReady = record {
  waits = refl;
  saving = refl;
  at_path = refl;
  valid = empty-IsValid;
  drained = contents-empty;
}

log_session_example :
    (last : Connection) × (handle_connection cbor
        (open_connection true path)
        ((well, 0xA0 ∷ []) ∷ concat (map batch_reads (batch ∷ batch ∷ [])))
      ≡ (send (0xA2 ∷ []) ∷ session_effects cbor true path (batch ∷ batch ∷ []), goes_on last))
    × IsReady true path last
log_session_example =
    log_session cbor true path (0xA0 ∷ []) (0xA2 ∷ [])
      (record { proto = 0xA0 ∷ []; version = []; part = []; device_id = [] }) well
      (batch ∷ batch ∷ []) refl refl refl (batch-IsSent, (batch-IsSent, tt))

connection_files_example :
    Lands
      (handle_connection cbor (open_connection true path) ((well, 0xA0 ∷ []) ∷ batch_reads batch)).1
      (open_after false
        (handle_connection cbor
          (open_connection true path)
          ((well, 0xA0 ∷ []) ∷ batch_reads batch)).0)
    × Ends
        (handle_connection cbor (open_connection true path) ((well, 0xA0 ∷ []) ∷ batch_reads batch))
connection_files_example = connection_files cbor true path ((well, 0xA0 ∷ []) ∷ batch_reads batch)

bytes_received_zero_example : All IsZeroCount (handle_connection cbor between (batch_reads batch)).0
bytes_received_zero_example = bytes_received_zero cbor between (batch_reads batch)
