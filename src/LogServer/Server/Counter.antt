-- ===== src/LogServer/Server/Counter.antt =====
-- The byte count in the log.
use eight_sleep_pod2server.Prelude.{
  ℕ, ◌≡◌, refl, Bool, true, false, inl, inr, List, [], ◌∷◌, ◌++◌, Bytes, All, All-append, arith,
  Option-cases, Bool-cases, if◌then◌else◌,
}
use eight_sleep_pod2server.LogServer.StreamParser.{receive}
use eight_sleep_pod2server.LogServer.Server.{
  Cbor, Answers, Effect, log_finished, Connection, on_client_hello, on_stream_start, get_file_ack,
  save_records, on_stream, on_read, handle_connection, flush_file, close_file, send,
}
use eight_sleep_pod2server.LogServer.Server.Session.{Next-cases}

abbrev pub IsZeroCount : Effect → Type 0
IsZeroCount (log_finished id n) = n ≡ 0
IsZeroCount _ = Unit

All-save_records : (save : Bool) (rs : List Bytes) → All IsZeroCount (save_records save rs)
unfolding save_records
All-save_records save [] = tt
All-save_records true (r ∷ rs) = (tt, (tt, All-save_records true rs))
All-save_records false (r ∷ rs) = All-save_records false rs

All-end :
    (save : Bool) (ack : Bytes) (id : ℕ)
    → All IsZeroCount
        ((if save then flush_file ∷ close_file ∷ [] else []) ++ send ack ∷ log_finished id 0 ∷ [])
All-end true ack id = (tt, (tt, (tt, (refl, tt))))
All-end false ack id = (tt, (refl, tt))

module _ (cbor : Cbor) where
  on_stream-ZeroCount :
      (c : Connection) (bytes : Bytes) → All IsZeroCount (on_stream cbor c bytes).0
  unfolding on_stream
  on_stream-ZeroCount c bytes = elim (Option-cases (receive c.parser bytes)) [
    | inl e ↦ rw (e, on_stream) tt
    | inr ((result, next), e) ↦ elim (Bool-cases result.reset_found) [
      | inl done ↦
          rw (e, on_stream, done)
            (All-append IsZeroCount _ _ (All-save_records c.save_files result.extracted)
              (All-end c.save_files (get_file_ack cbor c.batch_id) c.batch_id))
      | inr more ↦ rw (e, on_stream, more) (All-save_records c.save_files result.extracted)
    ]
  ]

  on_read-ZeroCount :
      (answers : Answers) (c : Connection) (bytes : Bytes)
      → All IsZeroCount (on_read cbor answers c bytes).0
  unfolding on_read on_client_hello on_stream_start
  on_read-ZeroCount answers c bytes = ground (arith, on_stream-ZeroCount c bytes)

  -- Every "Stream finished" line that the handler logs gives the number of bytes received as 0, whatever
  -- was received: the counter is cleared before it is logged.
  pub bytes_received_zero :
      (c : Connection) (reads : List (Answers × Bytes))
      → All IsZeroCount (handle_connection cbor c reads).0
  unfolding handle_connection
  bytes_received_zero c [] = tt
  bytes_received_zero c ((answers, bytes) ∷ reads) =
      elim (Next-cases (on_read cbor answers c bytes).1) [
        | inl (d, go) ↦
            rw (go, handle_connection)
              (All-append IsZeroCount _ _ (on_read-ZeroCount answers c bytes)
                (bytes_received_zero d reads))
        | inr (inl e) ↦ rw (e, handle_connection) (on_read-ZeroCount answers c bytes)
        | inr (inr e) ↦ rw (e, handle_connection) (on_read-ZeroCount answers c bytes)
      ]
