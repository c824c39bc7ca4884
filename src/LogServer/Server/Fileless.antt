-- ===== src/LogServer/Server/Fileless.antt =====
-- Connections of a server that saves no files.
use eight_sleep_pod2server.Prelude.{
  ◌≡◌, refl, false, inl, inr, List, [], ◌∷◌, Bytes, All, All-append, arith, Option-cases,
  Bool-cases,
}
use eight_sleep_pod2server.LogServer.StreamParser.{receive}
use eight_sleep_pod2server.LogServer.Server.{
  Cbor, Answers, Effect, send, log_finished, Connection, Next, goes_on, save_records,
  on_client_hello, on_stream_start, on_stream, on_read, on_read_error, handle_connection,
}
use eight_sleep_pod2server.LogServer.Server.Session.{Next-cases}

-- Neither creates nor writes nor closes a file.
abbrev pub IsFileless : Effect → Type 0
IsFileless (send b) = Unit
IsFileless (log_finished id n) = Unit
IsFileless _ = ⊥

-- The handler goes on, if it does, without saving.
abbrev pub IsUnsaving : Next → Type 0
IsUnsaving (goes_on c) = c.save_files ≡ false
IsUnsaving _ = Unit

All-save_records-Fileless : (rs : List Bytes) → All IsFileless (save_records false rs)
unfolding save_records
All-save_records-Fileless [] = tt
All-save_records-Fileless (r ∷ rs) = All-save_records-Fileless rs

pub on_read_error-Fileless :
    (c : Connection) → c.save_files ≡ false → All IsFileless (on_read_error c)
unfolding on_read_error
on_read_error-Fileless c off = ground arith

module _ (cbor : Cbor) where
  on_stream-Fileless :
      (c : Connection) (bytes : Bytes)
      → c.save_files ≡ false
      → All IsFileless (on_stream cbor c bytes).0 × IsUnsaving (on_stream cbor c bytes).1
  unfolding on_stream
  on_stream-Fileless c bytes off = elim (Option-cases (receive c.parser bytes)) [
    | inl e ↦ rw (e, on_stream) (tt, tt)
    | inr ((result, next), e) ↦ elim (Bool-cases result.reset_found) [
      | inl done ↦
          rw (e, on_stream, done, off)
            (
              All-append IsFileless _ _ (All-save_records-Fileless result.extracted) (tt, (tt, tt)),
              refl,
            )
      | inr more ↦ rw (e, on_stream, more, off) (All-save_records-Fileless result.extracted, refl)
    ]
  ]

  on_read-Fileless :
      (answers : Answers) (c : Connection) (bytes : Bytes)
      → c.save_files ≡ false
      → All IsFileless (on_read cbor answers c bytes).0
        × IsUnsaving (on_read cbor answers c bytes).1
  unfolding on_read on_client_hello on_stream_start
  on_read-Fileless answers c bytes off = ground (arith, on_stream-Fileless c bytes off)

  pub handle_connection-Fileless :
      (c : Connection) (reads : List (Answers × Bytes))
      → c.save_files ≡ false
      → All IsFileless (handle_connection cbor c reads).0
        × IsUnsaving (handle_connection cbor c reads).1
  unfolding handle_connection
  handle_connection-Fileless c [] off = (tt, off)
  handle_connection-Fileless c ((answers, bytes) ∷ reads) off =
      let here = on_read-Fileless answers c bytes off in
      elim (Next-cases (on_read cbor answers c bytes).1) [
        | inl (d, go) ↦
            let still : d.save_files ≡ false = rw go at (here.1) in
            let later = handle_connection-Fileless d reads still in
            rw (go, handle_connection) (All-append IsFileless _ _ here.0 later.0, later.1)
        | inr (inl e) ↦ rw (e, handle_connection) (here.0, tt)
        | inr (inr e) ↦ rw (e, handle_connection) (here.0, tt)
      ]
