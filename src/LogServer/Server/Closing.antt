-- ===== src/LogServer/Server/Closing.antt =====
-- The files of a connection up to its end, a failing read included.
use eight_sleep_pod2server.Prelude.{
  ◌≡◌, refl, ◌∙◌, Bool, true, false, not, ◌&&◌, ◌||◌, inl, inr, none, some, List, [], ◌∷◌, ◌++◌,
  Bytes, arith, if◌then◌else◌,
}
use eight_sleep_pod2server.LogServer.CircularBuffer.Refine.{empty-IsValid}
use eight_sleep_pod2server.LogServer.Server.{
  Cbor, Answers, Effect, Connection, Next, goes_on, returns, stuck, open_connection,
  on_client_hello, on_stream_start, on_stream, on_read, on_read_error, handle_connection,
}
use eight_sleep_pod2server.LogServer.Server.Session.{Next-cases}
use eight_sleep_pod2server.LogServer.Server.Files.{
  open_after, file_open, Lands, open_after-append, handle_connection-Lands,
}

abbrev pub has_file : Connection → Bool
has_file c = elim c.os_file [ none ↦ false | some name ↦ true ]

-- Files are saved, and a batch was begun before, but none is being received.
abbrev pub is_between_batches : Connection → Bool
is_between_batches c = c.save_files && (has_file c && not (file_open c))

-- The file that is open is the one that the handler holds.
abbrev IsHeld : Connection → Type 0
IsHeld c = (not (file_open c) || has_file c) ≡ true

abbrev Holds : Next → Type 0
Holds (goes_on c) = IsHeld c
Holds _ = Unit

-- How a connection may end: the handler returns with no file open, or a read fails. Then the open file is
-- flushed and closed, but between batches so is one that is closed already, which `none` stands for.
abbrev pub Ends : List Effect × Next → Type 0
Ends (effects, goes_on c) =
    open_after false (effects ++ on_read_error c)
    ≡ (if is_between_batches c then none else some false)
Ends (effects, returns) = open_after false effects ≡ some false
Ends (effects, stuck) = ⊥

open_after-on_read_error :
    (c : Connection)
    → IsHeld c
    → open_after (file_open c) (on_read_error c)
      ≡ (if is_between_batches c then none else some false)
unfolding on_read_error
open_after-on_read_error c held = ground arith

module _ (cbor : Cbor) where
  on_read-Holds :
      (answers : Answers) (c : Connection) (bytes : Bytes)
      → IsHeld c
      → Holds (on_read cbor answers c bytes).1
  unfolding on_read on_client_hello on_stream_start on_stream
  on_read-Holds answers c bytes held = ground arith

  handle_connection-Holds :
      (c : Connection) (reads : List (Answers × Bytes))
      → IsHeld c
      → Holds (handle_connection cbor c reads).1
  unfolding handle_connection
  handle_connection-Holds c [] held = held
  handle_connection-Holds c ((answers, bytes) ∷ reads) held =
      elim (Next-cases (on_read cbor answers c bytes).1) [
        | inl (d, go) ↦
            let still : IsHeld d = rw go at (on_read-Holds answers c bytes held) in
            rw (go, handle_connection) (handle_connection-Holds d reads still)
        | inr (inl e) ↦ rw (e, handle_connection) tt
        | inr (inr e) ↦ rw (e, handle_connection) tt
      ]

  Ends-of_Lands :
      (effects : List Effect) (end : Next)
      → Lands end (open_after false effects)
      → Holds end
      → Ends (effects, end)
  Ends-of_Lands effects (goes_on c) (files, v) held =
      open_after-append false effects (on_read_error c) files ∙ open_after-on_read_error c held
  Ends-of_Lands effects returns files held = files
  Ends-of_Lands effects stuck files held = absurd files

  -- A whole connection, whatever is sent, and whatever the operating system answers to writes and to the
  -- creation of files: it never gets stuck. As long as no read fails, a file is created only while none is
  -- open, and only an open one is written, flushed and closed; a file is open exactly while a stream is
  -- received and files are saved, and none is if the handler returns by itself. If a read fails, the open
  -- file is flushed and closed, so that none is left open, except that with files saved, behind a first
  -- batch and between batches, a file that is closed already is flushed and closed again.
  pub connection_files :
      (save : Bool) (path : Bytes) (reads : List (Answers × Bytes))
      → Lands
          (handle_connection cbor (open_connection save path) reads).1
          (open_after false (handle_connection cbor (open_connection save path) reads).0)
        × Ends (handle_connection cbor (open_connection save path) reads)
  unfolding open_connection
  connection_files save path reads =
      let c = open_connection save path in
      let lands = handle_connection-Lands cbor c reads empty-IsValid in
      (
        lands,
        Ends-of_Lands (handle_connection cbor c reads).0 (handle_connection cbor c reads).1 lands
            (handle_connection-Holds c reads refl),
      )
