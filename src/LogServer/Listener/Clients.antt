-- ===== src/LogServer/Listener/Clients.antt =====
-- Many log connections.
use eight_sleep_pod2server.Prelude.{
  ◌≡◌, refl, Bool, true, false, Option, some, List, [], ◌∷◌, ◌++◌, Bytes, map, All, All-append,
  All-map, inl, inr, Bool-cases,
}
use eight_sleep_pod2server.Prelude.Int.{ℤ}
use eight_sleep_pod2server.LogServer.CircularBuffer.Refine.{empty-IsValid}
use eight_sleep_pod2server.LogServer.Models.{client_hello}
use eight_sleep_pod2server.LogServer.Server.{
  Cbor, Effect, Next, goes_on, returns, stuck, open_connection, on_read_error, handle_connection,
}
use eight_sleep_pod2server.LogServer.Server.Files.{Lands, handle_connection-Lands}
use eight_sleep_pod2server.LogServer.Server.Fileless.{
  IsFileless, IsUnsaving, on_read_error-Fileless, handle_connection-Fileless,
}
use eight_sleep_pod2server.LogServer.Listener.{
  LogServer, Client, accept_failed, disconnect, serve_client, accept_loop, start_server,
}

-- What a connection does up to its disconnect.
abbrev pub effects_of : List Effect × Next → List Effect
effects_of (effects, goes_on c) = effects ++ on_read_error c
effects_of (effects, returns) = effects
effects_of (effects, stuck) = effects

disconnect-Lands :
    (effects : List Effect) (end : Next) (files : Option Bool)
    → Lands end files
    → disconnect (effects, end) ≡ some (effects_of (effects, end))
disconnect-Lands effects (goes_on c) files h = refl
disconnect-Lands effects returns files h = refl
disconnect-Lands effects stuck files h = absurd h

effects_of-Fileless :
    (effects : List Effect) (end : Next)
    → All IsFileless effects
    → IsUnsaving end
    → All IsFileless (effects_of (effects, end))
effects_of-Fileless effects (goes_on c) h off =
    All-append IsFileless _ _ h (on_read_error-Fileless c off)
effects_of-Fileless effects returns h off = h
effects_of-Fileless effects stuck h off = h

module _ (cbor : Cbor) where
  -- A client alone, on a server that was just started.
  abbrev pub alone : Bool → Bytes → Client → List Effect
  alone save path reads = effects_of (handle_connection cbor (open_connection save path) reads)

  accept_loop-alone :
      (save : Bool) (path : Bytes) (clients : List Client)
      → accept_loop cbor
          (record { state = client_hello; save_files = save; file_path = path })
          clients
        ≡ (map (alone save path) clients, accept_failed)
  unfolding accept_loop serve_client open_connection
  accept_loop-alone save path [] = refl
  accept_loop-alone save path (client ∷ clients) =
      let c = open_connection save path in
      rw
        (
          accept_loop-alone save path clients,
          disconnect-Lands (handle_connection cbor c client).0 (handle_connection cbor c client).1 _
              (handle_connection-Lands cbor c client empty-IsValid),
        )
        refl

  -- If the port can be listened on, the log server runs until an accept fails, whatever its clients send
  -- and whatever the operating system answers them, and does for each client, in the order of the
  -- accepts, what it would do if the client were the only one.
  pub log_clients_served :
      (listens : ℤ → Bool) (b : LogServer) (save : Bool) (path : Bytes) (port : ℤ)
      (clients : List Client)
      → listens port ≡ true
      → start_server cbor listens b save path port clients
        ≡ (map (alone save path) clients, accept_failed)
  unfolding start_server
  log_clients_served listens b save path port clients listening =
      rw listening (accept_loop-alone save path clients)

  alone-Fileless : (path : Bytes) (reads : Client) → All IsFileless (alone false path reads)
  unfolding open_connection
  alone-Fileless path reads =
      let (h, off) = handle_connection-Fileless cbor (open_connection false path) reads refl in
      effects_of-Fileless _ _ h off

  -- Without saving, the log server creates, writes, flushes and closes no file, whatever its clients send.
  pub unsaved_no_files :
      (listens : ℤ → Bool) (b : LogServer) (path : Bytes) (port : ℤ) (clients : List Client)
      → All (All IsFileless) (start_server cbor listens b false path port clients).0
  unfolding start_server
  unsaved_no_files listens b path port clients = elim (Bool-cases (listens port)) [
    | inl listening ↦
        rw (listening, accept_loop-alone false path clients)
          (All-map _ _ clients (alone-Fileless path))
    | inr refused ↦ rw refused tt
  ]
