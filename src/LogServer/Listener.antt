-- ===== src/LogServer/Listener.antt =====
-- LogServer/Server.go, `StartServer`: the loop that serves one log connection behind the other. What
-- `net.Listen` says of a port is a parameter.
pub mod Clients
use eight_sleep_pod2server.Prelude.{
  ℕ, Bool, true, false, Option, none, some, List, [], ◌∷◌, ◌++◌, Bytes, if◌then◌else◌,
}
use eight_sleep_pod2server.Prelude.Int.{ℤ}
use eight_sleep_pod2server.LogServer.Models.{State, client_hello}
use eight_sleep_pod2server.LogServer.Server.{
  Cbor, Answers, Effect, Next, goes_on, returns, stuck, open_connection, on_read_error,
  handle_connection,
}

-- The fields of the server that its methods use.
pub record LogServer : Type 0 where
  pub state : State
  pub save_files : Bool
  pub file_path : Bytes

-- The reads of a client up to the one that fails, with the operating system's answers.
abbrev pub Client : Type 0
Client = List (Answers × Bytes)

-- How `StartServer` ends: an accept fails, or it panics since it cannot listen. `out_of_fuel` is no Go
-- outcome.
pub data Ending : Type 0 where
  accept_failed panicked out_of_fuel : Ending

-- The end of a connection: its next read fails, or the handler has returned; `none` if it got stuck.
abbrev pub disconnect : List Effect × Next → Option (List Effect)
disconnect (effects, goes_on c) = some (effects ++ on_read_error c)
disconnect (effects, returns) = some effects
disconnect (effects, stuck) = none

module _ (cbor : Cbor) where
  -- `handleConnection` on a copy of the server.
  unfoldable pub serve_client : LogServer → Client → Option (List Effect)
  serve_client b reads = disconnect (
      handle_connection cbor (record (open_connection b.save_files b.file_path) { state = b.state })
        reads)

  -- What a client was served, before the loop goes on.
  abbrev pub behind_client :
      Option (List Effect) → List (List Effect) × Ending → List (List Effect) × Ending
  behind_client none later = ([], out_of_fuel)
  behind_client (some effects) (later, end) = (effects ∷ later, end)

  -- The loop over the accepted clients, up to the accept that fails.
  unfoldable pub accept_loop : LogServer → List Client → List (List Effect) × Ending
  accept_loop b [] = ([], accept_failed)
  accept_loop b (client ∷ clients) =
      behind_client (serve_client b client)
        (accept_loop (record b { state = client_hello }) clients)

  unfoldable pub start_server :
      (ℤ → Bool) → LogServer → Bool → Bytes → ℤ → List Client → List (List Effect) × Ending
  start_server listens b save_files file_path port clients =
      let started = record b {
        state = client_hello;
        save_files = save_files;
        file_path = file_path;
      } in
      if listens port then accept_loop started clients else ([], panicked)
