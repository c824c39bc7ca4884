-- ===== src/LogServer/Tests/Clients.antt =====
-- The log server on two clients, one of which breaks off in a stream.
use eight_sleep_pod2server.Prelude.{◌≡◌, refl, true, false, List, [], ◌∷◌, map, All}
use eight_sleep_pod2server.Prelude.Int.{pos}
use eight_sleep_pod2server.LogServer.Models.{receiving_stream}
use eight_sleep_pod2server.LogServer.Server.Fileless.{IsFileless}
use eight_sleep_pod2server.LogServer.Server.Session.{batch_reads}
use eight_sleep_pod2server.LogServer.Listener.{LogServer, Client, accept_failed, start_server}
use eight_sleep_pod2server.LogServer.Listener.Clients.{alone, log_clients_served, unsaved_no_files}
use eight_sleep_pod2server.LogServer.Tests.{cbor, well, path, batch}

abbrev fresh : LogServer
fresh = record { state = receiving_stream; save_files = true; file_path = [] }

abbrev clients : List Client
clients = ((well, 0xA0 ∷ []) ∷ batch_reads batch) ∷ ((well, 0xA0 ∷ []) ∷ []) ∷ []

log_clients_served_example :
    start_server cbor (λ port. true) fresh true path (pos 1337) clients
    ≡ (map (alone cbor true path) clients, accept_failed)
log_clients_served_example =
    log_clients_served cbor (λ port. true) fresh true path (pos 1337) clients refl

unsaved_no_files_example :
    All (All IsFileless) (start_server cbor (λ port. true) fresh false path (pos 1337) clients).0
unsaved_no_files_example = unsaved_no_files cbor (λ port. true) fresh path (pos 1337) clients
