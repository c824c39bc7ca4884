-- ===== src/SparkServer/Server.antt =====
-- SparkServer/Server.go: the private key, and the loop that serves one pod behind the other. The file
-- system, the PEM and the X.509 library are parameters, and so is what `net.Listen` says of a port.
pub mod Clients
use eight_sleep_pod2server.Prelude.{
  ℕ, Bool, true, false, Option, none, some, List, [], ◌∷◌, Bytes, if◌then◌else◌,
}
use eight_sleep_pod2server.Prelude.Int.{ℤ}
use eight_sleep_pod2server.SparkServer.Signature.{PrivateKey}
use eight_sleep_pod2server.SparkServer.Pod.{new_pod_connection}
use eight_sleep_pod2server.SparkServer.Handshake.{Environment}
use eight_sleep_pod2server.SparkServer.Connection.{
  Coap, Effect, Next, goes_on, returns, panics, stuck,
}
use eight_sleep_pod2server.SparkServer.Session.{Read, handle_connection}

-- What `x509.ParsePKCS8PrivateKey` makes of a slice: an error, a key of another kind, or an RSA key.
pub data ParsedKey : Type 0 where
  unparsable other_key : ParsedKey
  rsa_key : PrivateKey → ParsedKey

-- `os.ReadFile`, with `none` for an error; `pem.Decode`, with `none` for a nil block, and the rest of the
-- input; and the parser of the block.
pub record KeyLibrary : Type 0 where
  pub read_file : Bytes → Option Bytes
  pub pem_decode : Bytes → Option Bytes × Bytes
  pub parse_pkcs8_private_key : Bytes → ParsedKey

pub record Server : Type 0 where
  pub server_private_key : PrivateKey
  pub port : ℤ
  pub socket_path : Bytes

-- The type assertion behind the parser. `none` is a panic, here and below.
unfoldable pub server_of : ℤ → Bytes → ParsedKey → Option Server
server_of port socket_path unparsable = none
server_of port socket_path other_key = none
server_of port socket_path (rsa_key key) =
    some (record { server_private_key = key; port = port; socket_path = socket_path })

-- From `pem.Decode` on: bytes behind the block are a panic, and so is `out.Bytes` of no block.
unfoldable pub decode_key : KeyLibrary → ℤ → Bytes → Option Bytes × Bytes → Option Server
decode_key library port socket_path (out, b ∷ rest) = none
decode_key library port socket_path (none, []) = none
decode_key library port socket_path (some block, []) =
    server_of port socket_path (library.parse_pkcs8_private_key block)

unfoldable pub new_server : KeyLibrary → Bytes → ℤ → Bytes → Option Server
new_server library key_path port socket_path = elim (library.read_file key_path) [
  | none ↦ none
  | some dat ↦ decode_key library port socket_path (library.pem_decode dat)
]

-- A client that is accepted: what its handshake meets, but for the signing key, which is the server's,
-- and its reads up to the one that fails.
pub record Client (K : Type 0) : Type 0 where
  pub env : Environment K
  pub coap : Coap
  pub reads : List Read

-- What was written to a client in its handshake, and behind it.
abbrev pub Served : Type 0
Served = List Bytes × List Effect

-- How `StartServer` ends: an accept fails, or it panics, and with it the program. `stuck` is no Go
-- outcome.
pub data Ending : Type 0 where
  accept_failed panicked out_of_fuel : Ending

unfoldable pub handle_client : {K : Type 0} → Server → Client K → List Bytes × (List Effect × Next)
handle_client server client =
    handle_connection (record client.env { signing_key = server.server_private_key }) client.coap
      new_pod_connection client.reads

-- Behind a client that is gone, or at whose next read the connection is found closed, comes the next.
abbrev pub behind_client :
    List Bytes × (List Effect × Next) → List Served × Ending → List Served × Ending
behind_client (written, (effects, goes_on c)) (later, end) = ((written, effects) ∷ later, end)
behind_client (written, (effects, returns)) (later, end) = ((written, effects) ∷ later, end)
behind_client (written, (effects, panics)) (later, end) = ((written, effects) ∷ [], panicked)
behind_client (written, (effects, stuck)) (later, end) = ((written, effects) ∷ [], out_of_fuel)

-- The loop over the accepted clients, up to the accept that fails.
abbrev pub accept_loop : {K : Type 0} → Server → List (Client K) → List Served × Ending
accept_loop server [] = ([], accept_failed)
accept_loop server (client ∷ clients) =
    behind_client (handle_client server client) (accept_loop server clients)

unfoldable pub start_server :
    {K : Type 0} → (ℤ → Bool) → Server → List (Client K) → List Served × Ending
start_server listens server clients =
    if listens server.port then accept_loop server clients else ([], panicked)
