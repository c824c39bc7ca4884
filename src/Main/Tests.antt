-- ===== src/Main/Tests.antt =====
-- The start of the program with one port set, and a key file that is read or not.
use eight_sleep_pod2server.Prelude.{
  ◌≡◌, refl, Option, none, some, inl, inr, [], ◌∷◌, Bytes, arith, if◌then◌else◌,
}
use eight_sleep_pod2server.Prelude.Int.{pos}
use eight_sleep_pod2server.Prelude.Decimal.{itoa}
use eight_sleep_pod2server.Prelude.Text.{codes, text_eq}
use eight_sleep_pod2server.SparkServer.Signature.{PrivateKey}
use eight_sleep_pod2server.SparkServer.Server.{ParsedKey, KeyLibrary}
use eight_sleep_pod2server.Main.{
  log_server, spark_server, blocks, panicked, log_save, log_path, socket_path, main,
}
use eight_sleep_pod2server.Main.Start.{IsKeyFile, unread, servers_started, faulty_key_panics}

abbrev environment : Bytes → Bytes
environment name = if text_eq name (codes "LOG_PORT") then codes "8000" else []

abbrev key : PrivateKey
key = record { d = 3; n = 33; size = 13 }

abbrev library : Option Bytes → KeyLibrary
library file = record {
  read_file = λ path. file;
  pem_decode = λ dat. (some dat, []);
  parse_pkcs8_private_key = λ block. ParsedKey.rsa_key key;
}

port_set : codes "8000" ≡ itoa (pos 8000)
unfolding itoa
port_set = refl

key-IsKeyFile : IsKeyFile (library (some (1 ∷ []))) [] key
key-IsKeyFile = record { dat = 1 ∷ []; block = 1 ∷ []; read = refl; decoded = refl; parsed = refl }

servers_started_example : main (library (some (1 ∷ []))) environment ≡ (
  log_server (log_save environment) (log_path environment) (pos 8000)
      ∷ spark_server (record {
        server_private_key = key;
        port = pos 5683;
        socket_path = socket_path environment;
      })
      ∷ [],
  blocks,
)
servers_started_example =
    servers_started (library (some (1 ∷ []))) environment (pos 8000) (pos 5683) key (omega arith)
      (omega arith) (inl port_set) (inr (refl, refl)) key-IsKeyFile

faulty_key_panics_example :
    main (library none) environment
    ≡ (log_server (log_save environment) (log_path environment) (pos 8000) ∷ [], panicked)
faulty_key_panics_example =
    faulty_key_panics (library none) environment (pos 8000) (pos 5683) (omega arith) (omega arith)
      (inl port_set) (inr (refl, refl)) (unread refl)
