-- ===== src/Main.antt =====
-- main.go: the configuration from the environment, and the start of the two servers.
pub mod Start
mod Tests
use eight_sleep_pod2server.Prelude.{ℕ, Bool, true, false, Option, none, some, List, [], ◌∷◌, Bytes}
use eight_sleep_pod2server.Prelude.Int.{ℤ}
use eight_sleep_pod2server.Prelude.Decimal.{atoi}
use eight_sleep_pod2server.Prelude.Text.{codes, text_eq}
use eight_sleep_pod2server.SparkServer.Server.{KeyLibrary, Server, new_server}

-- `go logServer.StartServer(...)` and `go server.StartServer()`.
pub data Started : Type 0 where
  log_server : Bool → Bytes → ℤ → Started
  spark_server : Server → Started

pub data Ending : Type 0 where
  blocks panicked : Ending

-- `if value == "" { value = ... }`
abbrev pub or_default : Bytes → Bytes → Bytes
or_default default [] = default
or_default default (b ∷ value) = b ∷ value

-- `os.Getenv`, which gives the empty string for a variable that is not set.
module _ (getenv : Bytes → Bytes) where
  abbrev pub log_path : Bytes
  log_path = or_default (codes "./logs") (getenv (codes "LOG_PATH"))

  abbrev pub log_port : Bytes
  log_port = or_default (codes "1337") (getenv (codes "LOG_PORT"))

  abbrev pub log_save : Bool
  log_save = text_eq (getenv (codes "LOG_SAVE_FILES")) (codes "true")

  abbrev pub socket_path : Bytes
  socket_path = or_default (codes "/deviceinfo/dac.sock") (getenv (codes "SOCKET_PATH"))

  abbrev pub spark_port : Bytes
  spark_port = or_default (codes "5683") (getenv (codes "SPARK_PORT"))

module _ (library : KeyLibrary) (getenv : Bytes → Bytes) where
  -- Behind the start of the log server.
  unfoldable pub start_spark : List Started × Ending
  start_spark = elim (atoi (spark_port getenv)) [
    | none ↦ ([], panicked)
    | some port ↦ elim (new_server library (getenv (codes "KEY_PATH")) port (socket_path getenv)) [
      | none ↦ ([], panicked)
      | some server ↦ (spark_server server ∷ [], blocks)
    ]
  ]

  unfoldable pub main : List Started × Ending
  main = elim (atoi (log_port getenv)) [
    | none ↦ ([], panicked)
    | some port ↦
        let (later, end) = start_spark in
        (log_server (log_save getenv) (log_path getenv) port ∷ later, end)
  ]
