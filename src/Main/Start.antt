-- ===== src/Main/Start.antt =====
-- Which servers are started, and with what.
use mathlib.Core.Option.{some-injective}
use eight_sleep_pod2server.Prelude.{
  ◌≡◌, ◌≢◌, refl, ◌⊎◌, inl, inr, Option, none, some, [], ◌∷◌, Bytes,
}
use eight_sleep_pod2server.Prelude.Int.{ℤ, pos, IsInt64}
use eight_sleep_pod2server.Prelude.Decimal.{itoa, atoi}
use eight_sleep_pod2server.Prelude.Decimal.RoundTrip.{atoi-itoa}
use eight_sleep_pod2server.Prelude.Text.{codes}
use eight_sleep_pod2server.SparkServer.Signature.{PrivateKey}
use eight_sleep_pod2server.SparkServer.Server.{
  ParsedKey, KeyLibrary, server_of, decode_key, new_server,
}
use eight_sleep_pod2server.Main.{
  log_server, spark_server, blocks, panicked, or_default, log_path, log_save, socket_path,
  start_spark, main,
}

-- The value of a port's variable: the port in digits, or nothing for the default.
abbrev pub IsPort : ℤ → Bytes → ℤ → Type 0
IsPort default value port = (value ≡ itoa port) ⊎ ((value ≡ []) × (port ≡ default))

-- The file holds an RSA key, in one PEM block with nothing behind it.
pub record IsKeyFile (library : KeyLibrary) (path : Bytes) (key : PrivateKey) : Type 0 where
  pub dat : Bytes
  pub block : Bytes
  pub read : library.read_file path ≡ some dat
  pub decoded : library.pem_decode dat ≡ (some block, [])
  pub parsed : library.parse_pkcs8_private_key block ≡ ParsedKey.rsa_key key

-- What may be wrong with the key's file.
pub data IsFaultyKeyFile (library : KeyLibrary) (path : Bytes) : Type 0 where
  unread : library.read_file path ≡ none → IsFaultyKeyFile library path
  not_pem :
      (dat : Bytes)
      → library.read_file path ≡ some dat
      → (library.pem_decode dat).0 ≡ none
      → IsFaultyKeyFile library path
  followed :
      (dat : Bytes)
      → library.read_file path ≡ some dat
      → (library.pem_decode dat).1 ≢ []
      → IsFaultyKeyFile library path
  not_rsa :
      (dat block : Bytes)
      → library.read_file path ≡ some dat
      → (library.pem_decode dat).0 ≡ some block
      → ((key : PrivateKey) → library.parse_pkcs8_private_key block ≢ ParsedKey.rsa_key key)
      → IsFaultyKeyFile library path

or_default-atoi :
    (default value : Bytes) (port : ℤ) → atoi value ≡ some port → or_default default value ≡ value
unfolding atoi
or_default-atoi default [] port e = absurd (cc)
or_default-atoi default (b ∷ value) port e = refl

log_default : atoi (codes "1337") ≡ some (pos 1337)
unfolding atoi
log_default = refl

spark_default : atoi (codes "5683") ≡ some (pos 5683)
unfolding atoi
spark_default = refl

atoi-port :
    (text value : Bytes) (default port : ℤ)
    → atoi text ≡ some default
    → IsInt64 port
    → IsPort default value port
    → atoi (or_default text value) ≡ some port
atoi-port text value default port e fits (inl spelled) =
    let read : atoi value ≡ some port = rw spelled (atoi-itoa port fits) in
    rw (or_default-atoi text value port read) read
atoi-port text value default port e fits (inr (empty, same)) = rw (empty, same) e

new_server-key :
    (library : KeyLibrary) (path socket : Bytes) (port : ℤ) (key : PrivateKey)
    → IsKeyFile library path key
    → new_server library path port socket
      ≡ some (record { server_private_key = key; port = port; socket_path = socket })
unfolding new_server decode_key server_of
new_server-key library path socket port key file =
    rw (new_server, file.read, file.decoded, file.parsed) refl

server_of-faulty :
    (port : ℤ) (socket : Bytes) (parsed : ParsedKey)
    → ((key : PrivateKey) → parsed ≢ ParsedKey.rsa_key key)
    → server_of port socket parsed ≡ none
unfolding server_of
server_of-faulty port socket ParsedKey.unparsable wrong = refl
server_of-faulty port socket ParsedKey.other_key wrong = refl
server_of-faulty port socket (ParsedKey.rsa_key key) wrong = absurd (wrong key refl)

decode_key-unframed :
    (library : KeyLibrary) (port : ℤ) (socket : Bytes) (pem : Option Bytes × Bytes)
    → (pem.0 ≡ none) ⊎ (pem.1 ≢ [])
    → decode_key library port socket pem ≡ none
unfolding decode_key
decode_key-unframed library port socket (out, b ∷ rest) h = refl
decode_key-unframed library port socket (none, []) h = refl
decode_key-unframed library port socket (some block, []) (inl e) = absurd (cc)
decode_key-unframed library port socket (some block, []) (inr more) = absurd (more refl)

decode_key-not_rsa :
    (library : KeyLibrary) (port : ℤ) (socket : Bytes) (pem : Option Bytes × Bytes) (block : Bytes)
    → pem.0 ≡ some block
    → ((key : PrivateKey) → library.parse_pkcs8_private_key block ≢ ParsedKey.rsa_key key)
    → decode_key library port socket pem ≡ none
unfolding decode_key
decode_key-not_rsa library port socket (out, b ∷ rest) block e wrong = refl
decode_key-not_rsa library port socket (none, []) block e wrong = refl
decode_key-not_rsa library port socket (some held, []) block e wrong =
    server_of-faulty port socket (library.parse_pkcs8_private_key held)
      (λ key. λ same. wrong key (rw (some-injective _ _ e) at same))

new_server-faulty :
    (library : KeyLibrary) (path socket : Bytes) (port : ℤ)
    → IsFaultyKeyFile library path
    → new_server library path port socket ≡ none
unfolding new_server
new_server-faulty library path socket port (unread e) = rw (new_server, e) refl
new_server-faulty library path socket port (not_pem dat e bad) =
    rw (new_server, e) (decode_key-unframed library port socket (library.pem_decode dat) (inl bad))
new_server-faulty library path socket port (followed dat e more) =
    rw (new_server, e) (decode_key-unframed library port socket (library.pem_decode dat) (inr more))
new_server-faulty library path socket port (not_rsa dat block e held wrong) =
    rw (new_server, e)
      (decode_key-not_rsa library port socket (library.pem_decode dat) block held wrong)

module _ (library : KeyLibrary) (getenv : Bytes → Bytes) (log spark : ℤ) where
  -- If `LOG_PORT` and `SPARK_PORT` are 64-bit integers in digits, or empty for 1337 and 5683, and the file
  -- at `KEY_PATH` holds an RSA key in one PEM block with nothing behind it, the program starts the log
  -- server with its port, the value of `LOG_SAVE_FILES` and its path, then the control server with the
  -- key, its port and the path of the socket, and blocks.
  pub servers_started :
      (key : PrivateKey)
      → IsInt64 log
      → IsInt64 spark
      → IsPort (pos 1337) (getenv (codes "LOG_PORT")) log
      → IsPort (pos 5683) (getenv (codes "SPARK_PORT")) spark
      → IsKeyFile library (getenv (codes "KEY_PATH")) key
      → main library getenv ≡ (
        log_server (log_save getenv) (log_path getenv) log
            ∷ spark_server (record {
              server_private_key = key;
              port = spark;
              socket_path = socket_path getenv;
            })
            ∷ [],
        blocks,
      )
  unfolding main start_spark
  servers_started key log_fits spark_fits log_is spark_is file =
      rw
        (
          main,
          atoi-port (codes "1337") _ (pos 1337) log log_default log_fits log_is,
          start_spark,
          atoi-port (codes "5683") _ (pos 5683) spark spark_default spark_fits spark_is,
          new_server-key library (getenv (codes "KEY_PATH")) (socket_path getenv) spark key file,
        )
        refl

  -- If `LOG_PORT` and `SPARK_PORT` are 64-bit integers in digits, or empty, but the file at `KEY_PATH` cannot
  -- be read, holds no PEM block, holds bytes behind the block, or holds no RSA key, the program panics,
  -- and the log server has been started before.
  pub faulty_key_panics :
      IsInt64 log
      → IsInt64 spark
      → IsPort (pos 1337) (getenv (codes "LOG_PORT")) log
      → IsPort (pos 5683) (getenv (codes "SPARK_PORT")) spark
      → IsFaultyKeyFile library (getenv (codes "KEY_PATH"))
      → main library getenv ≡ (log_server (log_save getenv) (log_path getenv) log ∷ [], panicked)
  unfolding main start_spark
  faulty_key_panics log_fits spark_fits log_is spark_is faulty =
      rw
        (
          main,
          atoi-port (codes "1337") _ (pos 1337) log log_default log_fits log_is,
          start_spark,
          atoi-port (codes "5683") _ (pos 5683) spark spark_default spark_fits spark_is,
          new_server-faulty library (getenv (codes "KEY_PATH")) (socket_path getenv) spark faulty,
        )
        refl
