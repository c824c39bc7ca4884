-- ===== src/LogServer/Models.antt =====
-- LogServer/Models.go: the connection's states and the messages of the log protocol.
use eight_sleep_pod2server.Prelude.{ℕ, Bytes}

pub data State : Type 0 where
  client_hello waiting_for_stream_start receiving_stream : State

pub record WelcomeMessage : Type 0 where
  pub proto : Bytes
  pub version : Bytes
  pub part : Bytes
  pub device_id : Bytes

pub record WelcomeResponse : Type 0 where
  pub proto : Bytes
  pub part : Bytes

pub record FileAckResponse : Type 0 where
  pub proto : Bytes
  pub part : Bytes
  pub id : ℕ
