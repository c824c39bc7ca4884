-- ===== src/SparkServer/Pod.antt =====
-- The data of SparkServer/PodConnection.go and SparkServer/PodRequest.go: messages, requests, and the
-- fields of `PodConnection` that its methods read and write.
use eight_sleep_pod2server.Prelude.{
  ℕ, Bool, true, false, Option, none, some, List, [], Bytes, replicate,
}
use eight_sleep_pod2server.SparkServer.Cipher.{BlockCipher}

-- The message types, codes and options of go-coap that the server uses.
pub data MessageType : Type 0 where
  confirmable non_confirmable acknowledgement reset : MessageType

pub data Code : Type 0 where
  empty get post content : Code

pub data OptionId : Type 0 where
  uri_path uri_query : OptionId

pub record Message : Type 0 where
  pub type : MessageType
  pub code : Code
  pub message_id : ℕ
  pub token : Bytes
  pub options : List (OptionId × Bytes)
  pub payload : Bytes

-- A request, and `Response` with whether `Ready` is closed.
pub record PodRequest : Type 0 where
  pub message : Message
  pub response : Bytes
  pub ready : Bool

-- `NewPodRequest`
unfoldable pub new_pod_request : Message → PodRequest
new_pod_request msg = record { message = msg; response = []; ready = false }

-- `SetResponse`; `none` is the panic of closing a channel twice.
unfoldable pub set_response : PodRequest → Bytes → Option PodRequest
set_response pr resp = elim pr.ready [
  | true ↦ none
  | false ↦ some (record pr { response = resp; ready = true })
]

pub record PodConnection : Type 0 where
  -- nil before the handshake has chosen a key
  pub aes_cipher : Option BlockCipher
  pub incoming_iv : Bytes
  pub outgoing_iv : Bytes
  pub device_id : Bytes
  pub message_id : ℕ
  pub current_request : Option PodRequest

-- `NewPodConnection`
unfoldable pub new_pod_connection : PodConnection
new_pod_connection = record {
  aes_cipher = none;
  incoming_iv = replicate 16 0;
  outgoing_iv = replicate 16 0;
  device_id = replicate 12 0;
  message_id = 0;
  current_request = none;
}
