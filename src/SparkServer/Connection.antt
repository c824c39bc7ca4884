-- ===== src/SparkServer/Connection.antt =====
-- SparkServer/PodConnection.go: sending, and the handling of the messages of one read. The CoAP library
-- is a parameter; whether the socket write fails, and the clock, come with each message.
pub mod Send
pub mod Dispatch
pub mod InStep
use eight_sleep_pod2server.Prelude.{
  ℕ, ◌+◌, ◌%◌, ◌^◌, Bool, true, false, ◌&&◌, not, ltb, length, drop, get_or, Option, none, some,
  List, [], ◌∷◌, ◌++◌, Bytes, ◌==◌, if◌then◌else◌,
}
use eight_sleep_pod2server.Prelude.Text.{codes, text_eq, put_uint32}
use eight_sleep_pod2server.SparkServer.Cipher.{BlockCipher}
use eight_sleep_pod2server.SparkServer.Frames.{
  uint16, frame, SplitResult, messages, failed, split_messages,
}
use eight_sleep_pod2server.SparkServer.Pod.{
  MessageType, confirmable, non_confirmable, acknowledgement, Code, OptionId, uri_path, Message,
  PodRequest, set_response, PodConnection,
}

-- A decoded message, as far as the server looks at it: `none` for the errors of `Path` and `ReadBody`.
pub record Incoming : Type 0 where
  pub type : MessageType
  pub message_id : ℕ
  pub token : Bytes
  pub path : Option Bytes
  pub body : Option Bytes

-- github.com/plgd-dev/go-coap: `MarshalWithEncoder` and `UnmarshalWithDecoder`.
pub record Coap : Type 0 where
  pub marshal : Message → Option Bytes
  pub unmarshal : Bytes → Option Incoming

-- What the world answers while one message is handled: the socket, and `time.Now().Unix()`.
pub record Answers : Type 0 where
  pub write_fails : Bool
  pub now : ℕ

-- The socket write, the answer to a waiting request, and `go c.connectToUnixSocket()`.
pub data Effect : Type 0 where
  write : Bytes → Effect
  respond : PodRequest → Effect
  connect_unix_socket : Effect

-- `sendMessage` returns nil or an error, in both cases with the message as it was changed, or panics on
-- a nil cipher. The slice is what it handed to the socket, if it came so far.
pub data SendResult : Type 0 where
  sent : Bytes → PodConnection → Message → SendResult
  write_failed : Bytes → PodConnection → Message → SendResult
  not_encoded : PodConnection → Message → SendResult
  nil_cipher : SendResult

abbrev pub is_acknowledgement : MessageType → Bool
is_acknowledgement acknowledgement = true
is_acknowledgement _ = false

abbrev pub is_confirmable : MessageType → Bool
is_confirmable confirmable = true
is_confirmable _ = false

-- The message id and the token that `sendMessage` gives, and the counter, a `uint8`, behind it.
unfoldable pub stamp : PodConnection → Message → PodConnection × Message
stamp c msg = if is_acknowledgement msg.type then (c, msg) else (
  record c { message_id = (c.message_id + 1) % 256 },
  record msg { message_id = c.message_id; token = c.message_id ∷ [] },
)

-- The part of `sendMessage` behind the stamp.
unfoldable pub transmit : (Message → Option Bytes) → Bool → PodConnection → Message → SendResult
transmit marshal write_fails c msg = elim (marshal msg) [
  | none ↦ not_encoded c msg
  | some output ↦ elim c.aes_cipher [
    | none ↦ nil_cipher
    | some k ↦
        let (final, next_iv) = frame k c.outgoing_iv output in
        if write_fails
        then write_failed final (record c { outgoing_iv = next_iv }) msg
        else sent final (record c { outgoing_iv = next_iv }) msg
  ]
]

-- How the handling of a message ends: the loop goes on, `HandleConnection` returns, or it panics.
-- `stuck` is no Go outcome: the fuel of `SplitMessages` ran out.
pub data Next : Type 0 where
  goes_on : PodConnection → Next
  returns : Next
  panics : Next
  stuck : Next

-- The answers of `handleKeepAlive` and `handleESpark`, of `handleHello`, and of `handleTimestamp`.
unfoldable pub empty_ack : Incoming → Message
empty_ack incoming = record {
  type = acknowledgement;
  code = Code.empty;
  message_id = incoming.message_id;
  token = incoming.token;
  options = [];
  payload = [];
}

pub hello : Message
hello = record {
  type = non_confirmable;
  code = Code.post;
  message_id = 0;
  token = [];
  options = (uri_path, codes "h") ∷ [];
  payload = [];
}

pub timestamp : Incoming → ℕ → Message
timestamp incoming now = record {
  type = acknowledgement;
  code = Code.content;
  message_id = incoming.message_id;
  token = incoming.token;
  options = [];
  payload = put_uint32 (now % 2 ^ 32);
}

-- `SplitMessages` with no cipher: `decrypt` panics on the first complete frame, and a read that holds
-- none is dropped.
unfoldable pub holds_frame : Bytes → Bool
holds_frame bytes =
    not (ltb (length bytes) 2)
    && not (ltb (length (drop 2 bytes)) (uint16 (get_or bytes 0 0) (get_or bytes 1 0)))

-- The branch for acknowledgements.
pub on_acknowledgement : PodConnection → Incoming → List Effect × Next
on_acknowledgement c msg = elim c.current_request [
  | none ↦ ([], goes_on c)
  | some cr ↦
      if msg.message_id == cr.message.message_id
      then elim msg.body [
        | none ↦ ([], goes_on c)
        | some body ↦ elim (set_response cr body) [
          | none ↦ ([], panics)
          | some answered ↦ (respond answered ∷ [], goes_on (record c { current_request = none }))
        ]
      ]
      else ([], goes_on c)
]

-- `url = "/"` if `Path` fails.
abbrev pub url_of : Incoming → Bytes
url_of msg = elim msg.path [ none ↦ codes "/" | some url ↦ url ]

module _ (coap : Coap) where
  unfoldable pub send_message : Bool → PodConnection → Message → SendResult
  send_message write_fails c msg =
      let (c', msg') = stamp c msg in transmit coap.marshal write_fails c' msg'

  -- A handler that sends one message and hands its error up, with what follows a success.
  unfoldable pub reply : Answers → PodConnection → Message → List Effect → List Effect × Next
  reply answers c msg behind = elim (send_message answers.write_fails c msg) [
    | sent final c' msg' ↦ (write final ∷ behind, goes_on c')
    | write_failed final c' msg' ↦ (write final ∷ [], returns)
    | not_encoded c' msg' ↦ ([], returns)
    | nil_cipher ↦ ([], panics)
  ]

  -- The `switch url`.
  pub on_url : Answers → PodConnection → Incoming → Bytes → List Effect × Next
  on_url answers c msg url =
      if text_eq url (codes "/h")
      then reply answers c hello (connect_unix_socket ∷ [])
      else if text_eq url (codes "/e/spark")
      then reply answers c (empty_ack msg) []
      else if text_eq url (codes "/t")
      then reply answers c (timestamp msg answers.now) []
      else ([], goes_on c)

  -- The body of the loop over the messages, behind the decoding.
  unfoldable pub handle_message : Answers → PodConnection → Incoming → List Effect × Next
  handle_message answers c msg =
      if text_eq (url_of msg) (codes "/") && is_confirmable msg.type
      then reply answers c (empty_ack msg) []
      else if is_acknowledgement msg.type
      then on_acknowledgement c msg
      else on_url answers c msg (url_of msg)

  -- The loop over the messages of one read, with the answers for the message of each index.
  unfoldable pub handle_messages :
      (ℕ → Answers) → ℕ → PodConnection → List Bytes → List Effect × Next
  handle_messages answers i c [] = ([], goes_on c)
  handle_messages answers i c (msg ∷ msgs) = elim (coap.unmarshal msg) [
    | none ↦ ([], returns)
    | some incoming ↦
        let (effects, next) = handle_message (answers i) c incoming in
        elim next [
          | goes_on c' ↦
              let (later, end) = handle_messages answers (i + 1) c' msgs in (effects ++ later, end)
          | returns ↦ (effects, returns)
          | panics ↦ (effects, panics)
          | stuck ↦ (effects, stuck)
        ]
  ]

  -- One round of `podRequestHandler` up to the wait: the request becomes the current one and is sent. An
  -- error of the send is only logged, and leaves it the current one.
  pub start_request : Bool → PodConnection → PodRequest → List Effect × Next
  start_request write_fails c req =
      let current = record c { current_request = some req } in
      elim (send_message write_fails current req.message) [
        | sent final c' msg' ↦ (
          write final ∷ [],
          goes_on (record c' { current_request = some (record req { message = msg' }) }),
        )
        | write_failed final c' msg' ↦ (
          write final ∷ [],
          goes_on (record c' { current_request = some (record req { message = msg' }) }),
        )
        | not_encoded c' msg' ↦
            ([], goes_on (record c' { current_request = some (record req { message = msg' }) }))
        | nil_cipher ↦ ([], panics)
      ]

  -- One read of `HandleConnection`.
  unfoldable pub handle_read : (ℕ → Answers) → PodConnection → Bytes → List Effect × Next
  handle_read answers c bytes = elim c.aes_cipher [
    | none ↦ if holds_frame bytes then ([], panics) else ([], goes_on c)
    | some k ↦ elim (split_messages k c.incoming_iv bytes) [
      | messages msgs next_iv ↦ handle_messages answers 0 (record c { incoming_iv = next_iv }) msgs
      | failed ↦ ([], returns)
      | SplitResult.panicked ↦ ([], panics)
      | SplitResult.stuck ↦ ([], stuck)
    ]
  ]
