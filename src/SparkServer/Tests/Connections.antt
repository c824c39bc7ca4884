-- ===== src/SparkServer/Tests/Connections.antt =====
-- Connections of the control server on small inputs.
use mathlib.Core.Path.{subst}
use eight_sleep_pod2server.Prelude.{
  ℕ, zero, suc, ◌+◌, ◌≡◌, ◌≢◌, refl, true, false, none, some, List, [], ◌∷◌, Bytes, replicate,
  get_or, All, arith,
}
use eight_sleep_pod2server.SparkServer.Cipher.{encrypt, cbc_encrypt, pad}
use eight_sleep_pod2server.SparkServer.Frames.{messages, split_messages, frame}
use eight_sleep_pod2server.SparkServer.Frames.RoundTrip.{IsMessage}
use eight_sleep_pod2server.SparkServer.Pod.{
  confirmable, acknowledgement, Code, Message, new_pod_request, PodConnection, new_pod_connection,
}
use eight_sleep_pod2server.SparkServer.Connection.{
  holds_frame, Next, Incoming, Coap, Answers, Effect, write, respond, goes_on, stamp,
  handle_message, handle_messages, start_request, reply, transmit, send_message, empty_ack,
}
use eight_sleep_pod2server.SparkServer.Connection.Send.{
  IsRequest, stamped_ids, stamped_ids_distinct,
}
use eight_sleep_pod2server.SparkServer.Connection.Dispatch.{wire, Keeps}
use eight_sleep_pod2server.SparkServer.Connection.InStep.{
  handle_messages-Keeps, peer_in_step, request_answered,
}
use eight_sleep_pod2server.SparkServer.Session
use eight_sleep_pod2server.SparkServer.Session.Served.{Sending, reads_of, iv_behind, client_served}
use eight_sleep_pod2server.SparkServer.Tests.{
  k, k-IsBlockCipher, zeros, All_same, zeros-IsBlock, texts, texts-IsMessage, padded, nonce,
  client_response, environment, answered_rightly, proved,
}

-- A connection behind the handshake.
abbrev keyed : PodConnection
keyed = record {
  aes_cipher = some k;
  incoming_iv = zeros;
  outgoing_iv = zeros;
  device_id = [];
  message_id = 0;
  current_request = none;
}

abbrev question : Message
question = record {
  type = confirmable;
  code = Code.get;
  message_id = 0;
  token = [];
  options = [];
  payload = [];
}

abbrev questions : List Message
questions = replicate 258 question

All_question : (n : ℕ) → All IsRequest (replicate n question)
All_question zero = tt
All_question (suc n) = (refl, All_question n)

stamped_ids_distinct_example :
    (get_or (stamped_ids keyed questions) 1 0 ≢ get_or (stamped_ids keyed questions) (1 + 255) 0)
    × (get_or (stamped_ids keyed questions) 1 0 ≡ get_or (stamped_ids keyed questions) (1 + 256) 0)
stamped_ids_distinct_example =
    stamped_ids_distinct keyed questions 1 255 (omega arith) (All_question 258) (omega arith)
      (omega arith) (omega arith)

-- Every message is encoded as the byte 7, and every slice is decoded as a ping.
abbrev pub coap : Coap
coap = record {
  marshal = λ message. some (7 ∷ []);
  unmarshal = λ bytes.
      some (record { type = confirmable; message_id = 4; token = []; path = none; body = some [] });
}

abbrev pub answers : ℕ → Answers
answers i = record { write_fails = false; now = 0 }

handle_messages-Keeps_example :
    Keeps coap k keyed
      (handle_messages coap answers 0 keyed texts).0
      (handle_messages coap answers 0 keyed texts).1
handle_messages-Keeps_example = handle_messages-Keeps coap k answers 0 keyed texts refl tt

-- The block of the byte 7 with its padding, enciphered.
abbrev pong : Bytes
pong = 7 ∷ replicate 15 15

ping_handled :
    handle_messages coap answers 0 keyed ((1 ∷ []) ∷ [])
    ≡ (write (0 ∷ 16 ∷ pong) ∷ [], goes_on (record keyed { outgoing_iv = pong }))
unfolding handle_messages handle_message reply send_message stamp transmit empty_ack frame encrypt
    cbc_encrypt pad
ping_handled = refl

seven-IsMessage : (m : Message) (o : Bytes) → coap.marshal m ≡ some o → IsMessage o
seven-IsMessage m o made =
    let same : 7 ∷ [] ≡ o = cc in subst IsMessage same ((omega arith, tt), omega arith)

peer_in_step_example :
    (outs : List Bytes) × All (λ o. (m : Message) × (coap.marshal m ≡ some o)) outs
    × (split_messages k zeros (wire (write (0 ∷ 16 ∷ pong) ∷ [])) ≡ messages outs pong)
peer_in_step_example =
    peer_in_step coap k answers keyed (record keyed { outgoing_iv = pong }) ((1 ∷ []) ∷ [])
      (write (0 ∷ 16 ∷ pong) ∷ []) k-IsBlockCipher seven-IsMessage zeros-IsBlock refl tt
      ping_handled

abbrev answer : Incoming
answer = record {
  type = acknowledgement;
  message_id = 0;
  token = [];
  path = none;
  body = some (3 ∷ []);
}

request_answered_example :
    (c' : PodConnection) × (wrote : List Effect) × (start_request coap false keyed
        (new_pod_request question)
      ≡ (wrote, goes_on c'))
    × (handle_message coap (answers 0) c' answer ≡ (
      respond (record (new_pod_request question) {
        message = record question { message_id = 0; token = 0 ∷ [] };
        response = 3 ∷ [];
        ready = true;
      })
          ∷ [],
      goes_on (record c' { current_request = none }),
    ))
request_answered_example =
    request_answered coap k (answers 0) keyed question (7 ∷ []) answer (3 ∷ []) refl refl refl refl
      refl

pub holds_empty : holds_frame (0 ∷ 0 ∷ []) ≡ true
unfolding holds_frame
holds_empty = refl

abbrev pub sends : List Sending
sends = (answers, texts) ∷ (answers, (1 ∷ []) ∷ []) ∷ []

abbrev shared : PodConnection
shared = record new_pod_connection {
  aes_cipher = some k;
  device_id = replicate 12 2;
  incoming_iv = iv_behind k (replicate 16 3) sends;
  outgoing_iv = replicate 16 3;
}

client_served_example :
    (blob : Bytes) × (written : List Effect) × (end : Next) × (Session.handle_connection
        (environment nonce client_response)
        coap
        new_pod_connection
        (reads_of k (replicate 16 3) sends)
      ≡ (nonce ∷ blob ∷ [], (written, end)))
    × Keeps coap k shared written end
client_served_example =
    client_served (environment nonce client_response) coap nonce client_response (replicate 40 3)
      (replicate 128 4) padded tt k sends answered_rightly refl proved k-IsBlockCipher
      (record { sized = refl; bytes = All_same 3 16 (omega arith) })
      (texts-IsMessage, ((((omega arith, tt), omega arith), tt), tt))
