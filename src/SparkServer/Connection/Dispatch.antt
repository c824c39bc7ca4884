-- ===== src/SparkServer/Connection/Dispatch.antt =====
-- What the handling of decoded messages keeps: the cipher, the order of what is written, and the
-- request that waits.
use eight_sleep_pod2server.Prelude.{
  ◌≡◌, refl, ap, sym, ◌∙◌, Bool, true, false, ◌&&◌, Option, none, some, ◌⊎◌, inl, inr, List, [],
  ◌∷◌, ◌++◌, Bytes, All, arith, append_assoc, ◌==◌, Option-cases, Bool-cases,
}
use eight_sleep_pod2server.Prelude.Text.{text_eq, codes}
use eight_sleep_pod2server.SparkServer.Cipher.{BlockCipher}
use eight_sleep_pod2server.SparkServer.Frames.{frame}
use eight_sleep_pod2server.SparkServer.Frames.RoundTrip.{frames, iv_after}
use eight_sleep_pod2server.SparkServer.Pod.{Message, PodRequest, set_response, PodConnection}
use eight_sleep_pod2server.SparkServer.Connection.{
  Incoming, Coap, Answers, Effect, write, respond, connect_unix_socket, sent, write_failed,
  not_encoded, is_acknowledgement, is_confirmable, stamp, transmit, Next, goes_on, returns, panics,
  send_message, reply, on_acknowledgement, on_url, handle_message, url_of, empty_ack, hello,
  timestamp,
}

-- The bytes that effects put on the wire.
abbrev pub wire : List Effect → Bytes
wire [] = []
wire (write b ∷ es) = b ++ wire es
wire (respond r ∷ es) = wire es
wire (connect_unix_socket ∷ es) = wire es

pub wire-append : (es fs : List Effect) → wire (es ++ fs) ≡ wire es ++ wire fs
wire-append [] fs = refl
wire-append (write b ∷ es) fs =
    ap (λ t. b ++ t) (wire-append es fs) ∙ sym (append_assoc b (wire es) (wire fs))
wire-append (respond r ∷ es) fs = wire-append es fs
wire-append (connect_unix_socket ∷ es) fs = wire-append es fs

pub frames-append :
    (k : BlockCipher) (iv : Bytes) (xs ys : List Bytes)
    → frames k iv (xs ++ ys) ≡ frames k iv xs ++ frames k (iv_after k iv xs) ys
frames-append k iv [] ys = refl
frames-append k iv (x ∷ xs) ys =
    ap (λ t. (frame k iv x).0 ++ t) (frames-append k (frame k iv x).1 xs ys)
    ∙ sym (append_assoc (frame k iv x).0 _ _)

pub iv_after-append :
    (k : BlockCipher) (iv : Bytes) (xs ys : List Bytes)
    → iv_after k iv (xs ++ ys) ≡ iv_after k (iv_after k iv xs) ys
iv_after-append k iv [] ys = refl
iv_after-append k iv (x ∷ xs) ys = iv_after-append k (frame k iv x).1 xs ys

-- The request that waits has not been answered.
abbrev pub IsWaiting : Option PodRequest → Type 0
IsWaiting none = Unit
IsWaiting (some r) = r.ready ≡ false

-- From `c` to `c'` with some effects: what went over the wire is the frames of encoded messages in
-- order, each with the vector that the last one left.
pub record Synced (coap : Coap) (k : BlockCipher) (c : PodConnection) (es : List Effect)
    (c' : PodConnection) : Type 0 where
  pub outputs : List Bytes
  pub encoded : All (λ o. (m : Message) × (coap.marshal m ≡ some o)) outputs
  pub spelled : wire es ≡ frames k c.outgoing_iv outputs
  pub vector : c'.outgoing_iv ≡ iv_after k c.outgoing_iv outputs
  pub cipher : c'.aes_cipher ≡ some k
  pub incoming : c'.incoming_iv ≡ c.incoming_iv
  pub waiting : IsWaiting c'.current_request

-- If the handler goes on, it is in step with its peer. It never panics.
abbrev pub Keeps : Coap → BlockCipher → PodConnection → List Effect → Next → Type 0
Keeps coap k c es (goes_on c') = Synced coap k c es c'
Keeps coap k c es returns = Unit
Keeps coap k c es panics = ⊥
Keeps coap k c es Next.stuck = ⊥

-- An acknowledgement changes nothing, or answers the request that waits.
on_acknowledgement-cases :
    (c : PodConnection) (msg : Incoming)
    → IsWaiting c.current_request
    → (on_acknowledgement c msg ≡ ([], goes_on c))
      ⊎ ((answered : PodRequest) × (on_acknowledgement c msg
            ≡ (respond answered ∷ [], goes_on (record c { current_request = none }))))
unfolding on_acknowledgement set_response
on_acknowledgement-cases c msg waiting = elim (Option-cases c.current_request) [
  | inl nil ↦ inl (ground arith)
  | inr (cr, e) ↦ elim (Bool-cases (msg.message_id == cr.message.message_id)) [
    | inr other ↦ inl (ground arith)
    | inl same ↦ elim (Option-cases msg.body) [
      | inl unread ↦ inl (ground arith)
      | inr (body, read) ↦
          let open_request : cr.ready ≡ false = rw e at waiting in
          inr (record cr { response = body; ready = true }, ground arith)
    ]
  ]
]

pub Next-cases :
    (n : Next)
    → ((c : PodConnection) × (n ≡ goes_on c)) ⊎ ((n ≡ returns) ⊎ ((n ≡ panics) ⊎ (n ≡ Next.stuck)))
Next-cases (goes_on c) = inl (c, refl)
Next-cases returns = inr (inl refl)
Next-cases panics = inr (inr (inl refl))
Next-cases Next.stuck = inr (inr (inr refl))

module _ (coap : Coap) (k : BlockCipher) where
  pub silent :
      (c c' : PodConnection)
      → c'.aes_cipher ≡ some k
      → c'.outgoing_iv ≡ c.outgoing_iv
      → c'.incoming_iv ≡ c.incoming_iv
      → IsWaiting c'.current_request
      → (es : List Effect) → wire es ≡ []
      → Synced coap k c es c'
  silent c c' cipher out inc waiting es e = record {
    outputs = [];
    encoded = tt;
    spelled = e;
    vector = out;
    cipher = cipher;
    incoming = inc;
    waiting = waiting;
  }

  stamp_keeps :
      (c : PodConnection) (msg : Message)
      → ((stamp c msg).0.aes_cipher ≡ c.aes_cipher)
        × ((stamp c msg).0.outgoing_iv ≡ c.outgoing_iv)
        × ((stamp c msg).0.incoming_iv ≡ c.incoming_iv)
        × ((stamp c msg).0.current_request ≡ c.current_request)
  unfolding stamp
  stamp_keeps c msg = ground arith

  -- The outcomes of a send with a cipher.
  send_message-cases :
      (write_fails : Bool) (c : PodConnection) (msg : Message)
      → c.aes_cipher ≡ some k
      → ((output : Bytes) × (coap.marshal (stamp c msg).1 ≡ some output)
          × (send_message coap write_fails c msg
              ≡ sent
                  (frame k (stamp c msg).0.outgoing_iv output).0
                  (record ((stamp c msg).0) {
                    outgoing_iv = (frame k (stamp c msg).0.outgoing_iv output).1;
                  })
                  (stamp c msg).1))
        ⊎ (((b : Bytes) × (c' : PodConnection) × (send_message coap write_fails c msg
                ≡ write_failed b c' (stamp c msg).1))
            ⊎ (send_message coap write_fails c msg ≡ not_encoded (stamp c msg).0 (stamp c msg).1))
  unfolding send_message transmit
  send_message-cases write_fails c msg cipher =
      let same : (stamp c msg).0.aes_cipher ≡ some k = (stamp_keeps c msg).0 ∙ cipher in
      elim (Option-cases (coap.marshal (stamp c msg).1)) [
        | inl e ↦ inr (inr (rw (e, transmit)))
        | inr (output, e) ↦ elim (Bool-cases write_fails) [
          | inl bad ↦ inr (
              inl (
                (frame k (stamp c msg).0.outgoing_iv output).0,
                record ((stamp c msg).0) {
                  outgoing_iv = (frame k (stamp c msg).0.outgoing_iv output).1;
                },
                ground arith,
              ))
          | inr good ↦ inl (output, e, ground arith)
        ]
      ]

  reply-Keeps :
      (answers : Answers) (c : PodConnection) (msg : Message) (behind : List Effect)
      → c.aes_cipher ≡ some k
      → IsWaiting c.current_request
      → wire behind ≡ []
      → Keeps coap k c (reply coap answers c msg behind).0 (reply coap answers c msg behind).1
  unfolding reply
  reply-Keeps answers c msg behind cipher waiting e =
      let (same, out, inc, req) = stamp_keeps c msg in
      elim (send_message-cases answers.write_fails c msg cipher) [
        | inl (output, made, done) ↦
            rw (done, reply, Keeps)
              (record {
                outputs = output ∷ [];
                encoded = (((stamp c msg).1, made), tt);
                spelled = rw (done, reply) (λ i. (frame k (out i) output).0 ++ e i);
                vector = λ i. (frame k (out i) output).1;
                cipher = same ∙ cipher;
                incoming = inc;
                waiting = rw req waiting;
              })
        | inr (inl (b, c', bad)) ↦ rw (bad, reply, Keeps) tt
        | inr (inr bad) ↦ rw (bad, reply, Keeps) tt
      ]

  on_acknowledgement-Keeps :
      (c : PodConnection) (msg : Incoming)
      → c.aes_cipher ≡ some k
      → IsWaiting c.current_request
      → Keeps coap k c (on_acknowledgement c msg).0 (on_acknowledgement c msg).1
  unfolding on_acknowledgement
  on_acknowledgement-Keeps c msg cipher waiting = elim (on_acknowledgement-cases c msg waiting) [
    | inl same ↦ rw same (silent c c cipher refl refl waiting [] refl)
    | inr (answered, e) ↦ rw e (
        silent c (record c { current_request = none }) cipher refl refl tt (respond answered ∷ [])
          refl)
  ]

  on_url-Keeps :
      (answers : Answers) (c : PodConnection) (msg : Incoming) (url : Bytes)
      → c.aes_cipher ≡ some k
      → IsWaiting c.current_request
      → Keeps coap k c (on_url coap answers c msg url).0 (on_url coap answers c msg url).1
  unfolding on_url
  on_url-Keeps answers c msg url cipher waiting = elim (Bool-cases (text_eq url (codes "/h"))) [
    | inl h ↦
        rw (h, on_url) (reply-Keeps answers c hello (connect_unix_socket ∷ []) cipher waiting refl)
    | inr h ↦ elim (Bool-cases (text_eq url (codes "/e/spark"))) [
      | inl e ↦ rw (h, e, on_url) (reply-Keeps answers c (empty_ack msg) [] cipher waiting refl)
      | inr e ↦ elim (Bool-cases (text_eq url (codes "/t"))) [
        | inl t ↦
            rw (h, e, t, on_url)
              (reply-Keeps answers c (timestamp msg answers.now) [] cipher waiting refl)
        | inr t ↦ rw (h, e, t, on_url) (silent c c cipher refl refl waiting [] refl)
      ]
    ]
  ]

  pub handle_message-Keeps :
      (answers : Answers) (c : PodConnection) (msg : Incoming)
      → c.aes_cipher ≡ some k
      → IsWaiting c.current_request
      → Keeps coap k c (handle_message coap answers c msg).0 (handle_message coap answers c msg).1
  unfolding handle_message
  handle_message-Keeps answers c msg cipher waiting =
      elim (Bool-cases (text_eq (url_of msg) (codes "/") && is_confirmable msg.type)) [
        | inl ping ↦
            rw (ping, handle_message) (reply-Keeps answers c (empty_ack msg) [] cipher waiting refl)
        | inr other ↦ elim (Bool-cases (is_acknowledgement msg.type)) [
          | inl ack ↦
              rw (other, ack, handle_message) (on_acknowledgement-Keeps c msg cipher waiting)
          | inr no_ack ↦
              rw (other, no_ack, handle_message)
                (on_url-Keeps answers c msg (url_of msg) cipher waiting)
        ]
      ]
