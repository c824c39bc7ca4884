-- ===== src/SparkServer/Connection/InStep.antt =====
-- Whole reads: the two ends stay in step, and a request gets the answer that is meant for it.
use eight_sleep_pod2server.Prelude.{
  ℕ, ◌+◌, ◌%◌, ◌≡◌, refl, ap, sym, ◌∙◌, true, false, none, some, inl, inr, List, [], ◌∷◌, ◌++◌,
  Bytes, All, All-append, arith, append-nil, if◌then◌else◌, ◌==◌, Option-cases,
}
use eight_sleep_pod2server.SparkServer.Cipher.{BlockCipher, IsBlock, IsBlockCipher}
use eight_sleep_pod2server.SparkServer.Frames.{frame, messages, split_messages}
use eight_sleep_pod2server.SparkServer.Frames.RoundTrip.{
  frames, iv_after, IsMessage, IsCut, split_messages-frames,
}
use eight_sleep_pod2server.SparkServer.Pod.{
  MessageType, new_pod_request, Message, set_response, PodConnection,
}
use eight_sleep_pod2server.SparkServer.Connection.{
  Incoming, Coap, handle_read, start_request, Answers, Effect, write, respond, is_acknowledgement,
  is_confirmable, stamp, transmit, Next, goes_on, returns, panics, send_message, reply,
  on_acknowledgement, handle_message, handle_messages,
}
use eight_sleep_pod2server.SparkServer.Connection.Dispatch.{
  wire, wire-append, frames-append, iv_after-append, IsWaiting, Synced, Keeps, Next-cases, silent,
  handle_message-Keeps,
}

module _ (coap : Coap) (k : BlockCipher) where
  Synced-trans :
      (c c' c'' : PodConnection) (es fs : List Effect)
      → Synced coap k c es c'
      → Synced coap k c' fs c''
      → Synced coap k c (es ++ fs) c''
  Synced-trans c c' c'' es fs s t = record {
    outputs = s.outputs ++ t.outputs;
    encoded = All-append _ s.outputs t.outputs s.encoded t.encoded;
    spelled =
        wire-append es fs
        ∙ (λ i. s.spelled i ++ t.spelled i)
        ∙ ap (λ v. frames k c.outgoing_iv s.outputs ++ frames k v t.outputs) s.vector
        ∙ sym (frames-append k c.outgoing_iv s.outputs t.outputs);
    vector =
        t.vector
        ∙ ap (λ v. iv_after k v t.outputs) s.vector
        ∙ sym (iv_after-append k c.outgoing_iv s.outputs t.outputs);
    cipher = t.cipher;
    incoming = t.incoming ∙ s.incoming;
    waiting = t.waiting;
  }

  pub Keeps-append :
      (c c' : PodConnection) (es fs : List Effect) (n : Next)
      → Synced coap k c es c'
      → Keeps coap k c' fs n
      → Keeps coap k c (es ++ fs) n
  Keeps-append c c' es fs (goes_on c'') s t = Synced-trans c c' c'' es fs s t
  Keeps-append c c' es fs returns s t = tt
  Keeps-append c c' es fs panics s t = t
  Keeps-append c c' es fs Next.stuck s t = t

  -- The messages of a read never make a connection panic that has a cipher and whose current request,
  -- if it has one, is not answered. If the handler goes on behind them, this holds again, the incoming
  -- vector is kept, and what went over the wire is the frames of encoded messages, each with the vector
  -- that the last one left.
  pub handle_messages-Keeps :
      (answers : ℕ → Answers) (i : ℕ) (c : PodConnection) (msgs : List Bytes)
      → c.aes_cipher ≡ some k
      → IsWaiting c.current_request
      → Keeps coap k c
          (handle_messages coap answers i c msgs).0
          (handle_messages coap answers i c msgs).1
  unfolding handle_messages
  handle_messages-Keeps answers i c [] cipher waiting =
      silent coap k c c cipher refl refl waiting [] refl
  handle_messages-Keeps answers i c (msg ∷ msgs) cipher waiting =
      elim (Option-cases (coap.unmarshal msg)) [
        | inl bad ↦ rw (bad, handle_messages) tt
        | inr (m, good) ↦
            let here = handle_message-Keeps coap k (answers i) c m cipher waiting in
            elim (Next-cases (handle_message coap (answers i) c m).1) [
              | inl (c', go) ↦
                  let first : Synced coap k c (handle_message coap (answers i) c m).0 c' =
                    rw go at here in
                  rw (good, go, handle_messages)
                    (Keeps-append c c' _ _ _ first
                      (handle_messages-Keeps answers (i + 1) c' msgs first.cipher first.waiting))
              | inr (inl e) ↦ rw (good, e, handle_messages) tt
              | inr (inr (inl e)) ↦ absurd (rw e at here)
              | inr (inr (inr e)) ↦ absurd (rw e at here)
            ]
      ]

  -- For a connection with a cipher, a vector of one block and no answered current request, if messages
  -- are encoded to fewer than 65520 bytes and the handler goes on: what the messages of a read put on
  -- the wire is split by a peer with the same key and vector into encoded messages, and the peer's
  -- vector is the connection's then.
  pub peer_in_step :
      (answers : ℕ → Answers) (c c' : PodConnection) (msgs : List Bytes) (es : List Effect)
      → IsBlockCipher k
      → ((m : Message) (o : Bytes) → coap.marshal m ≡ some o → IsMessage o)
      → IsBlock c.outgoing_iv
      → c.aes_cipher ≡ some k
      → IsWaiting c.current_request
      → handle_messages coap answers 0 c msgs ≡ (es, goes_on c')
      → (outs : List Bytes) × All (λ o. (m : Message) × (coap.marshal m ≡ some o)) outs
        × (split_messages k c.outgoing_iv (wire es) ≡ messages outs c'.outgoing_iv)
  peer_in_step answers c c' msgs es aes sized block cipher waiting e =
      let s : Synced coap k c es c' =
        rw e at (handle_messages-Keeps answers 0 c msgs cipher waiting) in
      (
        s.outputs,
        s.encoded,
        ap (split_messages k c.outgoing_iv) (s.spelled ∙ sym (append-nil _))
            ∙ split_messages-frames k aes s.outputs c.outgoing_iv [] block
                (all_sized s.outputs s.encoded) (inl (omega arith))
            ∙ ap (messages s.outputs) (sym s.vector),
      )
    where
      all_sized :
          (outs : List Bytes)
          → All (λ o. (m : Message) × (coap.marshal m ≡ some o)) outs
          → All IsMessage outs
      all_sized [] h = tt
      all_sized (o ∷ outs) ((m, made), h) = (sized m o made, all_sized outs h)

  -- A read of whole frames that were framed with the key and the incoming vector of the connection,
  -- and of the start of another frame, is handled as the messages of the whole frames, of fewer
  -- than 65520 bytes each. The start is dropped.
  pub handle_read-frames :
      (answers : ℕ → Answers) (c : PodConnection) (ps : List Bytes) (cut : Bytes)
      → IsBlockCipher k
      → IsBlock c.incoming_iv
      → c.aes_cipher ≡ some k
      → All IsMessage ps
      → IsCut k cut
      → handle_read coap answers c (frames k c.incoming_iv ps ++ cut)
        ≡ handle_messages coap answers 0 (record c { incoming_iv = iv_after k c.incoming_iv ps }) ps
  unfolding handle_read
  handle_read-frames answers c ps cut aes block cipher h is_cut =
      ground (arith, split_messages-frames k aes ps c.incoming_iv cut block h is_cut)

acknowledgement_unconfirmable :
    (t : MessageType) → is_acknowledgement t ≡ true → is_confirmable t ≡ false
acknowledgement_unconfirmable MessageType.acknowledgement e = refl
acknowledgement_unconfirmable MessageType.confirmable e = absurd (cc)
acknowledgement_unconfirmable MessageType.non_confirmable e = refl
acknowledgement_unconfirmable MessageType.reset e = refl

-- A request, no acknowledgement, that is encoded and written without an error gets the id of the
-- counter. An acknowledgement handled next, with a body that can be read, answers it with this body and
-- leaves no current request if it has this id, and changes nothing otherwise.
pub request_answered :
    (coap : Coap) (k : BlockCipher) (answers : Answers) (c : PodConnection) (msg : Message)
    (output : Bytes) (reply : Incoming) (body : Bytes)
    → c.aes_cipher ≡ some k
    → is_acknowledgement msg.type ≡ false
    → coap.marshal (record msg { message_id = c.message_id; token = c.message_id ∷ [] })
      ≡ some output
    → is_acknowledgement reply.type ≡ true
    → reply.body ≡ some body
    → (c' : PodConnection) × (wrote : List Effect) × (start_request coap false c
          (new_pod_request msg)
        ≡ (wrote, goes_on c'))
      × (handle_message coap answers c' reply ≡ (
          if reply.message_id == c.message_id
          then (
            respond (record (new_pod_request msg) {
              message = record msg { message_id = c.message_id; token = c.message_id ∷ [] };
              response = body;
              ready = true;
            })
                ∷ [],
            goes_on (record c' { current_request = none }),
          )
          else ([], goes_on c')))
unfolding start_request send_message stamp transmit new_pod_request handle_message
    on_acknowledgement set_response
request_answered coap k answers c msg output reply body cipher plain_request made ack read =
    let unconfirmable = acknowledgement_unconfirmable reply.type ack in
    (
      record c {
        message_id = (c.message_id + 1) % 256;
        outgoing_iv = (frame k c.outgoing_iv output).1;
        current_request = some (record {
          message = record msg { message_id = c.message_id; token = c.message_id ∷ [] };
          response = [];
          ready = false;
        });
      },
      write (frame k c.outgoing_iv output).0 ∷ [],
      ground arith,
      ground arith,
    )
