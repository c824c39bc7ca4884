-- ===== src/SparkServer/Session/Served.antt =====
-- Whole connections: a client that proves the nonce is served in step, one that does not makes the
-- server panic.
use mathlib.Core.Path.{subst}
use eight_sleep_pod2server.Prelude.{
  ℕ, ◌≡◌, ◌≢◌, refl, ap, sym, ◌∙◌, true, some, inl, List, [], ◌∷◌, Bytes, All, take, drop, arith,
  append-nil,
}
use eight_sleep_pod2server.SparkServer.Cipher.{BlockCipher, IsBlock, IsBlockCipher}
use eight_sleep_pod2server.SparkServer.Cipher.RoundTrip.{encrypt-IsBlock}
use eight_sleep_pod2server.SparkServer.Frames.{frame}
use eight_sleep_pod2server.SparkServer.Frames.RoundTrip.{frames, iv_after, IsMessage}
use eight_sleep_pod2server.SparkServer.Pod.{PodConnection, new_pod_connection}
use eight_sleep_pod2server.SparkServer.Handshake.{Environment}
use eight_sleep_pod2server.SparkServer.Handshake.Outcomes.{
  Responded, Answered, nonce_mismatch_returns_nil, handshake_shares_key,
}
use eight_sleep_pod2server.SparkServer.Connection.{
  Coap, Answers, Effect, Next, goes_on, returns, panics, handle_messages, handle_read, holds_frame,
}
use eight_sleep_pod2server.SparkServer.Connection.Dispatch.{IsWaiting, Keeps}
use eight_sleep_pod2server.SparkServer.Connection.InStep.{
  Keeps-append, handle_messages-Keeps, handle_read-frames,
}
use eight_sleep_pod2server.SparkServer.Session.{
  Read, go_on, after_handshake, read_loop, handle_connection,
}

-- The messages that a client sends in one read, with the answers that the server meets.
abbrev pub Sending : Type 0
Sending = (ℕ → Answers) × List Bytes

abbrev pub AreMessages : List Sending → Type 0
AreMessages = All (λ (s : Sending). All IsMessage s.1)

module _ (k : BlockCipher) where
  -- The reads of a client that goes on with its vector from read to read, and the vector behind them.
  abbrev pub reads_of : Bytes → List Sending → List Read
  reads_of iv [] = []
  reads_of iv ((answers, ps) ∷ sends) =
      (answers, frames k iv ps) ∷ reads_of (iv_after k iv ps) sends

  abbrev pub iv_behind : Bytes → List Sending → Bytes
  iv_behind iv [] = iv
  iv_behind iv ((answers, ps) ∷ sends) = iv_behind (iv_after k iv ps) sends

  iv_after-IsBlock :
      (ps : List Bytes) (iv : Bytes)
      → IsBlockCipher k
      → IsBlock iv
      → All IsMessage ps
      → IsBlock (iv_after k iv ps)
  unfolding frame
  iv_after-IsBlock [] iv aes block h = block
  iv_after-IsBlock (p ∷ ps) iv aes block (hp, h) =
      iv_after-IsBlock ps (frame k iv p).1 aes (encrypt-IsBlock k aes iv p block hp.0) h

  -- If a step keeps in step, and the loop behind it does, so do both together, with the incoming vector
  -- that is there at the end.
  go_on-Keeps :
      (coap : Coap) (c : PodConnection) (iv last : Bytes)
      (loop : PodConnection → List Effect × Next) (step : List Effect × Next)
      → ((c' : PodConnection)
          → c'.incoming_iv ≡ iv
          → c'.aes_cipher ≡ some k
          → IsWaiting c'.current_request
          → Keeps coap k (record c' { incoming_iv = last }) (loop c').0 (loop c').1)
      → Keeps coap k (record c { incoming_iv = iv }) step.0 step.1
      → Keeps coap k (record c { incoming_iv = last }) (go_on loop step).0 (go_on loop step).1
  unfolding go_on
  go_on-Keeps coap c iv last loop (effects, goes_on c') behind first =
      Keeps-append coap k (record c { incoming_iv = last }) (record c' { incoming_iv = last })
        effects (loop c').0 (loop c').1
        (record {
          outputs = first.outputs;
          encoded = first.encoded;
          spelled = first.spelled;
          vector = first.vector;
          cipher = first.cipher;
          incoming = refl;
          waiting = first.waiting;
        })
        (behind c' first.incoming first.cipher first.waiting)
  go_on-Keeps coap c iv last loop (effects, returns) behind first = tt
  go_on-Keeps coap c iv last loop (effects, panics) behind first = first
  go_on-Keeps coap c iv last loop (effects, Next.stuck) behind first = first

  -- A connection in step stays in step over any reads of whole frames that its peer chains.
  read_loop-Keeps :
      (coap : Coap) (sends : List Sending) (c : PodConnection) (iv : Bytes)
      → IsBlockCipher k
      → IsBlock iv
      → c.incoming_iv ≡ iv
      → c.aes_cipher ≡ some k
      → IsWaiting c.current_request
      → AreMessages sends
      → Keeps coap k
          (record c { incoming_iv = iv_behind iv sends })
          (read_loop coap c (reads_of iv sends)).0
          (read_loop coap c (reads_of iv sends)).1
  unfolding read_loop
  read_loop-Keeps coap [] c iv aes block at_iv cipher waiting h = record {
    outputs = [];
    encoded = tt;
    spelled = refl;
    vector = refl;
    cipher = cipher;
    incoming = at_iv;
    waiting = waiting;
  }
  read_loop-Keeps coap ((answers, ps) ∷ sends) c iv aes block at_iv cipher waiting (hp, h) =
      let next_iv = iv_after k iv ps in
      let c₁ : PodConnection = record c { incoming_iv = next_iv } in
      let split : handle_read coap answers c (frames k iv ps)
          ≡ handle_messages coap answers 0 c₁ ps =
        ap (λ v. handle_read coap answers c (frames k v ps)) (sym at_iv)
        ∙ ap (handle_read coap answers c) (sym (append-nil (frames k c.incoming_iv ps)))
        ∙ handle_read-frames coap k answers c ps [] aes (rw at_iv block) cipher hp
            (inl (omega arith))
        ∙ ap (λ v. handle_messages coap answers 0 (record c { incoming_iv = iv_after k v ps }) ps)
            at_iv in
      subst
        (λ step.
          Keeps coap k (record c { incoming_iv = iv_behind next_iv sends })
            (go_on (λ c'. read_loop coap c' (reads_of next_iv sends)) step).0
            (go_on (λ c'. read_loop coap c' (reads_of next_iv sends)) step).1)
        (sym split)
        (go_on-Keeps coap c next_iv (iv_behind next_iv sends) _
          (handle_messages coap answers 0 c₁ ps)
          (λ c' at_next keyed still.
            read_loop-Keeps coap sends c' next_iv aes (iv_after-IsBlock ps iv aes block hp) at_next
              keyed still h)
          (handle_messages-Keeps coap k answers 0 c₁ ps cipher waiting))

-- A client that proves the nonce, after which no library call and no write of the handshake fails, and
-- that then sends any messages of fewer than 65520 bytes, in reads of whole frames, enciphered with the
-- key and vector of the key buffer: the server writes the nonce and one slice more in the handshake,
-- and never panics. If it goes on behind the reads, what it wrote then is the frames of encoded messages
-- under the shared key, chained from the vector of the key buffer.
pub client_served :
    {K : Type 0} (env : Environment K) (coap : Coap)
    (nonce decrypted keybuffer cyphertext padded : Bytes) (key : K) (cipher : BlockCipher)
    (sends : List Sending)
    → Responded env nonce decrypted key
    → take 40 decrypted ≡ nonce
    → Answered env keybuffer cyphertext padded key cipher
    → IsBlockCipher cipher
    → IsBlock (take 16 (drop 16 keybuffer))
    → AreMessages sends
    → (blob : Bytes) × (written : List Effect) × (end : Next) × (handle_connection env coap
          new_pod_connection
          (reads_of cipher (take 16 (drop 16 keybuffer)) sends)
        ≡ (nonce ∷ blob ∷ [], (written, end)))
      × Keeps coap cipher
          (record new_pod_connection {
            aes_cipher = some cipher;
            device_id = take 12 (drop 40 decrypted);
            incoming_iv = iv_behind cipher (take 16 (drop 16 keybuffer)) sends;
            outgoing_iv = take 16 (drop 16 keybuffer);
          })
          written
          end
unfolding handle_connection after_handshake new_pod_connection
client_served env coap nonce decrypted keybuffer cyphertext padded key cipher sends r proved a aes
      block h =
    let iv = take 16 (drop 16 keybuffer) in
    let c : PodConnection = record new_pod_connection {
      aes_cipher = some cipher;
      device_id = take 12 (drop 40 decrypted);
      incoming_iv = iv;
      outgoing_iv = iv;
    } in
    let (blob, shook, _, _, _) =
      handshake_shares_key env new_pod_connection nonce decrypted keybuffer cyphertext padded key
        cipher r proved a in
    (
      blob,
      (read_loop coap c (reads_of cipher iv sends)).0,
      (read_loop coap c (reads_of cipher iv sends)).1,
      ap (after_handshake coap (reads_of cipher iv sends)) shook,
      read_loop-Keeps cipher coap sends c iv aes block refl refl tt h,
    )

-- A client whose response does not begin with the nonce makes the server panic with its first read,
-- if this read begins with a whole frame, of any bytes.
pub unproved_nonce_panics :
    {K : Type 0} (env : Environment K) (coap : Coap) (nonce decrypted : Bytes) (key : K)
    (answers : ℕ → Answers) (bytes : Bytes) (reads : List Read)
    → Responded env nonce decrypted key
    → nonce ≢ take 40 decrypted
    → holds_frame bytes ≡ true
    → handle_connection env coap new_pod_connection ((answers, bytes) ∷ reads)
      ≡ (nonce ∷ [], ([], panics))
unfolding handle_connection after_handshake go_on read_loop handle_read new_pod_connection
unproved_nonce_panics env coap nonce decrypted key answers bytes reads r differs held =
    let mismatch =
      nonce_mismatch_returns_nil env new_pod_connection nonce decrypted key r differs in
    ap (after_handshake coap ((answers, bytes) ∷ reads)) mismatch ∙ ground arith
