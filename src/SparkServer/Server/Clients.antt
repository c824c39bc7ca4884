-- ===== src/SparkServer/Server/Clients.antt =====
-- Many clients: those that prove the nonce leave the server running, one that does not takes it down.
use eight_sleep_pod2server.Prelude.{
  ℕ, ◌≡◌, ◌≢◌, refl, ◌∙◌, ap, Bool, true, some, List, [], ◌∷◌, ◌++◌, Bytes, All, take, drop,
}
use eight_sleep_pod2server.Prelude.Int.{ℤ}
use eight_sleep_pod2server.SparkServer.Cipher.{BlockCipher, IsBlock, IsBlockCipher}
use eight_sleep_pod2server.SparkServer.Pod.{PodConnection, new_pod_connection}
use eight_sleep_pod2server.SparkServer.Handshake.Outcomes.{Responded, Answered}
use eight_sleep_pod2server.SparkServer.Connection.{
  Coap, Answers, Effect, Next, goes_on, returns, panics, stuck, holds_frame,
}
use eight_sleep_pod2server.SparkServer.Connection.Dispatch.{Keeps}
use eight_sleep_pod2server.SparkServer.Session.{Read}
use eight_sleep_pod2server.SparkServer.Session.Served.{
  Sending, AreMessages, reads_of, iv_behind, client_served, unproved_nonce_panics,
}
use eight_sleep_pod2server.SparkServer.Server.{
  Server, Client, Served, Ending, accept_failed, panicked, out_of_fuel, handle_client,
  behind_client, accept_loop, start_server,
}

-- Behind a step that keeps the connection in step comes the next client.
behind_client-Keeps :
    (coap : Coap) (k : BlockCipher) (c : PodConnection) (written : List Bytes)
    (effects : List Effect) (end : Next) (later : List Served × Ending)
    → Keeps coap k c effects end
    → behind_client (written, (effects, end)) later ≡ ((written, effects) ∷ later.0, later.1)
behind_client-Keeps coap k c written effects (goes_on c') later h = refl
behind_client-Keeps coap k c written effects returns later h = refl
behind_client-Keeps coap k c written effects panics later h = absurd h
behind_client-Keeps coap k c written effects stuck later h = absurd h

-- A loop, and the loop over the clients behind it.
abbrev pub before_loop : List Served × Ending → List Served × Ending → List Served × Ending
before_loop (served, accept_failed) (later, end) = (served ++ later, end)
before_loop (served, panicked) after = (served, panicked)
before_loop (served, out_of_fuel) after = (served, out_of_fuel)

before_loop-behind_client :
    (step : List Bytes × (List Effect × Next)) (loop after : List Served × Ending)
    → behind_client step (before_loop loop after) ≡ before_loop (behind_client step loop) after
before_loop-behind_client (written, (effects, goes_on c)) (served, accept_failed) after = refl
before_loop-behind_client (written, (effects, goes_on c)) (served, panicked) after = refl
before_loop-behind_client (written, (effects, goes_on c)) (served, out_of_fuel) after = refl
before_loop-behind_client (written, (effects, returns)) (served, accept_failed) after = refl
before_loop-behind_client (written, (effects, returns)) (served, panicked) after = refl
before_loop-behind_client (written, (effects, returns)) (served, out_of_fuel) after = refl
before_loop-behind_client (written, (effects, panics)) loop after = refl
before_loop-behind_client (written, (effects, stuck)) loop after = refl

module _ {K : Type 0} where
  -- A client of this server that proves the nonce and sends messages in whole frames.
  pub record IsProven (server : Server) (client : Client K) : Type 0 where
    pub nonce : Bytes
    pub decrypted : Bytes
    pub keybuffer : Bytes
    pub cyphertext : Bytes
    pub padded : Bytes
    pub key : K
    pub cipher : BlockCipher
    pub sends : List Sending
    pub responded :
        Responded
          (record client.env { signing_key = server.server_private_key })
          nonce
          decrypted
          key
    pub proved : take 40 decrypted ≡ nonce
    pub answered :
        Answered
          (record client.env { signing_key = server.server_private_key })
          keybuffer
          cyphertext
          padded
          key
          cipher
    pub aes : IsBlockCipher cipher
    pub block : IsBlock (take 16 (drop 16 keybuffer))
    pub fit : AreMessages sends
    pub spelled : client.reads ≡ reads_of cipher (take 16 (drop 16 keybuffer)) sends

  -- A client that answers another nonce, and whose first read begins with a whole frame.
  pub record IsImpostor (server : Server) (client : Client K) : Type 0 where
    pub nonce : Bytes
    pub decrypted : Bytes
    pub key : K
    pub answers : ℕ → Answers
    pub bytes : Bytes
    pub reads : List Read
    pub responded :
        Responded
          (record client.env { signing_key = server.server_private_key })
          nonce
          decrypted
          key
    pub differs : nonce ≢ take 40 decrypted
    pub held : holds_frame bytes ≡ true
    pub spelled : client.reads ≡ (answers, bytes) ∷ reads

  -- What a proven client is served, and how its connection ends: the nonce and a slice more, and then, if
  -- the server does not close the connection over an error, frames of encoded messages under the cipher of
  -- its handshake.
  pub record IsServed (server : Server) (client : Client K) (p : IsProven server client)
      (served : Served) : Type 0 where
    pub blob : Bytes
    pub end : Next
    pub ended : handle_client server client ≡ (p.nonce ∷ blob ∷ [], (served.1, end))
    pub greeted : served.0 ≡ p.nonce ∷ blob ∷ []
    pub in_step :
        Keeps client.coap p.cipher
          (record new_pod_connection {
            aes_cipher = some p.cipher;
            device_id = take 12 (drop 40 p.decrypted);
            incoming_iv = iv_behind p.cipher (take 16 (drop 16 p.keybuffer)) p.sends;
            outgoing_iv = take 16 (drop 16 p.keybuffer);
          })
          served.1
          end

  -- Each client is served, in the order in which they are accepted.
  pub AreServed :
      (server : Server) (clients : List (Client K))
      → All (IsProven server) clients
      → List Served
      → Type 0
  AreServed server [] ps [] = Unit
  AreServed server [] ps (served ∷ later) = ⊥
  AreServed server (client ∷ clients) ps [] = ⊥
  AreServed server (client ∷ clients) (p, ps) (served ∷ later) =
      IsServed server client p served × AreServed server clients ps later

  accept_loop-proven :
      (server : Server) (client : Client K) (clients : List (Client K)) (p : IsProven server client)
      → (served : Served) × (accept_loop server (client ∷ clients)
          ≡ (served ∷ (accept_loop server clients).0, (accept_loop server clients).1))
        × IsServed server client p served
  unfolding handle_client
  accept_loop-proven server client clients p =
      let env = record client.env { signing_key = server.server_private_key } in
      let (blob, written, end, done, kept) =
        client_served env client.coap p.nonce p.decrypted p.keybuffer p.cyphertext p.padded p.key
          p.cipher p.sends p.responded p.proved p.answered p.aes p.block p.fit in
      (
        (p.nonce ∷ blob ∷ [], written),
        rw (p.spelled, done) (behind_client-Keeps client.coap p.cipher _ _ written end _ kept),
        record {
          blob = blob;
          end = end;
          ended = rw p.spelled done;
          greeted = refl;
          in_step = kept;
        },
      )

  pub accept_loop-AreServed :
      (server : Server) (clients : List (Client K)) (ps : All (IsProven server) clients)
      → (served : List Served) × (accept_loop server clients ≡ (served, accept_failed))
        × AreServed server clients ps served
  unfolding AreServed
  accept_loop-AreServed server [] ps = ([], refl, tt)
  accept_loop-AreServed server (client ∷ clients) (p, ps) =
      let (first, step, is_served) = accept_loop-proven server client clients p in
      let (later, rest, are_served) = accept_loop-AreServed server clients ps in
      (first ∷ later, step ∙ ap (λ out. (first ∷ out.0, out.1)) rest, (is_served, are_served))

  -- If the port can be listened on, a server all of whose clients prove the nonce and then send messages
  -- of fewer than 65520 bytes in reads of whole frames, and for which no library call and no write of a
  -- handshake fails, runs until an accept fails. Each client gets, in the order of the accepts, its nonce
  -- and one slice more, and if the server then handles all its reads without an error, what it writes is
  -- frames of encoded messages, chained, under the cipher of the client's own handshake.
  pub clients_served :
      (listens : ℤ → Bool) (server : Server) (clients : List (Client K))
      → listens server.port ≡ true
      → (ps : All (IsProven server) clients)
      → (served : List Served) × (start_server listens server clients ≡ (served, accept_failed))
        × AreServed server clients ps served
  unfolding start_server
  clients_served listens server clients listening ps =
      rw listening (accept_loop-AreServed server clients ps)

  accept_loop-append :
      (server : Server) (before after : List (Client K))
      → accept_loop server (before ++ after)
        ≡ before_loop (accept_loop server before) (accept_loop server after)
  accept_loop-append server [] after = refl
  accept_loop-append server (client ∷ before) after =
      ap (behind_client (handle_client server client)) (accept_loop-append server before after)
      ∙ before_loop-behind_client (handle_client server client) (accept_loop server before)
          (accept_loop server after)

  accept_loop-impostor :
      (server : Server) (client : Client K) (behind : List (Client K))
      (i : IsImpostor server client)
      → accept_loop server (client ∷ behind) ≡ ((i.nonce ∷ [], []) ∷ [], panicked)
  unfolding handle_client
  accept_loop-impostor server client behind i =
      rw
        (
          i.spelled,
          unproved_nonce_panics (record client.env { signing_key = server.server_private_key })
              client.coap i.nonce i.decrypted i.key i.answers i.bytes i.reads i.responded i.differs
              i.held,
        )
        refl

  -- One client takes the server down: behind any clients after which it would still accept, a client
  -- that answers another nonce, and whose first read begins with a whole frame, makes the server panic
  -- with nothing but the nonce written to this client, and no client behind it is served.
  pub impostor_stops_server :
      (listens : ℤ → Bool) (server : Server) (before behind : List (Client K)) (client : Client K)
      (served : List Served) (i : IsImpostor server client)
      → listens server.port ≡ true
      → accept_loop server before ≡ (served, accept_failed)
      → start_server listens server (before ++ client ∷ behind)
        ≡ (served ++ (i.nonce ∷ [], []) ∷ [], panicked)
  unfolding start_server
  impostor_stops_server listens server before behind client served i listening ran =
      rw
        (
          listening,
          accept_loop-append server before (client ∷ behind),
          ran,
          accept_loop-impostor server client behind i,
        )
        refl
