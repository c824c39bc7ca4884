-- ===== src/SparkServer/Handshake/Outcomes.antt =====
-- How the handshake ends for a client that proves the nonce, and for one that does not.
use eight_sleep_pod2server.Prelude.{
  ◌<◌, ◌≤◌, ◌≡◌, ◌≢◌, ◌∙◌, ap, le→ltb, ltb→lt, ltb→le, ltb, Bool-cases, Option-cases, ◌↔◌, ◌⊎◌, inl,
  inr, refl, true, false, some, [], ◌∷◌, ◌++◌, Bytes, length, take, drop, arith, ◌^◌, sym,
  take-append, drop-append,
}
use eight_sleep_pod2server.Prelude.Text.{text_eq}
use eight_sleep_pod2server.SparkServer.Cipher.{BlockCipher}
use eight_sleep_pod2server.SparkServer.Signature.{pkcs1v15_pad_raw, set_bytes, exp_mod}
use eight_sleep_pod2server.SparkServer.Signature.Value.{rsa_sign_raw_pkcs1_lem}
use eight_sleep_pod2server.SparkServer.Pod.{PodConnection}
use eight_sleep_pod2server.SparkServer.Handshake.{
  Returned, value, error, PublicKey, unparsable, other_key, rsa_key, Environment, ClientResponse,
  panicked, slice, slice_from, returns_nil, panics, parse_client_handshake, create_hmac_signature,
  answer_client, handle_response, perform_handshake,
}

text_eq_refl : (s : Bytes) → text_eq s s ≡ true
text_eq_refl [] = refl
text_eq_refl (x ∷ s) = ground (arith, text_eq_refl s)

text_eq-eq : (s t : Bytes) → text_eq s t ≡ true → s ≡ t
text_eq-eq [] [] e = refl
text_eq-eq [] (y ∷ t) e = absurd (cc)
text_eq-eq (x ∷ s) [] e = absurd (cc)
text_eq-eq (x ∷ s) (y ∷ t) e = ground (arith, text_eq-eq s t)

Returned-cases :
    {A : Type 0} (r : Returned A) → (r ≡ panicked) ⊎ ((r ≡ error) ⊎ ((a : A) × (r ≡ value a)))
Returned-cases panicked = inl refl
Returned-cases error = inr (inl refl)
Returned-cases (value a) = inr (inr (a, refl))

module _ {K : Type 0} (env : Environment K) where
  -- The client's response reached the server and was deciphered to the bytes of a client response.
  pub record Responded (nonce decrypted : Bytes) (key : K) : Type 0 where
    pub payload : Bytes
    pub chosen : env.random_nonce ≡ some nonce
    pub nonce_sent : env.nonce_write_fails ≡ false
    pub received : env.read_response ≡ some payload
    pub deciphered : env.decrypt_pkcs1v15 payload ≡ some decrypted
    pub long : 52 ≤ length decrypted
    pub parsed : env.parse_pkix_public_key (drop 52 decrypted) ≡ rsa_key key

  -- A client whose response does not begin with the nonce is not refused: the handshake returns no
  -- error, with nothing written but the nonce, and sets nothing in the connection but the device
  -- id.
  pub nonce_mismatch_returns_nil :
      (c : PodConnection) (nonce decrypted : Bytes) (key : K)
      → Responded nonce decrypted key
      → nonce ≢ take 40 decrypted
      → perform_handshake env c
        ≡ (nonce ∷ [], returns_nil (record c { device_id = take 12 (drop 40 decrypted) }))
  unfolding perform_handshake handle_response parse_client_handshake slice slice_from
  nonce_mismatch_returns_nil c nonce decrypted key r differs =
      ground (arith, text_eq-eq nonce (take 40 decrypted))

  -- What happens to a client that proves the nonce, where no library call and no write fails.
  pub record Answered (keybuffer cyphertext padded : Bytes) (key : K) (cipher : BlockCipher)
      : Type 0 where
    pub random : env.random_key ≡ some keybuffer
    pub ciphered : env.new_cipher (take 16 keybuffer) ≡ some cipher
    pub encrypted : env.encrypt_pkcs1v15 key keybuffer ≡ some cyphertext
    pub sized : length cyphertext ≡ 128
    pub modulus_pos : 0 < env.signing_key.n
    pub modulus_fits : env.signing_key.n ≤ 256 ^ env.signing_key.size
    pub digest_padded :
        pkcs1v15_pad_raw (env.hmac_sha1 keybuffer cyphertext) env.signing_key.size ≡ some padded
    pub final_sent : env.final_write_fails ≡ false

  -- A client whose response begins with the nonce gets one slice, if no library call and no write fails
  -- and the signing key is as long as its modulus: first the key buffer, encrypted for its key in 128
  -- bytes, then the raw RSA signature of the padded HMAC of these bytes under the key buffer, as long as
  -- the signing key. The connection has the cipher of the first sixteen bytes of the key buffer, and its
  -- next sixteen bytes as both vectors.
  pub handshake_shares_key :
      (c : PodConnection) (nonce decrypted keybuffer cyphertext padded : Bytes) (key : K)
      (cipher : BlockCipher)
      → Responded nonce decrypted key
      → take 40 decrypted ≡ nonce
      → Answered keybuffer cyphertext padded key cipher
      → (blob : Bytes) × (perform_handshake env c ≡ (
        nonce ∷ blob ∷ [],
        returns_nil (record c {
          aes_cipher = some cipher;
          device_id = take 12 (drop 40 decrypted);
          incoming_iv = take 16 (drop 16 keybuffer);
          outgoing_iv = take 16 (drop 16 keybuffer);
        }),
      ))
        × (take 128 blob ≡ cyphertext)
        × (length (drop 128 blob) ≡ env.signing_key.size)
        × (set_bytes 0 (drop 128 blob)
            ≡ exp_mod (set_bytes 0 padded) env.signing_key.d env.signing_key.n)
  unfolding perform_handshake handle_response parse_client_handshake slice slice_from answer_client
      create_hmac_signature
  handshake_shares_key c nonce decrypted keybuffer cyphertext padded key cipher r proof a =
      let (sig, signed, len, val) =
        rsa_sign_raw_pkcs1_lem env.signing_key (env.hmac_sha1 keybuffer cyphertext) padded
          a.modulus_pos a.modulus_fits a.digest_padded in
      (
        cyphertext ++ sig,
        ground (arith, text_eq_refl nonce),
        take-append 128 cyphertext sig (sym a.sized),
        rw (drop-append 128 cyphertext sig (sym a.sized)) len,
        rw (drop-append 128 cyphertext sig (sym a.sized)) val,
      )

  parse_client_handshake_short :
      (bytes : Bytes) → length bytes < 52 → parse_client_handshake env bytes ≡ panicked
  unfolding parse_client_handshake slice slice_from
  parse_client_handshake_short bytes short = ground arith

  -- What becomes of a response that is long enough is the library's answer.
  key_result : Bytes → PublicKey K → Returned (ClientResponse K)
  key_result bytes unparsable = error
  key_result bytes other_key = panicked
  key_result bytes (rsa_key key) = value (record {
    nonce = take 40 bytes;
    client_device_key = take 12 (drop 40 bytes);
    client_public_key = key;
  })

  parse_client_handshake_long :
      (bytes : Bytes)
      → 52 ≤ length bytes
      → parse_client_handshake env bytes
        ≡ key_result bytes (env.parse_pkix_public_key (drop 52 bytes))
  unfolding parse_client_handshake slice slice_from key_result
  parse_client_handshake_long bytes long =
      rw
        (
          parse_client_handshake,
          le→ltb (length bytes) 40 (omega arith),
          le→ltb (length bytes) 52 long,
          slice_from,
          le→ltb (length bytes) 52 long,
        )
        (by_key (env.parse_pkix_public_key (drop 52 bytes)))
    where
      by_key :
          (key : PublicKey K)
          → elim key [
            | unparsable ↦ error
            | other_key ↦ panicked
            | rsa_key key ↦ value (record {
              nonce = take 40 bytes;
              client_device_key = take 12 (drop 40 bytes);
              client_public_key = key;
            })
          ]
            ≡ key_result bytes key
      by_key unparsable = refl
      by_key other_key = refl
      by_key (rsa_key key) = refl

  key_result-panicked :
      (bytes : Bytes) (key : PublicKey K) → key_result bytes key ≡ panicked → key ≡ other_key
  unfolding key_result
  key_result-panicked bytes unparsable e = absurd (cc)
  key_result-panicked bytes other_key e = refl
  key_result-panicked bytes (rsa_key key) e = absurd (cc)

  parse_client_handshake-panicked :
      (bytes : Bytes)
      → (parse_client_handshake env bytes ≡ panicked)
        ↔ ((length bytes < 52) ⊎ (env.parse_pkix_public_key (drop 52 bytes) ≡ other_key))
  unfolding key_result
  parse_client_handshake-panicked bytes = elim (Bool-cases (ltb (length bytes) 52)) [
    | inl short ↦ (
      (λ e. inl (ltb→lt _ _ short)),
      (λ h. parse_client_handshake_short bytes (ltb→lt _ _ short)),
    )
    | inr long ↦
        let read = parse_client_handshake_long bytes (ltb→le _ _ long) in
        (
          (λ e. inr (key_result-panicked bytes _ (sym read ∙ e))),
          (λ h. elim h [
            | inl short ↦ parse_client_handshake_short bytes short
            | inr other ↦ read ∙ ap (key_result bytes) other
          ]),
        )
  ]

  answer_client-ne-panics :
      (c : PodConnection) (response : ClientResponse K) → (answer_client env c response).1 ≢ panics
  unfolding answer_client
  answer_client-ne-panics c response = ground arith

  handle_response-panics :
      (c : PodConnection) (nonce payload decrypted : Bytes)
      → env.decrypt_pkcs1v15 payload ≡ some decrypted
      → ((handle_response env c nonce payload).1 ≡ panics)
        ↔ (parse_client_handshake env decrypted ≡ panicked)
  unfolding handle_response
  handle_response-panics c nonce payload decrypted e =
      elim (Returned-cases (parse_client_handshake env decrypted)) [
        | inl parsed ↦ ground arith
        | inr (inl bad) ↦ ground arith
        | inr (inr (response, good)) ↦ ground (
          arith,
          answer_client-ne-panics (record c { device_id = response.client_device_key }) response,
        )
      ]

  perform_handshake_read :
      (c : PodConnection) (nonce payload : Bytes)
      → env.random_nonce ≡ some nonce
      → env.nonce_write_fails ≡ false
      → env.read_response ≡ some payload
      → (perform_handshake env c).1 ≡ (handle_response env c nonce payload).1
  unfolding perform_handshake
  perform_handshake_read c nonce payload chosen sent received = ground arith

  -- A handshake that panics has come to the response, and has deciphered it.
  perform_handshake-panics :
      (c : PodConnection)
      → (perform_handshake env c).1 ≡ panics
      → (nonce : Bytes) × (payload : Bytes) × (decrypted : Bytes) × (env.random_nonce ≡ some nonce)
        × (env.nonce_write_fails ≡ false)
        × (env.read_response ≡ some payload)
        × (env.decrypt_pkcs1v15 payload ≡ some decrypted)
  unfolding perform_handshake handle_response
  perform_handshake-panics c e = elim (Option-cases env.random_nonce) [
    | inl none_chosen ↦ absurd (ground arith)
    | inr (nonce, chosen) ↦ elim (Bool-cases env.nonce_write_fails) [
      | inl failed ↦ absurd (ground arith)
      | inr sent ↦ elim (Option-cases env.read_response) [
        | inl unread ↦ absurd (ground arith)
        | inr (payload, received) ↦ elim (Option-cases (env.decrypt_pkcs1v15 payload)) [
          | inl refused ↦ absurd (ground arith)
          | inr (decrypted, deciphered) ↦
              (nonce, payload, decrypted, chosen, sent, received, deciphered)
        ]
      ]
    ]
  ]

  -- The handshake panics exactly if a response is read, with the nonce written, and is deciphered to fewer
  -- than 52 bytes, or to bytes of which those from the 53rd on are a public key that is none of RSA.
  pub perform_handshake-panics_iff :
      (c : PodConnection)
      → ((perform_handshake env c).1 ≡ panics) ↔ (
          (nonce : Bytes) × (payload : Bytes) × (decrypted : Bytes) × (env.random_nonce
            ≡ some nonce)
          × (env.nonce_write_fails ≡ false)
          × (env.read_response ≡ some payload)
          × (env.decrypt_pkcs1v15 payload ≡ some decrypted)
          × ((length decrypted < 52) ⊎ (env.parse_pkix_public_key (drop 52 decrypted) ≡ other_key)))
  perform_handshake-panics_iff c = (
    (λ e.
        let (nonce, payload, decrypted, chosen, sent, received, deciphered) =
          perform_handshake-panics c e in
        let reached = perform_handshake_read c nonce payload chosen sent received in
        let bad =
          (handle_response-panics c nonce payload decrypted deciphered).0 (sym reached ∙ e) in
        (
          nonce,
          payload,
          decrypted,
          chosen,
          sent,
          received,
          deciphered,
          (parse_client_handshake-panicked decrypted).0 bad,
        )),
    (λ (nonce, payload, decrypted, chosen, sent, received, deciphered, fault).
        perform_handshake_read c nonce payload chosen sent received
        ∙ (handle_response-panics c nonce payload decrypted deciphered).1
            ((parse_client_handshake-panicked decrypted).1 fault)),
  )
