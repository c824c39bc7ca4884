-- ===== src/SparkServer/Handshake.antt =====
-- SparkServer/Handshake.go, `performHandshake` and the functions that it calls. Randomness, the socket
-- and the RSA, X.509 and HMAC libraries are parameters; the raw RSA signature is `Signature`.
pub mod Outcomes
use eight_sleep_pod2server.Prelude.{
  ℕ, ◌-◌, Bool, true, false, not, Option, none, some, List, [], ◌∷◌, ◌++◌, Bytes, ltb,
  if◌then◌else◌, length, take, drop,
}
use eight_sleep_pod2server.Prelude.Text.{text_eq}
use eight_sleep_pod2server.SparkServer.Cipher.{BlockCipher}
use eight_sleep_pod2server.SparkServer.Signature.{PrivateKey, rsa_sign_raw_pkcs1}
use eight_sleep_pod2server.SparkServer.Pod.{PodConnection}

-- What `x509.ParsePKIXPublicKey` makes of a slice: an error, a key of another kind, or an RSA key.
pub data PublicKey (K : Type 0) : Type 0 where
  unparsable other_key : PublicKey K
  rsa_key : K → PublicKey K

-- What the handshake meets outside the program. `none` and `true` in a `fails` are errors.
pub record Environment (K : Type 0) : Type 0 where
  -- `rand.Read` for the nonce and for the key buffer
  pub random_nonce : Option Bytes
  pub random_key : Option Bytes
  pub nonce_write_fails : Bool
  pub read_response : Option Bytes
  pub final_write_fails : Bool
  pub decrypt_pkcs1v15 : Bytes → Option Bytes
  pub parse_pkix_public_key : Bytes → PublicKey K
  pub new_cipher : Bytes → Option BlockCipher
  pub encrypt_pkcs1v15 : K → Bytes → Option Bytes
  -- `hmac.New(sha1.New, key)`, then `Write` and `Sum`
  pub hmac_sha1 : Bytes → Bytes → Bytes
  pub signing_key : PrivateKey

pub record ClientResponse (K : Type 0) : Type 0 where
  pub nonce : Bytes
  pub client_device_key : Bytes
  pub client_public_key : K

-- The result of a Go function that may also panic.
pub data Returned (A : Type 0) : Type 0 where
  value : A → Returned A
  error : Returned A
  panicked : Returned A

-- How `performHandshake` ends: with a nil or another error, and the connection as it is then.
pub data Outcome : Type 0 where
  returns_nil : PodConnection → Outcome
  returns_error : PodConnection → Outcome
  panics : Outcome

-- `data[low:high]` and `data[low:]`; `none` is the panic. Go allows a `high` up to the capacity, which no
-- result depends on here: `data[52:]`, whose bound is the length, panics on everything shorter.
pub slice : Bytes → ℕ → ℕ → Option Bytes
slice bytes low high =
    if ltb (length bytes) high then none else some (take (high - low) (drop low bytes))

pub slice_from : Bytes → ℕ → Option Bytes
slice_from bytes low = if ltb (length bytes) low then none else some (drop low bytes)

module _ {K : Type 0} (env : Environment K) where
  -- `parseClientHandshake`. A slice expression out of range panics, and so does the assertion on a key of
  -- another kind.
  pub parse_client_handshake : Bytes → Returned (ClientResponse K)
  parse_client_handshake bytes = elim (slice bytes 0 40) [
    | none ↦ panicked
    | some nonce ↦ elim (slice bytes 40 52) [
      | none ↦ panicked
      | some client_device_key ↦ elim (slice_from bytes 52) [
        | none ↦ panicked
        | some pub_key_data ↦ elim (env.parse_pkix_public_key pub_key_data) [
          | unparsable ↦ error
          | other_key ↦ panicked
          | rsa_key key ↦ value (record {
            nonce = nonce;
            client_device_key = client_device_key;
            client_public_key = key;
          })
        ]
      ]
    ]
  ]

  -- `createHmacSignature`
  pub create_hmac_signature : Bytes → Bytes → Option Bytes
  create_hmac_signature payload hmac_key =
      rsa_sign_raw_pkcs1 env.signing_key (env.hmac_sha1 hmac_key payload)

  -- From `keybuffer, err := createNonce()` on: the slices written, and the outcome.
  pub answer_client : PodConnection → ClientResponse K → List Bytes × Outcome
  answer_client c response = elim env.random_key [
    | none ↦ ([], returns_error c)
    | some keybuffer ↦ elim (env.new_cipher (take 16 keybuffer)) [
      | none ↦ ([], returns_error (record c { aes_cipher = none }))
      | some cipher ↦
          let iv = take 16 (drop 16 keybuffer) in
          let keyed = record c { aes_cipher = some cipher; incoming_iv = iv; outgoing_iv = iv } in
          elim (env.encrypt_pkcs1v15 response.client_public_key keybuffer) [
            | none ↦ ([], returns_error keyed)
            | some cyphertext ↦ elim (create_hmac_signature cyphertext keybuffer) [
              | none ↦ ([], returns_error keyed)
              | some second_response ↦ (
                (cyphertext ++ second_response) ∷ [],
                (if env.final_write_fails then returns_error keyed else returns_nil keyed),
              )
            ]
          ]
    ]
  ]

  -- From the response of the client on. On a nonce that differs the source returns `err`, which is nil
  -- there.
  pub handle_response : PodConnection → Bytes → Bytes → List Bytes × Outcome
  handle_response c nonce response_payload = elim (env.decrypt_pkcs1v15 response_payload) [
    | none ↦ ([], returns_error c)
    | some decrypted ↦ elim (parse_client_handshake decrypted) [
      | error ↦ ([], returns_error c)
      | panicked ↦ ([], panics)
      | value response ↦
          let known = record c { device_id = response.client_device_key } in
          if not (text_eq nonce response.nonce)
          then ([], returns_nil known)
          else answer_client known response
    ]
  ]

  -- `performHandshake`
  pub perform_handshake : PodConnection → List Bytes × Outcome
  perform_handshake c = elim env.random_nonce [
    | none ↦ ([], returns_error c)
    | some nonce ↦
        if env.nonce_write_fails then (nonce ∷ [], returns_error c) else elim env.read_response [
          | none ↦ (nonce ∷ [], returns_error c)
          | some response_payload ↦
              let (written, outcome) = handle_response c nonce response_payload in
              (nonce ∷ written, outcome)
        ]
  ]
