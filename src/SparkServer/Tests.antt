-- ===== src/SparkServer/Tests.antt =====
-- The control server on small inputs, with the identity for the block cipher: frames, the signature and
-- the handshake.
mod Connections
mod Alarms
mod Servers
mod Sockets
mod Requests
use mathlib.Core.Path.{subst}
use eight_sleep_pod2server.Prelude.{
  ℕ, zero, suc, ◌+◌, ◌<◌, ◌≡◌, ◌≢◌, ◌↔◌, ◌⊎◌, refl, ap, true, false, none, some, inl, inr, List, [],
  ◌∷◌, ◌++◌, Bytes, length, take, drop, replicate, get_or, All, arith,
}
use eight_sleep_pod2server.SparkServer.Cipher.{
  BlockCipher, IsBlock, IsBlockCipher, plain, encrypt, decrypt, cbc_encrypt, pad,
}
use eight_sleep_pod2server.SparkServer.Cipher.RoundTrip.{decrypt-encrypt}
use eight_sleep_pod2server.SparkServer.Frames.{
  put_uint16, messages, panicked, stuck, split_messages, frame,
}
use eight_sleep_pod2server.SparkServer.Frames.RoundTrip.{
  frames, iv_after, IsMessage, split_messages-frames,
}
use eight_sleep_pod2server.SparkServer.Frames.Faults.{
  split_messages-ne-stuck, split_messages-panicked,
}
use eight_sleep_pod2server.SparkServer.Signature.{
  PrivateKey, pkcs1v15_pad_raw, set_bytes, exp_mod, rsa_sign_raw_pkcs1,
}
use eight_sleep_pod2server.SparkServer.Signature.Layout.{pkcs1v15_pad_raw_lem}
use eight_sleep_pod2server.SparkServer.Signature.Value.{rsa_sign_raw_pkcs1_lem}
use eight_sleep_pod2server.SparkServer.Pod.{
  confirmable, acknowledgement, Code, Message, new_pod_request, PodConnection, new_pod_connection,
}
use eight_sleep_pod2server.SparkServer.Handshake.{
  other_key, rsa_key, Environment, Outcome, returns_nil, perform_handshake,
}
use eight_sleep_pod2server.SparkServer.Handshake.Outcomes.{
  Responded, Answered, nonce_mismatch_returns_nil, handshake_shares_key,
  perform_handshake-panics_iff,
}
use eight_sleep_pod2server.SparkServer.Connection.{
  holds_frame, panics, Next, Incoming, Coap, Answers, Effect, write, respond, goes_on, stamp,
  handle_message, handle_messages, handle_read, start_request, reply, transmit, send_message,
  empty_ack,
}
use eight_sleep_pod2server.SparkServer.Connection.Send.{
  IsRequest, stamped_ids, stamped_ids_distinct,
}
use eight_sleep_pod2server.SparkServer.Connection.Dispatch.{wire, Keeps}
use eight_sleep_pod2server.SparkServer.Connection.InStep.{
  handle_messages-Keeps, peer_in_step, handle_read-frames, request_answered,
}
use eight_sleep_pod2server.SparkServer.Session
use eight_sleep_pod2server.SparkServer.Session.Served.{
  Sending, reads_of, iv_behind, client_served, unproved_nonce_panics,
}

abbrev pub k : BlockCipher
k = record { encrypt_block = λ b. b; decrypt_block = λ b. b }

pub k-IsBlockCipher : IsBlockCipher k
k-IsBlockCipher = record { encrypts = λ b h. h; decrypts = λ b h. refl }

abbrev pub zeros : Bytes
zeros = replicate 16 0

pub All_same : (b n : ℕ) → b < 256 → All (λ c. c < 256) (replicate n b)
All_same b zero small = tt
All_same b (suc n) small = (small, All_same b n small)

pub zeros-IsBlock : IsBlock zeros
zeros-IsBlock = record { sized = refl; bytes = All_same 0 16 (omega arith) }

decrypt-encrypt_example :
    decrypt k zeros (encrypt k zeros (7 ∷ 8 ∷ [])).0
    ≡ plain (7 ∷ 8 ∷ []) (encrypt k zeros (7 ∷ 8 ∷ [])).1
decrypt-encrypt_example =
    decrypt-encrypt k k-IsBlockCipher zeros (7 ∷ 8 ∷ []) zeros-IsBlock
      (omega arith, (omega arith, tt))

abbrev pub texts : List Bytes
texts = (7 ∷ 8 ∷ []) ∷ [] ∷ []

pub texts-IsMessage : All IsMessage texts
texts-IsMessage = (((omega arith, (omega arith, tt)), omega arith), ((tt, omega arith), tt))

split_messages-frames_example :
    split_messages k zeros (frames k zeros texts ++ 0 ∷ [])
    ≡ messages texts (iv_after k zeros texts)
split_messages-frames_example =
    split_messages-frames k k-IsBlockCipher texts zeros (0 ∷ []) zeros-IsBlock texts-IsMessage
      (inl (omega arith))

split_messages-ne-stuck_example : split_messages k zeros (0 ∷ 1 ∷ 2 ∷ []) ≢ stuck
split_messages-ne-stuck_example = split_messages-ne-stuck k zeros (0 ∷ 1 ∷ 2 ∷ [])

split_messages-panicked_example :
    split_messages k zeros (put_uint16 2 ++ (7 ∷ 8 ∷ []) ++ 9 ∷ []) ≡ panicked
split_messages-panicked_example =
    split_messages-panicked k zeros (7 ∷ 8 ∷ []) (9 ∷ []) (omega arith) (inr (omega arith))

pkcs1v15_pad_raw_lem_example :
    pkcs1v15_pad_raw (5 ∷ []) 13 ≡ some (0 ∷ 1 ∷ (replicate 9 0xFF ++ 0 ∷ 5 ∷ []))
pkcs1v15_pad_raw_lem_example = pkcs1v15_pad_raw_lem (5 ∷ []) 13

abbrev pub padded : Bytes
padded = 0 ∷ 1 ∷ (replicate 9 0xFF ++ 0 ∷ 5 ∷ [])

abbrev pub signing_key : PrivateKey
signing_key = record { d = 3; n = 33; size = 13 }

rsa_sign_raw_pkcs1_lem_example :
    (sig : Bytes) × (rsa_sign_raw_pkcs1 signing_key (5 ∷ []) ≡ some sig)
    × (length sig ≡ 13)
    × (set_bytes 0 sig ≡ exp_mod (set_bytes 0 padded) 3 33)
rsa_sign_raw_pkcs1_lem_example =
    rsa_sign_raw_pkcs1_lem signing_key (5 ∷ []) padded (omega arith) (omega arith)
      (pkcs1v15_pad_raw_lem (5 ∷ []) 13)

abbrev pub nonce : Bytes
nonce = replicate 40 1

-- What a client sends whose public key is the empty slice.
abbrev pub client_response : Bytes
client_response = nonce ++ replicate 12 2

-- A handshake in which no library call fails, with a given nonce and a given deciphered response.
abbrev pub environment : Bytes → Bytes → Environment Unit
environment chosen decrypted = record {
  random_nonce = some chosen;
  random_key = some (replicate 40 3);
  nonce_write_fails = false;
  read_response = some (7 ∷ []);
  final_write_fails = false;
  decrypt_pkcs1v15 = λ bytes. some decrypted;
  parse_pkix_public_key = λ bytes. rsa_key tt;
  new_cipher = λ bytes. some k;
  encrypt_pkcs1v15 = λ key bytes. some (replicate 128 4);
  hmac_sha1 = λ key bytes. 5 ∷ [];
  signing_key = signing_key;
}

pub answered_rightly : Responded (environment nonce client_response) nonce client_response tt
answered_rightly = record {
  payload = 7 ∷ [];
  chosen = refl;
  nonce_sent = refl;
  received = refl;
  deciphered = refl;
  long = omega arith;
  parsed = refl;
}

-- The client answers the nonce of all ones to another one.
pub answered_wrongly :
    Responded (environment (replicate 40 9) client_response) (replicate 40 9) client_response tt
answered_wrongly = record {
  payload = 7 ∷ [];
  chosen = refl;
  nonce_sent = refl;
  received = refl;
  deciphered = refl;
  long = omega arith;
  parsed = refl;
}

pub nonces_differ : replicate 40 9 ≢ take 40 client_response
nonces_differ e = absurd (omega (arith, ap (λ bytes. get_or bytes 0 0) e))

pub proved :
    Answered (environment nonce client_response) (replicate 40 3) (replicate 128 4) padded tt k
proved = record {
  random = refl;
  ciphered = refl;
  encrypted = refl;
  sized = refl;
  modulus_pos = omega arith;
  modulus_fits = omega arith;
  digest_padded = pkcs1v15_pad_raw_lem (5 ∷ []) 13;
  final_sent = refl;
}

handshake_shares_key_example :
    (blob : Bytes) × (perform_handshake (environment nonce client_response) new_pod_connection ≡ (
      nonce ∷ blob ∷ [],
      returns_nil (record new_pod_connection {
        aes_cipher = some k;
        device_id = replicate 12 2;
        incoming_iv = replicate 16 3;
        outgoing_iv = replicate 16 3;
      }),
    ))
    × (take 128 blob ≡ replicate 128 4)
    × (length (drop 128 blob) ≡ 13)
    × (set_bytes 0 (drop 128 blob) ≡ exp_mod (set_bytes 0 padded) 3 33)
handshake_shares_key_example =
    handshake_shares_key (environment nonce client_response) new_pod_connection nonce
      client_response (replicate 40 3) (replicate 128 4) padded tt k answered_rightly refl proved

perform_handshake-panics_iff_example :
    ((perform_handshake (environment nonce (1 ∷ [])) new_pod_connection).1 ≡ Outcome.panics) ↔ (
      (chosen : Bytes) × (payload : Bytes) × (decrypted : Bytes) × (some nonce ≡ some chosen)
      × (false ≡ false)
      × (some (7 ∷ []) ≡ some payload)
      × (some (1 ∷ []) ≡ some decrypted)
      × ((length decrypted < 52) ⊎ (rsa_key tt ≡ other_key)))
perform_handshake-panics_iff_example =
    perform_handshake-panics_iff (environment nonce (1 ∷ [])) new_pod_connection
