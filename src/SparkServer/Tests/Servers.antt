-- ===== src/SparkServer/Tests/Servers.antt =====
-- The listener on two clients, and the length of a frame.
use eight_sleep_pod2server.Prelude.{
  ◌+◌, ◌-◌, ◌*◌, ◌/◌, ◌<◌, ◌≡◌, ◌↔◌, refl, true, List, [], ◌∷◌, ◌++◌, length, replicate, get_or,
  arith,
}
use eight_sleep_pod2server.Prelude.Int.{pos}
use eight_sleep_pod2server.SparkServer.Cipher.{block_size}
use eight_sleep_pod2server.SparkServer.Frames.{uint16, frame}
use eight_sleep_pod2server.SparkServer.Frames.Lengths.{length-frame_exact}
use eight_sleep_pod2server.SparkServer.Session.Served.{reads_of}
use eight_sleep_pod2server.SparkServer.Server.{
  Server, Client, Served, accept_failed, panicked, accept_loop, start_server,
}
use eight_sleep_pod2server.SparkServer.Server.Clients.{
  IsProven, IsImpostor, AreServed, accept_loop-AreServed, clients_served, impostor_stops_server,
}
use eight_sleep_pod2server.SparkServer.Tests.{
  k, k-IsBlockCipher, zeros, zeros-IsBlock, All_same, texts-IsMessage, padded, signing_key, nonce,
  client_response, environment, answered_rightly, answered_wrongly, nonces_differ, proved,
}
use eight_sleep_pod2server.SparkServer.Tests.Connections.{coap, answers, sends, holds_empty}

abbrev server : Server
server = record { server_private_key = signing_key; port = pos 5683; socket_path = [] }

abbrev pod : Client Unit
pod = record {
  env = environment nonce client_response;
  coap = coap;
  reads = reads_of k (replicate 16 3) sends;
}

pod-IsProven : IsProven server pod
pod-IsProven = record {
  nonce = nonce;
  decrypted = client_response;
  keybuffer = replicate 40 3;
  cyphertext = replicate 128 4;
  padded = padded;
  key = tt;
  cipher = k;
  sends = sends;
  responded = answered_rightly;
  proved = refl;
  answered = proved;
  aes = k-IsBlockCipher;
  block = record { sized = refl; bytes = All_same 3 16 (omega arith) };
  fit = (texts-IsMessage, ((((omega arith, tt), omega arith), tt), tt));
  spelled = refl;
}

clients_served_example :
    (served : List Served) × (start_server (λ port. true) server (pod ∷ pod ∷ [])
      ≡ (served, accept_failed))
    × AreServed server (pod ∷ pod ∷ []) (pod-IsProven, (pod-IsProven, tt)) served
clients_served_example =
    clients_served (λ port. true) server (pod ∷ pod ∷ []) refl (pod-IsProven, (pod-IsProven, tt))

-- A client that answers another nonce, and sends an empty frame.
abbrev impostor : Client Unit
impostor = record {
  env = environment (replicate 40 9) client_response;
  coap = coap;
  reads = (answers, 0 ∷ 0 ∷ []) ∷ [];
}

abbrev impostor-IsImpostor : IsImpostor server impostor
impostor-IsImpostor = record {
  nonce = replicate 40 9;
  decrypted = client_response;
  key = tt;
  answers = answers;
  bytes = 0 ∷ 0 ∷ [];
  reads = [];
  responded = answered_wrongly;
  differs = nonces_differ;
  held = holds_empty;
  spelled = refl;
}

pod_served :
    (served : List Served) × (accept_loop server (pod ∷ []) ≡ (served, accept_failed))
    × AreServed server (pod ∷ []) (pod-IsProven, tt) served
pod_served = accept_loop-AreServed server (pod ∷ []) (pod-IsProven, tt)

impostor_stops_server_example :
    start_server (λ port. true) server (pod ∷ impostor ∷ pod ∷ [])
    ≡ (pod_served.0 ++ (replicate 40 9 ∷ [], []) ∷ [], panicked)
impostor_stops_server_example =
    impostor_stops_server (λ port. true) server (pod ∷ []) (pod ∷ []) impostor pod_served.0
      impostor-IsImpostor refl pod_served.1

length-frame_exact_example :
    (length (frame k zeros (7 ∷ 8 ∷ [])).0 ≡ 2 + (2 / block_size + 1) * block_size)
    × ((uint16
            (get_or (frame k zeros (7 ∷ 8 ∷ [])).0 0 0)
            (get_or (frame k zeros (7 ∷ 8 ∷ [])).0 1 0)
          ≡ length (frame k zeros (7 ∷ 8 ∷ [])).0 - 2)
        ↔ (2 < 65520))
length-frame_exact_example =
    length-frame_exact k zeros (7 ∷ 8 ∷ []) k-IsBlockCipher zeros-IsBlock
      (omega arith, (omega arith, tt))
