-- ===== src/SparkServer/Connection/Send.antt =====
-- The ids that `sendMessage` gives, and what it leaves of the connection.
use eight_sleep_pod2server.Prelude.{
  ℕ, zero, suc, ◌+◌, ◌%◌, ◌<◌, ◌≡◌, ◌≢◌, ◌∙◌, false, List, [], ◌∷◌, length, get_or, arith, All,
}
use eight_sleep_pod2server.SparkServer.Pod.{Message, PodConnection}
use eight_sleep_pod2server.SparkServer.Connection.{is_acknowledgement, stamp}

abbrev pub IsRequest : Message → Type 0
IsRequest msg = is_acknowledgement msg.type ≡ false

-- The ids of messages that are sent one after the other.
pub stamped_ids : PodConnection → List Message → List ℕ
stamped_ids c [] = []
stamped_ids c (msg ∷ msgs) = (stamp c msg).1.message_id ∷ stamped_ids (stamp c msg).0 msgs

stamp_request :
    (c : PodConnection) (msg : Message)
    → IsRequest msg
    → ((stamp c msg).1.message_id ≡ c.message_id)
      × ((stamp c msg).0.message_id ≡ (c.message_id + 1) % 256)
unfolding stamp
stamp_request c msg h = ground arith

stamped_ids_at :
    (msgs : List Message) (c : PodConnection) (i : ℕ)
    → c.message_id < 256
    → All IsRequest msgs
    → i < length msgs
    → get_or (stamped_ids c msgs) i 0 ≡ (c.message_id + i) % 256
unfolding stamped_ids
stamped_ids_at [] c i small h lt = absurd (omega arith)
stamped_ids_at (msg ∷ msgs) c zero small (hm, h) lt = omega (arith, stamp_request c msg hm)
stamped_ids_at (msg ∷ msgs) c (suc i) small (hm, h) lt =
    let (_, next) = stamp_request c msg hm in
    stamped_ids_at msgs (stamp c msg).0 i (omega (arith, next)) h (omega arith)
    ∙ omega (arith, next)

-- Of messages sent one after the other that are no acknowledgements, two that are less than 256 apart
-- have different ids, and two that are 256 apart have the same.
pub stamped_ids_distinct :
    (c : PodConnection) (msgs : List Message) (i n : ℕ)
    → c.message_id < 256
    → All IsRequest msgs
    → 0 < n
    → n < 256
    → i + 256 < length msgs
    → (get_or (stamped_ids c msgs) i 0 ≢ get_or (stamped_ids c msgs) (i + n) 0)
      × (get_or (stamped_ids c msgs) i 0 ≡ get_or (stamped_ids c msgs) (i + 256) 0)
stamped_ids_distinct c msgs i n small h pos lt fits = omega (
  arith,
  stamped_ids_at msgs c i small h (omega arith),
  stamped_ids_at msgs c (i + n) small h (omega arith),
  stamped_ids_at msgs c (i + 256) small h (omega arith),
)
