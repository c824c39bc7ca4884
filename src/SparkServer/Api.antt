-- ===== src/SparkServer/Api.antt =====
-- SparkServer/EightSleepApi.go, the messages that set values, times, levels and alarms. The CBOR library
-- is a parameter, and encoding/hex is written out. `Status` is `GetStatus`.
pub mod Alarm
pub mod Status
use eight_sleep_pod2server.Prelude.{
  ℕ, ◌+◌, ◌-◌, ◌*◌, ◌/◌, ◌%◌, Bool, ◌&&◌, not, Option, none, some, List, [], ◌∷◌, ◌++◌, Bytes, ltb,
  if◌then◌else◌,
}
use eight_sleep_pod2server.Prelude.Int.{ℤ, pos, negsuc}
use eight_sleep_pod2server.Prelude.Decimal.{itoa}
use eight_sleep_pod2server.Prelude.Text.{codes, text_eq}
use eight_sleep_pod2server.SparkServer.Pod.{confirmable, Code, uri_path, uri_query, Message}

pub data BedSide : Type 0 where
  left right : BedSide

pub record AlarmParams : Type 0 where
  pub intensity : ℤ
  pub duration : ℤ
  pub time : ℕ
  pub pattern_name : Bytes

-- github.com/fxamacker/cbor on `AlarmParams`; `none` is an error.
pub record AlarmCbor : Type 0 where
  pub marshal : AlarmParams → Option Bytes
  pub unmarshal : Bytes → Option AlarmParams

-- `hex.EncodeToString`
abbrev pub hex_digit : ℕ → ℕ
hex_digit n = if ltb n 10 then 48 + n else 87 + n

pub hex_encode : Bytes → Bytes
hex_encode [] = []
hex_encode (b ∷ bytes) = hex_digit (b / 16) ∷ hex_digit (b % 16) ∷ hex_encode bytes

-- `hex.DecodeString`, which takes digits of both cases; `none` is an error.
pub hex_value : ℕ → Option ℕ
hex_value c =
    if not (ltb c 48) && ltb c 58
    then some (c - 48)
    else if not (ltb c 97) && ltb c 103
    then some (c - 87)
    else if not (ltb c 65) && ltb c 71
    then some (c - 55)
    else none

pub hex_decode : Bytes → Option Bytes
hex_decode [] = some []
hex_decode (c ∷ []) = none
hex_decode (c ∷ d ∷ text) =
    let rest = hex_decode text in
    elim (hex_value c) [
      | none ↦ none
      | some high ↦ elim (hex_value d) [
        | none ↦ none
        | some low ↦ elim rest [ none ↦ none | some bytes ↦ some ((high * 16 + low) ∷ bytes) ]
      ]
    ]

-- The message of `SetValue`.
pub set_value : Bytes → Bytes → Message
set_value path value = record {
  type = confirmable;
  code = Code.post;
  message_id = 0;
  token = [];
  options = (uri_path, codes "f") ∷ (uri_path, path) ∷ (uri_query, value) ∷ [];
  payload = [];
}

-- `SetTime` and `SetLevel`
unfoldable pub set_time : ℤ → BedSide → Message
set_time seconds BedSide.left = set_value (codes "leftHeat") (itoa seconds)
set_time seconds BedSide.right = set_value (codes "rightHeat") (itoa seconds)

unfoldable pub set_level : ℤ → BedSide → Message
set_level level BedSide.left = set_value (codes "leftLevel") (itoa level)
set_level level BedSide.right = set_value (codes "rightLevel") (itoa level)

pub alarm_path : BedSide → Bytes
alarm_path BedSide.left = codes "alarmL"
alarm_path BedSide.right = codes "alarmR"

-- `if alarmParams.Pattern == "rise"`
pub pod_two_pattern : AlarmParams → AlarmParams
pod_two_pattern params =
    if text_eq params.pattern_name (codes "rise")
    then record params { pattern_name = codes "single" }
    else params

module _ (cbor : AlarmCbor) where
  -- `SetAlarm`
  pub set_alarm : BedSide → Bytes → List Message
  set_alarm side input = elim (hex_decode input) [
    | none ↦ []
    | some bytes ↦ elim (cbor.unmarshal bytes) [
      | none ↦ []
      | some params ↦ elim (cbor.marshal (pod_two_pattern params)) [
        | none ↦ []
        | some marshalled ↦ set_value (alarm_path side) (hex_encode marshalled) ∷ []
      ]
    ]
  ]

  -- `ClearAlarms`
  pub clear_alarms : List Message
  clear_alarms =
      elim (cbor.marshal (record {
        intensity = pos 0;
        duration = pos 600;
        time = 0;
        pattern_name = codes "double";
      })) [
        | none ↦ []
        | some marshalled ↦
            set_value (codes "alarmL") (hex_encode marshalled)
            ∷ set_value (codes "alarmR") (hex_encode marshalled)
            ∷ []
      ]
