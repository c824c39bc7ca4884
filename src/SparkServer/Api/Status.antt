-- ===== src/SparkServer/Api/Status.antt =====
-- SparkServer/EightSleepApi.go, `GetStatus`.
pub mod Quotes
use eight_sleep_pod2server.Prelude.{
  ℕ, ◌-◌, Bool, true, false, ◌&&◌, not, Option, none, some, List, [], ◌∷◌, ◌++◌, Bytes, ltb, ◌==◌,
  if◌then◌else◌, length, take, drop, get_or,
}
use eight_sleep_pod2server.Prelude.Int.{ℤ, pos}
use eight_sleep_pod2server.Prelude.Decimal.{atoi}
use eight_sleep_pod2server.Prelude.Text.{codes, text_eq}
use eight_sleep_pod2server.SparkServer.Pod.{confirmable, Code, uri_path, Message}
use eight_sleep_pod2server.SparkServer.Exchange.{Exchange, done, ask, ◌>>=◌}

pub record BedStatus : Type 0 where
  pub heat_time : ℤ
  pub heat_level : ℤ
  pub target_heat_level : ℤ

pub record PodStatus : Type 0 where
  pub priming : Bool
  pub water_level : Bool
  pub updating : Bool
  pub left_bed : BedStatus
  pub right_bed : BedStatus
  pub sensor_label : Bytes
  pub ssid : Bytes
  pub hub_info : Bytes
  pub mac_address : Bytes
  pub ip_address : Bytes
  pub signal_strength : Bytes
  pub settings : Bytes

-- The message of `getData`, and `getData`.
unfoldable pub get_message : Bytes → Message
get_message verb = record {
  type = confirmable;
  code = Code.get;
  message_id = 0;
  token = [];
  options = (uri_path, codes "v") ∷ (uri_path, verb) ∷ [];
  payload = [];
}

abbrev pub get_data : Bytes → Exchange Bytes
get_data verb = ask (get_message verb) (λ response. done response)

-- `unwrapQuotes`: a quote at the head goes, and then one at the end.
abbrev pub drop_first_quote : Bytes → Bytes
drop_first_quote s = if ltb 0 (length s) && (get_or s 0 0 == b'"') then drop 1 s else s

abbrev pub drop_last_quote : Bytes → Bytes
drop_last_quote s =
    if ltb 0 (length s) && (get_or s (length s - 1) 0 == b'"') then take (length s - 1) s else s

unfoldable pub unwrap_quotes : Bytes → Bytes
unwrap_quotes s = drop_last_quote (drop_first_quote s)

-- A number, 0 where the response is none: the error is only printed.
abbrev pub or_zero : Option ℤ → ℤ
or_zero none = pos 0
or_zero (some value) = value

unfoldable pub int_of : Bytes → ℤ
int_of response = or_zero (atoi response)

-- `GetStatus`. The error that it returns is always nil.
unfoldable pub get_status : Exchange PodStatus
get_status = do
  heat_level_left ← get_data (codes "heatLevelL")
  heat_level_right ← get_data (codes "heatLevelR")
  target_heat_level_left ← get_data (codes "tgHeatLevelL")
  target_heat_level_right ← get_data (codes "tgHeatLevelR")
  heat_time_left ← get_data (codes "heatTimeL")
  heat_time_right ← get_data (codes "heatTimeR")
  priming ← get_data (codes "priming")
  water_level ← get_data (codes "waterLevel")
  sensor_label ← get_data (codes "sensorLabel")
  hub_info ← get_data (codes "hubInfo")
  settings ← get_data (codes "settings")
  done (record {
    priming = text_eq priming (codes "true");
    water_level = text_eq water_level (codes "true");
    updating = false;
    left_bed = record {
      heat_time = int_of heat_time_left;
      heat_level = int_of heat_level_left;
      target_heat_level = int_of target_heat_level_left;
    };
    right_bed = record {
      heat_time = int_of heat_time_right;
      heat_level = int_of heat_level_right;
      target_heat_level = int_of target_heat_level_right;
    };
    sensor_label = unwrap_quotes sensor_label;
    ssid = [];
    hub_info = unwrap_quotes hub_info;
    mac_address = [];
    ip_address = [];
    signal_strength = [];
    settings = unwrap_quotes settings;
  })
