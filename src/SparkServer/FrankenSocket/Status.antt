-- ===== src/SparkServer/FrankenSocket/Status.antt =====
-- The status command.
use eight_sleep_pod2server.Prelude.{
  ℕ, ◌+◌, ◌≡◌, refl, ap, ◌∙◌, Bool, true, false, List, [], ◌∷◌, ◌++◌, append_assoc, if◌then◌else◌,
  ◌==◌, Bytes, map,
}
use eight_sleep_pod2server.Prelude.Int.{ℤ, IsInt64}
use eight_sleep_pod2server.Prelude.Decimal.{itoa, atoi}
use eight_sleep_pod2server.Prelude.Decimal.RoundTrip.{atoi-itoa}
use eight_sleep_pod2server.Prelude.Text.{codes, text_eq}
use eight_sleep_pod2server.SparkServer.Pod.{Message}
use eight_sleep_pod2server.SparkServer.Exchange.{run}
use eight_sleep_pod2server.SparkServer.Api.{AlarmCbor}
use eight_sleep_pod2server.SparkServer.Api.Status.{
  PodStatus, get_message, get_status, or_zero, int_of, unwrap_quotes,
}
use eight_sleep_pod2server.SparkServer.Api.Status.Quotes.{quote, unwrap_quotes-quote}
use eight_sleep_pod2server.SparkServer.FrankenSocket.{
  FrankenCommand, newline, replied, format_bool, status_report, handle_command, process_read,
}
use eight_sleep_pod2server.SparkServer.FrankenSocket.Commands.{command_line, process_read-command}

-- What a pod says of one side, and of itself.
pub record SideReadings : Type 0 where
  pub heat_time : ℤ
  pub heat_level : ℤ
  pub target_heat_level : ℤ

pub record Readings : Type 0 where
  pub left : SideReadings
  pub right : SideReadings
  pub priming : Bool
  pub water_level : Bool
  pub sensor_label : Bytes
  pub hub_info : Bytes
  pub settings : Bytes

-- The readings of a side are 64-bit integers, and the pod prints them.
pub record Says (answer : Bytes) (reading : ℤ) : Type 0 where
  pub fits : IsInt64 reading
  pub printed : answer ≡ itoa reading

int_of-Says : (answer : Bytes) (reading : ℤ) → Says answer reading → int_of answer ≡ reading
unfolding int_of
int_of-Says answer reading s = ap or_zero (ap atoi s.printed ∙ atoi-itoa reading s.fits)

-- The pod answers questions by its readings, which do not change meanwhile.
pub record Tells (pod : ℕ → Message → Bytes) (r : Readings) : Type 0 where
  pub heat_level_left : (j : ℕ) → Says (pod j (get_message (codes "heatLevelL"))) r.left.heat_level
  pub heat_level_right :
      (j : ℕ) → Says (pod j (get_message (codes "heatLevelR"))) r.right.heat_level
  pub target_left :
      (j : ℕ) → Says (pod j (get_message (codes "tgHeatLevelL"))) r.left.target_heat_level
  pub target_right :
      (j : ℕ) → Says (pod j (get_message (codes "tgHeatLevelR"))) r.right.target_heat_level
  pub heat_time_left : (j : ℕ) → Says (pod j (get_message (codes "heatTimeL"))) r.left.heat_time
  pub heat_time_right : (j : ℕ) → Says (pod j (get_message (codes "heatTimeR"))) r.right.heat_time
  pub priming : (j : ℕ) → pod j (get_message (codes "priming")) ≡ format_bool r.priming
  pub water_level : (j : ℕ) → pod j (get_message (codes "waterLevel")) ≡ format_bool r.water_level
  pub sensor_label : (j : ℕ) → pod j (get_message (codes "sensorLabel")) ≡ quote r.sensor_label
  pub hub_info : (j : ℕ) → pod j (get_message (codes "hubInfo")) ≡ quote r.hub_info
  pub settings : (j : ℕ) → pod j (get_message (codes "settings")) ≡ quote r.settings

abbrev pub verbs : List Bytes
verbs =
    codes "heatLevelL"
    ∷ codes "heatLevelR"
    ∷ codes "tgHeatLevelL"
    ∷ codes "tgHeatLevelR"
    ∷ codes "heatTimeL"
    ∷ codes "heatTimeR"
    ∷ codes "priming"
    ∷ codes "waterLevel"
    ∷ codes "sensorLabel"
    ∷ codes "hubInfo"
    ∷ codes "settings"
    ∷ []

-- The status that these are.
abbrev pub status_of : Readings → PodStatus
status_of r = record {
  priming = r.priming;
  water_level = r.water_level;
  updating = false;
  left_bed = record {
    heat_time = r.left.heat_time;
    heat_level = r.left.heat_level;
    target_heat_level = r.left.target_heat_level;
  };
  right_bed = record {
    heat_time = r.right.heat_time;
    heat_level = r.right.heat_level;
    target_heat_level = r.right.target_heat_level;
  };
  sensor_label = r.sensor_label;
  ssid = [];
  hub_info = r.hub_info;
  mac_address = [];
  ip_address = [];
  signal_strength = [];
  settings = r.settings;
}

text_eq-true : (b : Bool) → text_eq (format_bool b) (codes "true") ≡ b
text_eq-true true = refl
text_eq-true false = refl

-- A format with a verb of one letter behind each percent sign, and the arguments, printed, in their places.
abbrev pub fill : Bytes → List Bytes → Bytes
fill [] args = []
fill (c ∷ []) args = c ∷ []
fill (c ∷ d ∷ format) [] = c ∷ d ∷ format
fill (c ∷ d ∷ format) (arg ∷ args) =
    let rest = fill (d ∷ format) (arg ∷ args) in
    if c == b'%' then arg ++ fill format args else c ∷ rest

-- The format that free-sleep reads.
abbrev pub report_format : Bytes
report_format =
    codes "tgHeatLevelR = %d\ntgHeatLevelL = %d\nheatTimeR = %d\nheatTimeL = %d\n"
    ++ codes "heatLevelR = %d\nheatLevelL = %d\nsensorLabel = %s\nwaterLevel = %t\n"
    ++ codes "priming = %t\nsettings = %s\n\n"

abbrev pub report_args : Readings → List Bytes
report_args r =
    itoa r.right.target_heat_level
    ∷ itoa r.left.target_heat_level
    ∷ itoa r.right.heat_time
    ∷ itoa r.left.heat_time
    ∷ itoa r.right.heat_level
    ∷ itoa r.left.heat_level
    ∷ r.sensor_label
    ∷ format_bool r.water_level
    ∷ format_bool r.priming
    ∷ r.settings
    ∷ []

status_report-fill :
    (r : Readings) → status_report (status_of r) ≡ fill report_format (report_args r)
unfolding status_report
status_report-fill r = simp append_assoc

process_read-status_report :
    (cbor : AlarmCbor) (pod : ℕ → Message → Bytes) (i : ℕ) (r : Readings) (rest : Bytes)
    → Tells pod r
    → run pod i (process_read cbor (command_line FrankenCommand.device_status ++ newline ∷ rest))
      ≡ (map get_message verbs, replied (status_report (status_of r)))
unfolding handle_command get_status
process_read-status_report cbor pod i r rest t =
    ap (run pod i) (process_read-command cbor FrankenCommand.device_status rest refl) ∙ (λ j. (
      map get_message verbs,
      replied (
          status_report (record {
            priming =
                (ap is_true (t.priming (i + 1 + 1 + 1 + 1 + 1 + 1)) ∙ text_eq-true r.priming) j;
            water_level =
                (ap is_true (t.water_level (i + 1 + 1 + 1 + 1 + 1 + 1 + 1))
                    ∙ text_eq-true r.water_level)
                  j;
            updating = false;
            left_bed = record {
              heat_time = int_of-Says _ r.left.heat_time (t.heat_time_left (i + 1 + 1 + 1 + 1)) j;
              heat_level = int_of-Says _ r.left.heat_level (t.heat_level_left i) j;
              target_heat_level =
                  int_of-Says _ r.left.target_heat_level (t.target_left (i + 1 + 1)) j;
            };
            right_bed = record {
              heat_time =
                  int_of-Says _ r.right.heat_time (t.heat_time_right (i + 1 + 1 + 1 + 1 + 1)) j;
              heat_level = int_of-Says _ r.right.heat_level (t.heat_level_right (i + 1)) j;
              target_heat_level =
                  int_of-Says _ r.right.target_heat_level (t.target_right (i + 1 + 1 + 1)) j;
            };
            sensor_label =
                (ap unwrap_quotes (t.sensor_label (i + 1 + 1 + 1 + 1 + 1 + 1 + 1 + 1))
                    ∙ unwrap_quotes-quote r.sensor_label)
                  j;
            ssid = [];
            hub_info =
                (ap unwrap_quotes (t.hub_info (i + 1 + 1 + 1 + 1 + 1 + 1 + 1 + 1 + 1))
                    ∙ unwrap_quotes-quote r.hub_info)
                  j;
            mac_address = [];
            ip_address = [];
            signal_strength = [];
            settings =
                (ap unwrap_quotes (t.settings (i + 1 + 1 + 1 + 1 + 1 + 1 + 1 + 1 + 1 + 1))
                    ∙ unwrap_quotes-quote r.settings)
                  j;
          })),
    ))
  where
    is_true : Bytes → Bool
    is_true answer = text_eq answer (codes "true")

-- A pod that prints its readings, 64-bit integers, Booleans and texts in quotes, is asked the eleven
-- questions in order for a status command, whatever follows its first line, and the reply is the report
-- format with exactly these readings, printed, in the places of its verbs.
pub process_read-status :
    (cbor : AlarmCbor) (pod : ℕ → Message → Bytes) (i : ℕ) (r : Readings) (rest : Bytes)
    → Tells pod r
    → run pod i (process_read cbor (command_line FrankenCommand.device_status ++ newline ∷ rest))
      ≡ (map get_message verbs, replied (fill report_format (report_args r)))
process_read-status cbor pod i r rest t =
    process_read-status_report cbor pod i r rest t
    ∙ ap (λ report. (map get_message verbs, replied report)) (status_report-fill r)
