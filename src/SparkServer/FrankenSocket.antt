-- ===== src/SparkServer/FrankenSocket.antt =====
-- SparkServer/FrankenSocket.go and SparkServer/SocketCommands.go: the commands of free-sleep. A read is
-- split into lines, and its first line is the number of the command.
pub mod Lines
pub mod Commands
pub mod Settings
pub mod Faults
pub mod Status
use eight_sleep_pod2server.Prelude.{
  ℕ, Bool, true, false, Option, none, some, List, [], ◌∷◌, ◌++◌, Bytes, ◌==◌, if◌then◌else◌,
}
use eight_sleep_pod2server.Prelude.Int.{ℤ, is_nat}
use eight_sleep_pod2server.Prelude.Decimal.{itoa, atoi}
use eight_sleep_pod2server.Prelude.Text.{codes}
use eight_sleep_pod2server.SparkServer.Pod.{Message}
use eight_sleep_pod2server.SparkServer.Exchange.{Exchange, done, ask, ask_all, ◌>>=◌, ◌>>◌}
use eight_sleep_pod2server.SparkServer.Api.{
  BedSide, AlarmCbor, set_value, set_time, set_level, set_alarm, clear_alarms,
}
use eight_sleep_pod2server.SparkServer.Api.Status.{PodStatus, get_status}

pub data FrankenCommand : Type 0 where
  hello set_temp set_alarm_at_once alarm_left alarm_right set_settings : FrankenCommand
  left_temp_dur right_temp_dur temp_level_left temp_level_right prime : FrankenCommand
  device_status alarm_clear : FrankenCommand

-- The constants of SocketCommands.go.
abbrev pub number : FrankenCommand → ℕ
number hello = 0
number set_temp = 1
number set_alarm_at_once = 2
number alarm_left = 5
number alarm_right = 6
number set_settings = 8
number left_temp_dur = 9
number right_temp_dur = 10
number temp_level_left = 11
number temp_level_right = 12
number prime = 13
number device_status = 14
number alarm_clear = 16

-- The cases of the `switch`.
abbrev pub switch_cases : List FrankenCommand
switch_cases =
    device_status ∷ left_temp_dur ∷ right_temp_dur ∷ temp_level_left ∷ temp_level_right ∷ prime
    ∷ alarm_left ∷ alarm_right ∷ alarm_clear ∷ set_settings ∷ []

abbrev pub find_case : List FrankenCommand → ℤ → Option FrankenCommand
find_case [] version = none
find_case (c ∷ cs) version = if is_nat version (number c) then some c else find_case cs version

abbrev pub newline : ℕ
newline = 10

-- `strings.Split(s, "\n")`: the first part, which is always there, and the others.
unfoldable pub split_lines : Bytes → Bytes × List Bytes
split_lines [] = ([], [])
split_lines (b ∷ bytes) =
    let (part, parts) = split_lines bytes in
    if b == newline then ([], part ∷ parts) else (b ∷ part, parts)

-- How a read is handled: with a reply, with none (an error that is logged, or an unknown command), or by
-- a panic.
pub data Handling : Type 0 where
  replied : Bytes → Handling
  silent : Handling
  panicked : Handling

abbrev pub ok_reply : Bytes
ok_reply = codes "ok" ++ newline ∷ newline ∷ []

-- `parts[1]`
abbrev pub with_line : List Bytes → (Bytes → Exchange Handling) → Exchange Handling
with_line [] next = done panicked
with_line (line ∷ lines) next = next line

-- `strconv.Atoi(parts[1])`: an error is logged.
abbrev pub int_or_silent : Option ℤ → (ℤ → Exchange Handling) → Exchange Handling
int_or_silent none next = done silent
int_or_silent (some arg) next = next arg

abbrev pub with_int : List Bytes → (ℤ → Exchange Handling) → Exchange Handling
with_int lines next = with_line lines (λ line. int_or_silent (atoi line) next)

-- The requests of a command, and then the reply.
abbrev pub confirm : List Message → Exchange Handling
confirm msgs = ask_all msgs >> done (replied ok_reply)

-- The lines of `fmt.Sprintf` for the status.
abbrev pub report_line : Bytes → Bytes → Bytes
report_line name value = name ++ codes " = " ++ value ++ newline ∷ []

abbrev pub format_bool : Bool → Bytes
format_bool true = codes "true"
format_bool false = codes "false"

unfoldable pub status_report : PodStatus → Bytes
status_report status =
    report_line (codes "tgHeatLevelR") (itoa status.right_bed.target_heat_level)
    ++ report_line (codes "tgHeatLevelL") (itoa status.left_bed.target_heat_level)
    ++ report_line (codes "heatTimeR") (itoa status.right_bed.heat_time)
    ++ report_line (codes "heatTimeL") (itoa status.left_bed.heat_time)
    ++ report_line (codes "heatLevelR") (itoa status.right_bed.heat_level)
    ++ report_line (codes "heatLevelL") (itoa status.left_bed.heat_level)
    ++ report_line (codes "sensorLabel") status.sensor_label
    ++ report_line (codes "waterLevel") (format_bool status.water_level)
    ++ report_line (codes "priming") (format_bool status.priming)
    ++ report_line (codes "settings") status.settings
    ++ newline ∷ []

module _ (cbor : AlarmCbor) where
  -- The `switch cmd`, with the parts behind the first. `SetAlarm` hands no error up.
  unfoldable pub handle_command : FrankenCommand → List Bytes → Exchange Handling
  handle_command device_status lines = do status ← get_status; done (replied (status_report status))
  handle_command left_temp_dur lines =
      with_int lines (λ arg. confirm (set_time arg BedSide.left ∷ []))
  handle_command right_temp_dur lines =
      with_int lines (λ arg. confirm (set_time arg BedSide.right ∷ []))
  handle_command temp_level_left lines =
      with_int lines (λ arg. confirm (set_level arg BedSide.left ∷ []))
  handle_command temp_level_right lines =
      with_int lines (λ arg. confirm (set_level arg BedSide.right ∷ []))
  handle_command prime lines = confirm (set_value (codes "prime") (codes "true") ∷ [])
  handle_command alarm_left lines =
      with_line lines (λ line. confirm (set_alarm cbor BedSide.left line))
  handle_command alarm_right lines =
      with_line lines (λ line. confirm (set_alarm cbor BedSide.right line))
  handle_command alarm_clear lines = confirm (clear_alarms cbor)
  handle_command set_settings lines =
      with_line lines (λ line. confirm (set_value (codes "setsettings") line ∷ []))
  handle_command hello lines = done silent
  handle_command set_temp lines = done silent
  handle_command set_alarm_at_once lines = done silent

  -- The conversion of the first part, and the `switch`.
  unfoldable pub dispatch : Bytes → List Bytes → Exchange Handling
  dispatch version lines = elim (atoi version) [
    | none ↦ done silent
    | some value ↦ elim (find_case switch_cases value) [
      | none ↦ done silent
      | some command ↦ handle_command command lines
    ]
  ]

  -- One read of `processUnixSocket`.
  unfoldable pub process_read : Bytes → Exchange Handling
  process_read bytes = let (version, lines) = split_lines bytes in dispatch version lines

  -- `processUnixSocket` on the reads until one fails: the replies, and whether it panicked.
  unfoldable pub process_reads : List Bytes → Exchange (List Bytes × Bool)
  process_reads [] = done ([], false)
  process_reads (bytes ∷ reads) = process_read bytes >>= λ handling. elim handling [
    | replied reply ↦ process_reads reads >>= λ later. done (reply ∷ later.0, later.1)
    | silent ↦ process_reads reads
    | panicked ↦ done ([], true)
  ]

  -- `connectToUnixSocket`: one connection behind the other, `none` where `net.Dial` fails, until a panic.
  unfoldable pub connect_to_unix_socket : List (Option (List Bytes)) → Exchange (List Bytes × Bool)
  connect_to_unix_socket [] = done ([], false)
  connect_to_unix_socket (none ∷ dials) = connect_to_unix_socket dials
  connect_to_unix_socket (some reads ∷ dials) = process_reads reads >>= λ now. elim now.1 [
    | true ↦ done now
    | false ↦ connect_to_unix_socket dials >>= λ later. done (now.0 ++ later.0, later.1)
  ]
