-- ===== src/SparkServer/Tests/Sockets.antt =====
-- The control socket on small inputs.
use eight_sleep_pod2server.Prelude.{
  ℕ, ◌≡◌, ◌≢◌, ◌↔◌, refl, true, false, some, List, [], ◌∷◌, ◌++◌, Bytes, map, replicate, arith,
  if◌then◌else◌,
}
use eight_sleep_pod2server.Prelude.Int.{ℤ, pos, negsuc}
use eight_sleep_pod2server.Prelude.Decimal.{itoa, atoi}
use eight_sleep_pod2server.Prelude.Text.{codes, text_eq}
use eight_sleep_pod2server.SparkServer.Pod.{OptionId, Message}
use eight_sleep_pod2server.SparkServer.Exchange.{run}
use eight_sleep_pod2server.SparkServer.Api.{BedSide}
use eight_sleep_pod2server.SparkServer.Api.Status.{get_message}
use eight_sleep_pod2server.SparkServer.FrankenSocket.{
  FrankenCommand, number, newline, replied, panicked, ok_reply, process_read, process_reads,
}
use eight_sleep_pod2server.SparkServer.FrankenSocket.Lines.{IsLine}
use eight_sleep_pod2server.SparkServer.FrankenSocket.Commands.{command_line, process_read_two_lines}
use eight_sleep_pod2server.SparkServer.FrankenSocket.Settings.{
  Setting, time, level, priming, read_of, message_of, settings_in_order,
}
use eight_sleep_pod2server.SparkServer.FrankenSocket.Faults.{takes_line, process_read-panicked}
use eight_sleep_pod2server.SparkServer.FrankenSocket.Status.{
  SideReadings, Readings, Tells, verbs, fill, report_format, report_args, process_read-status,
}
use eight_sleep_pod2server.SparkServer.Api.Status.Quotes.{quote}
use eight_sleep_pod2server.SparkServer.Tests.Alarms.{rising_cbor}

abbrev settings : List Setting
settings =
    time (pos 3600) BedSide.left []
    ∷ level (negsuc 19) BedSide.right (newline ∷ [])
    ∷ priming []
    ∷ []

settings_in_order_example :
    run (λ i msg. []) 4 (process_reads rising_cbor (map read_of settings))
    ≡ (map message_of settings, (replicate 3 ok_reply, false))
settings_in_order_example =
    settings_in_order rising_cbor (λ i msg. []) 4 settings (omega arith, (omega arith, (tt, tt)))

process_read-panicked_example :
    ((run (λ i msg. []) 0 (process_read rising_cbor (codes "11"))).1 ≡ panicked) ↔ (
      (c : FrankenCommand) × (takes_line c ≡ true)
      × (atoi (codes "11") ≡ some (pos (number c)))
      × IsLine (codes "11"))
process_read-panicked_example = process_read-panicked (λ i msg. []) rising_cbor 0 (codes "11")

one_line : 49 ≢ newline
one_line e = absurd (omega arith)

two_line : 50 ≢ newline
two_line e = absurd (omega arith)

zero_line : 48 ≢ newline
zero_line e = absurd (omega arith)

-- A second command behind the first one is dropped.
process_read_two_lines_example :
    process_read rising_cbor (codes "11" ++ newline ∷ (codes "20" ++ newline ∷ codes "13"))
    ≡ process_read rising_cbor (codes "11" ++ newline ∷ (codes "20" ++ newline ∷ []))
process_read_two_lines_example =
    process_read_two_lines rising_cbor (codes "11") (codes "20") (codes "13") []
      (one_line, (one_line, tt)) (two_line, (zero_line, tt))

abbrev side : ℤ → SideReadings
side target = record { heat_time = pos 60; heat_level = negsuc 4; target_heat_level = target }

abbrev readings : Readings
readings = record {
  left = side (pos 20);
  right = side (negsuc 9);
  priming = true;
  water_level = false;
  sensor_label = codes "20600";
  hub_info = [];
  settings = codes "BF61";
}

abbrev verb_of : List (OptionId × Bytes) → Bytes
verb_of (v ∷ (id, verb) ∷ []) = verb
verb_of _ = []

-- The first name among some that a text is, with what stands beside it.
abbrev look_up : List (Bytes × Bytes) → Bytes → Bytes
look_up [] name = []
look_up ((key, value) ∷ entries) name = if text_eq name key then value else look_up entries name

abbrev told : List (Bytes × Bytes)
told =
    (codes "heatLevelL", itoa (negsuc 4))
    ∷ (codes "heatLevelR", itoa (negsuc 4))
    ∷ (codes "tgHeatLevelL", itoa (pos 20))
    ∷ (codes "tgHeatLevelR", itoa (negsuc 9))
    ∷ (codes "heatTimeL", itoa (pos 60))
    ∷ (codes "heatTimeR", itoa (pos 60))
    ∷ (codes "priming", codes "true")
    ∷ (codes "waterLevel", codes "false")
    ∷ (codes "sensorLabel", quote (codes "20600"))
    ∷ (codes "hubInfo", quote [])
    ∷ (codes "settings", quote (codes "BF61"))
    ∷ []

abbrev pod : ℕ → Message → Bytes
pod i msg = look_up told (verb_of msg.options)

pod-Tells : Tells pod readings
unfolding get_message
pod-Tells = record {
  heat_level_left = λ j. record { fits = omega arith; printed = refl };
  heat_level_right = λ j. record { fits = omega arith; printed = refl };
  target_left = λ j. record { fits = omega arith; printed = refl };
  target_right = λ j. record { fits = omega arith; printed = refl };
  heat_time_left = λ j. record { fits = omega arith; printed = refl };
  heat_time_right = λ j. record { fits = omega arith; printed = refl };
  priming = λ j. refl;
  water_level = λ j. refl;
  sensor_label = λ j. refl;
  hub_info = λ j. refl;
  settings = λ j. refl;
}

process_read-status_example :
    run pod 2 (process_read rising_cbor (command_line FrankenCommand.device_status ++ newline ∷ []))
    ≡ (map get_message verbs, replied (fill report_format (report_args readings)))
process_read-status_example = process_read-status rising_cbor pod 2 readings [] pod-Tells
