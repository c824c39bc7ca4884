-- ===== src/SparkServer/FrankenSocket/Settings.antt =====
-- Whole connections of the control socket: settings that come one read behind the other.
use eight_sleep_pod2server.Prelude.{
  ℕ, ◌+◌, ◌≡◌, refl, ap, ◌∙◌, Bool, true, false, List, [], ◌∷◌, ◌++◌, Bytes, All, map, replicate,
  length,
}
use eight_sleep_pod2server.Prelude.Int.{ℤ, IsInt64}
use eight_sleep_pod2server.Prelude.Decimal.{itoa}
use eight_sleep_pod2server.Prelude.Decimal.RoundTrip.{atoi-itoa}
use eight_sleep_pod2server.Prelude.Text.{codes}
use eight_sleep_pod2server.SparkServer.Pod.{Message}
use eight_sleep_pod2server.SparkServer.Exchange.{Exchange, done, run, run-done, ◌>>=◌}
use eight_sleep_pod2server.SparkServer.Api.{BedSide, AlarmCbor, set_value, set_time, set_level}
use eight_sleep_pod2server.SparkServer.FrankenSocket.{
  FrankenCommand, int_or_silent, newline, split_lines, confirm, ok_reply, with_int, Handling,
  replied, silent, panicked, handle_command, process_read, process_reads,
}
use eight_sleep_pod2server.SparkServer.FrankenSocket.Lines.{split_lines-append, itoa-IsLine}
use eight_sleep_pod2server.SparkServer.FrankenSocket.Commands.{command_line, process_read-command}

-- What free-sleep asks for, and whatever follows the lines of the command in its read.
pub data Setting : Type 0 where
  time level : ℤ → BedSide → Bytes → Setting
  priming : Bytes → Setting

abbrev pub IsSetting : Setting → Type 0
IsSetting (time z side tail) = IsInt64 z
IsSetting (level z side tail) = IsInt64 z
IsSetting (priming tail) = Unit

-- The command of a setting, its read, and the message that the pod gets for it.
abbrev pub command : Setting → FrankenCommand
command (time z BedSide.left tail) = FrankenCommand.left_temp_dur
command (time z BedSide.right tail) = FrankenCommand.right_temp_dur
command (level z BedSide.left tail) = FrankenCommand.temp_level_left
command (level z BedSide.right tail) = FrankenCommand.temp_level_right
command (priming tail) = FrankenCommand.prime

abbrev argument : Setting → Bytes
argument (time z side tail) = itoa z ++ newline ∷ tail
argument (level z side tail) = itoa z ++ newline ∷ tail
argument (priming tail) = tail

abbrev pub read_of : Setting → Bytes
read_of s = command_line (command s) ++ newline ∷ argument s

abbrev pub path_of : FrankenCommand → Bytes
path_of FrankenCommand.left_temp_dur = codes "leftHeat"
path_of FrankenCommand.right_temp_dur = codes "rightHeat"
path_of FrankenCommand.temp_level_left = codes "leftLevel"
path_of FrankenCommand.temp_level_right = codes "rightLevel"
path_of _ = codes "prime"

abbrev pub message_of : Setting → Message
message_of (time z side tail) = set_value (path_of (command (time z side tail))) (itoa z)
message_of (level z side tail) = set_value (path_of (command (level z side tail))) (itoa z)
message_of (priming tail) = set_value (codes "prime") (codes "true")

module _ (cbor : AlarmCbor) where
  with_argument :
      (z : ℤ) (tail : Bytes) (msg : ℤ → Message)
      → IsInt64 z
      → with_int
          ((split_lines (itoa z ++ newline ∷ tail)).0 ∷ (split_lines (itoa z ++ newline ∷ tail)).1)
          (λ arg. confirm (msg arg ∷ []))
        ≡ confirm (msg z ∷ [])
  with_argument z tail msg fits =
      ap (λ parts. with_int (parts.0 ∷ parts.1) (λ arg. confirm (msg arg ∷ [])))
        (split_lines-append (itoa z) tail (itoa-IsLine z))
      ∙ ap (λ arg. int_or_silent arg (λ a. confirm (msg a ∷ []))) (atoi-itoa z fits)

  process_read-setting :
      (s : Setting) → IsSetting s → process_read cbor (read_of s) ≡ confirm (message_of s ∷ [])
  unfolding handle_command set_time set_level
  process_read-setting (time z BedSide.left tail) fits =
      process_read-command cbor FrankenCommand.left_temp_dur _ refl
      ∙ with_argument z tail (λ arg. set_time arg BedSide.left) fits
  process_read-setting (time z BedSide.right tail) fits =
      process_read-command cbor FrankenCommand.right_temp_dur _ refl
      ∙ with_argument z tail (λ arg. set_time arg BedSide.right) fits
  process_read-setting (level z BedSide.left tail) fits =
      process_read-command cbor FrankenCommand.temp_level_left _ refl
      ∙ with_argument z tail (λ arg. set_level arg BedSide.left) fits
  process_read-setting (level z BedSide.right tail) fits =
      process_read-command cbor FrankenCommand.temp_level_right _ refl
      ∙ with_argument z tail (λ arg. set_level arg BedSide.right) fits
  process_read-setting (priming tail) fits =
      process_read-command cbor FrankenCommand.prime tail refl

  -- Settings that come one read behind the other, each with any bytes behind its lines, reach the pod as
  -- one message each, in order, whatever the pod answers, and each gets the reply "ok". Times and levels
  -- are any 64-bit integers.
  pub settings_in_order :
      (pod : ℕ → Message → Bytes) (i : ℕ) (settings : List Setting)
      → All IsSetting settings
      → run pod i (process_reads cbor (map read_of settings))
        ≡ (map message_of settings, (replicate (length settings) ok_reply, false))
  unfolding process_reads
  settings_in_order pod i [] h = refl
  settings_in_order pod i (s ∷ settings) (hs, h) =
      let rest = process_reads cbor (map read_of settings) in
      ap (λ m. run pod i (m >>= after rest)) (process_read-setting s hs)
      ∙ (λ j.
          let (msgs, ending) =
            run-done pod (i + 1) rest (λ (later : List Bytes × Bool). (ok_reply ∷ later.0, later.1))
              j in
          (message_of s ∷ msgs, ending))
      ∙ (λ j.
          let (msgs, ending) = settings_in_order pod (i + 1) settings h j in
          (message_of s ∷ msgs, (ok_reply ∷ ending.0, ending.1)))
    where
      after : Exchange (List Bytes × Bool) → Handling → Exchange (List Bytes × Bool)
      after rest handling = elim handling [
        | replied reply ↦ rest >>= λ later. done (reply ∷ later.0, later.1)
        | silent ↦ rest
        | panicked ↦ done ([], true)
      ]
