-- ===== src/SparkServer/FrankenSocket/Faults.antt =====
-- Which reads make the server panic.
use eight_sleep_pod2server.Prelude.{
  ℕ, ◌+◌, ◌≡◌, ◌≢◌, ◌↔◌, refl, ap, sym, ◌∙◌, Bool, true, false, some, List, [], ◌∷◌, Bytes, arith,
  Option-cases, inl, inr,
}
use eight_sleep_pod2server.Prelude.Int.{ℤ, pos, negsuc}
use eight_sleep_pod2server.Prelude.Decimal.{atoi}
use eight_sleep_pod2server.SparkServer.Pod.{Message}
use eight_sleep_pod2server.SparkServer.Exchange.{done, run}
use eight_sleep_pod2server.SparkServer.Api.{
  BedSide, AlarmCbor, set_time, set_level, set_alarm, clear_alarms,
}
use eight_sleep_pod2server.SparkServer.Api.Status.{get_status}
use eight_sleep_pod2server.SparkServer.FrankenSocket.{
  FrankenCommand, number, switch_cases, find_case, split_lines, with_int, confirm, handle_command,
  dispatch, process_read, replied, silent, panicked, ok_reply,
}
use eight_sleep_pod2server.SparkServer.FrankenSocket.Lines.{
  IsLine, split_lines-line, IsLine-of_split,
}

-- The commands that come with an argument.
abbrev pub takes_line : FrankenCommand → Bool
takes_line FrankenCommand.alarm_left = true
takes_line FrankenCommand.alarm_right = true
takes_line FrankenCommand.set_settings = true
takes_line FrankenCommand.left_temp_dur = true
takes_line FrankenCommand.right_temp_dur = true
takes_line FrankenCommand.temp_level_left = true
takes_line FrankenCommand.temp_level_right = true
takes_line _ = false

find_case-number :
    (c : FrankenCommand) → takes_line c ≡ true → find_case switch_cases (pos (number c)) ≡ some c
find_case-number FrankenCommand.alarm_left h = refl
find_case-number FrankenCommand.alarm_right h = refl
find_case-number FrankenCommand.set_settings h = refl
find_case-number FrankenCommand.left_temp_dur h = refl
find_case-number FrankenCommand.right_temp_dur h = refl
find_case-number FrankenCommand.temp_level_left h = refl
find_case-number FrankenCommand.temp_level_right h = refl
find_case-number _ h = absurd (cc)

find_case_sound :
    (cs : List FrankenCommand) (value : ℤ) (c : FrankenCommand)
    → find_case cs value ≡ some c
    → value ≡ pos (number c)
find_case_sound [] value c e = absurd (cc)
find_case_sound (d ∷ cs) (pos n) c e = ground (arith, find_case_sound cs (pos n) c)
find_case_sound (d ∷ cs) (negsuc n) c e = find_case_sound cs (negsuc n) c e

module _ (pod : ℕ → Message → Bytes) where
  run-confirm : (i : ℕ) (msgs : List Message) → (run pod i (confirm msgs)).1 ≡ replied ok_reply
  run-confirm i [] = refl
  run-confirm i (msg ∷ msgs) = run-confirm (i + 1) msgs

  run-with_int :
      (i : ℕ) (line : Bytes) (lines : List Bytes) (msg : ℤ → Message)
      → (run pod i (with_int (line ∷ lines) (λ arg. confirm (msg arg ∷ [])))).1 ≢ panicked
  run-with_int i line lines msg e = elim (Option-cases (atoi line)) [
    | inl bad ↦ ground arith
    | inr (arg, read) ↦ ground arith
  ]

  module _ (cbor : AlarmCbor) where
    run-handle_command :
        (i : ℕ) (c : FrankenCommand) (lines : List Bytes)
        → (run pod i (handle_command cbor c lines)).1 ≡ panicked
        → (takes_line c ≡ true) × (lines ≡ [])
    unfolding handle_command get_status
    run-handle_command i FrankenCommand.left_temp_dur [] e = (refl, refl)
    run-handle_command i FrankenCommand.left_temp_dur (line ∷ lines) e =
        absurd (run-with_int i line lines (λ arg. set_time arg BedSide.left) e)
    run-handle_command i FrankenCommand.right_temp_dur [] e = (refl, refl)
    run-handle_command i FrankenCommand.right_temp_dur (line ∷ lines) e =
        absurd (run-with_int i line lines (λ arg. set_time arg BedSide.right) e)
    run-handle_command i FrankenCommand.temp_level_left [] e = (refl, refl)
    run-handle_command i FrankenCommand.temp_level_left (line ∷ lines) e =
        absurd (run-with_int i line lines (λ arg. set_level arg BedSide.left) e)
    run-handle_command i FrankenCommand.temp_level_right [] e = (refl, refl)
    run-handle_command i FrankenCommand.temp_level_right (line ∷ lines) e =
        absurd (run-with_int i line lines (λ arg. set_level arg BedSide.right) e)
    run-handle_command i FrankenCommand.alarm_left [] e = (refl, refl)
    run-handle_command i FrankenCommand.alarm_left (line ∷ lines) e =
        absurd (cc (run-confirm i (set_alarm cbor BedSide.left line), e))
    run-handle_command i FrankenCommand.alarm_right [] e = (refl, refl)
    run-handle_command i FrankenCommand.alarm_right (line ∷ lines) e =
        absurd (cc (run-confirm i (set_alarm cbor BedSide.right line), e))
    run-handle_command i FrankenCommand.set_settings [] e = (refl, refl)
    run-handle_command i FrankenCommand.set_settings (line ∷ lines) e = absurd (cc)
    run-handle_command i FrankenCommand.alarm_clear lines e =
        absurd (cc (run-confirm i (clear_alarms cbor), e))
    run-handle_command i FrankenCommand.device_status lines e = absurd (cc)
    run-handle_command i FrankenCommand.prime lines e = absurd (cc)
    run-handle_command i FrankenCommand.hello lines e = absurd (cc)
    run-handle_command i FrankenCommand.set_temp lines e = absurd (cc)
    run-handle_command i FrankenCommand.set_alarm_at_once lines e = absurd (cc)

    handle_command_without_line :
        (i : ℕ) (c : FrankenCommand)
        → takes_line c ≡ true
        → (run pod i (handle_command cbor c [])).1 ≡ panicked
    unfolding handle_command
    handle_command_without_line i FrankenCommand.left_temp_dur h = refl
    handle_command_without_line i FrankenCommand.right_temp_dur h = refl
    handle_command_without_line i FrankenCommand.temp_level_left h = refl
    handle_command_without_line i FrankenCommand.temp_level_right h = refl
    handle_command_without_line i FrankenCommand.alarm_left h = refl
    handle_command_without_line i FrankenCommand.alarm_right h = refl
    handle_command_without_line i FrankenCommand.set_settings h = refl
    handle_command_without_line i FrankenCommand.device_status h = absurd (cc)
    handle_command_without_line i FrankenCommand.prime h = absurd (cc)
    handle_command_without_line i FrankenCommand.alarm_clear h = absurd (cc)
    handle_command_without_line i FrankenCommand.hello h = absurd (cc)
    handle_command_without_line i FrankenCommand.set_temp h = absurd (cc)
    handle_command_without_line i FrankenCommand.set_alarm_at_once h = absurd (cc)

    run-dispatch :
        (i : ℕ) (version : Bytes) (lines : List Bytes)
        → (run pod i (dispatch cbor version lines)).1 ≡ panicked
        → (c : FrankenCommand) × (takes_line c ≡ true)
          × (atoi version ≡ some (pos (number c)))
          × (lines ≡ [])
    unfolding dispatch
    run-dispatch i version lines e = elim (Option-cases (atoi version)) [
      | inl bad ↦ absurd (cc (rw (bad, dispatch) at e))
      | inr (value, read) ↦ elim (Option-cases (find_case switch_cases value)) [
        | inl unknown ↦
            let d : dispatch cbor version lines ≡ done silent =
              rw (read, dispatch, unknown, dispatch) in
            absurd (cc (ap (λ x. (run pod i x).1) d, e))
        | inr (c, known) ↦
            let d : dispatch cbor version lines ≡ handle_command cbor c lines =
              rw (read, dispatch, known, dispatch) in
            let (takes, none_left) =
              run-handle_command i c lines (sym (ap (λ x. (run pod i x).1) d) ∙ e) in
            (
              c,
              takes,
              read ∙ ap (λ v. some v) (find_case_sound switch_cases value c known),
              none_left,
            )
      ]
    ]

    dispatch_case :
        (c : FrankenCommand) (version : Bytes) (lines : List Bytes)
        → takes_line c ≡ true
        → atoi version ≡ some (pos (number c))
        → dispatch cbor version lines ≡ handle_command cbor c lines
    unfolding dispatch
    dispatch_case c version lines takes read =
        rw (read, dispatch, find_case-number c takes, dispatch)

    -- A read makes the server panic exactly if it is the number of a command that takes an argument, with
    -- no newline behind it.
    pub process_read-panicked :
        (i : ℕ) (bytes : Bytes)
        → ((run pod i (process_read cbor bytes)).1 ≡ panicked) ↔ (
            (c : FrankenCommand) × (takes_line c ≡ true)
            × (atoi bytes ≡ some (pos (number c)))
            × IsLine bytes)
    unfolding process_read
    process_read-panicked i bytes = (forward, backward)
      where
        forward :
            (run pod i (process_read cbor bytes)).1 ≡ panicked
            → (c : FrankenCommand) × (takes_line c ≡ true)
              × (atoi bytes ≡ some (pos (number c)))
              × IsLine bytes
        forward e =
            let (c, takes, read, none_left) =
              run-dispatch i (split_lines bytes).0 (split_lines bytes).1 e in
            let line = IsLine-of_split bytes none_left in
            (c, takes, ap (λ parts. atoi parts.0) (sym (split_lines-line bytes line)) ∙ read, line)

        backward :
            ((c : FrankenCommand) × (takes_line c ≡ true)
              × (atoi bytes ≡ some (pos (number c)))
              × IsLine bytes)
            → (run pod i (process_read cbor bytes)).1 ≡ panicked
        backward (c, takes, read, line) =
            ap (λ parts. (run pod i (dispatch cbor parts.0 parts.1)).1)
              (split_lines-line bytes line)
            ∙ ap (λ x. (run pod i x).1) (dispatch_case c bytes [] takes read)
            ∙ handle_command_without_line i c takes
