-- ===== src/SparkServer/FrankenSocket/Commands.antt =====
-- The reads of commands, as free-sleep spells them.
use eight_sleep_pod2server.Prelude.{
  ◌≡◌, refl, ap, sym, ◌∙◌, some, List, ◌∷◌, ◌++◌, Bytes, arith, Option-cases, inl, inr,
}
use eight_sleep_pod2server.Prelude.Int.{pos, IsInt64}
use eight_sleep_pod2server.Prelude.Decimal.{itoa, atoi}
use eight_sleep_pod2server.Prelude.Decimal.RoundTrip.{atoi-itoa}
use eight_sleep_pod2server.SparkServer.Api.{AlarmCbor}
use eight_sleep_pod2server.SparkServer.FrankenSocket.{
  FrankenCommand, dispatch, number, switch_cases, find_case, newline, split_lines, handle_command,
  process_read,
}
use eight_sleep_pod2server.SparkServer.FrankenSocket.Lines.{IsLine, split_lines-append, itoa-IsLine}

-- The first line of a command.
abbrev pub command_line : FrankenCommand → Bytes
command_line c = itoa (pos (number c))

number-IsInt64 : (c : FrankenCommand) → IsInt64 (pos (number c))
number-IsInt64 FrankenCommand.hello = omega arith
number-IsInt64 FrankenCommand.set_temp = omega arith
number-IsInt64 _ = omega arith

module _ (cbor : AlarmCbor) where
  -- A read whose first line is the number of a case of the switch.
  pub process_read-command :
      (c : FrankenCommand) (rest : Bytes)
      → find_case switch_cases (pos (number c)) ≡ some c
      → process_read cbor (command_line c ++ newline ∷ rest)
        ≡ handle_command cbor c ((split_lines rest).0 ∷ (split_lines rest).1)
  unfolding process_read dispatch
  process_read-command c rest found =
      let split = split_lines-append (command_line c) rest (itoa-IsLine (pos (number c))) in
      ap (λ parts. dispatch cbor parts.0 parts.1) split
      ∙ rw (atoi-itoa (pos (number c)) (number-IsInt64 c), dispatch, found, dispatch)

  -- Only the second line is read.
  handle_command_line :
      (c : FrankenCommand) (line : Bytes) (lines others : List Bytes)
      → handle_command cbor c (line ∷ lines) ≡ handle_command cbor c (line ∷ others)
  unfolding handle_command
  handle_command_line FrankenCommand.hello line lines others = refl
  handle_command_line FrankenCommand.set_temp line lines others = refl
  handle_command_line _ line lines others = refl

  dispatch_line :
      (version line : Bytes) (lines others : List Bytes)
      → dispatch cbor version (line ∷ lines) ≡ dispatch cbor version (line ∷ others)
  unfolding dispatch
  dispatch_line version line lines others = elim (Option-cases (atoi version)) [
    | inl bad ↦ rw (bad, dispatch)
    | inr (value, read) ↦ elim (Option-cases (find_case switch_cases value)) [
      | inl unknown ↦ rw (read, dispatch, unknown, dispatch)
      | inr (c, known) ↦
          rw (read, dispatch, known, dispatch) (handle_command_line c line lines others)
    ]
  ]

  -- A read is handled by its first two lines: whatever follows them, another command included, is
  -- dropped.
  pub process_read_two_lines :
      (version line tail other : Bytes)
      → IsLine version
      → IsLine line
      → process_read cbor (version ++ newline ∷ (line ++ newline ∷ tail))
        ≡ process_read cbor (version ++ newline ∷ (line ++ newline ∷ other))
  unfolding process_read
  process_read_two_lines version line tail other hv hl =
      whole tail
      ∙ dispatch_line version line ((split_lines tail).0 ∷ (split_lines tail).1)
          ((split_lines other).0 ∷ (split_lines other).1)
      ∙ sym (whole other)
    where
      whole :
          (rest : Bytes)
          → process_read cbor (version ++ newline ∷ (line ++ newline ∷ rest))
            ≡ dispatch cbor version (line ∷ (split_lines rest).0 ∷ (split_lines rest).1)
      whole rest =
          ap (λ parts. dispatch cbor parts.0 parts.1)
            (split_lines-append version (line ++ newline ∷ rest) hv)
          ∙ ap (λ parts. dispatch cbor version (parts.0 ∷ parts.1))
              (split_lines-append line rest hl)
