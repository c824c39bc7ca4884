-- ===== src/SparkServer/Api/Alarm.antt =====
-- What `SetAlarm` and `ClearAlarms` make of alarm parameters.
use eight_sleep_pod2server.Prelude.{
  ℕ, ◌/◌, ◌%◌, ◌<◌, ◌≡◌, refl, some, [], ◌∷◌, Bytes, IsByte, All, arith, if◌then◌else◌,
  Option-cases, Bool-cases, inl, inr, false,
}
use eight_sleep_pod2server.Prelude.Text.{codes, text_eq}
use eight_sleep_pod2server.SparkServer.Api.{
  BedSide, AlarmParams, AlarmCbor, hex_digit, hex_encode, hex_value, hex_decode, set_value,
  alarm_path, pod_two_pattern, set_alarm,
}

hex_value-hex_digit : (n : ℕ) → n < 16 → hex_value (hex_digit n) ≡ some n
unfolding hex_value
hex_value-hex_digit n h = ground arith

-- Bytes that are written in hexadecimal digits are read back.
hex_decode-hex_encode :
    (bytes : Bytes) → All IsByte bytes → hex_decode (hex_encode bytes) ≡ some bytes
unfolding hex_decode hex_encode
hex_decode-hex_encode [] h = refl
hex_decode-hex_encode (b ∷ bytes) (hb, h) = ground (
  arith,
  hex_value-hex_digit (b / 16) (omega arith),
  hex_value-hex_digit (b % 16) (omega arith),
  hex_decode-hex_encode bytes h,
)

pattern_without_rise :
    (params : AlarmParams) → text_eq (pod_two_pattern params).pattern_name (codes "rise") ≡ false
unfolding pod_two_pattern
pattern_without_rise params = elim (Bool-cases (text_eq params.pattern_name (codes "rise"))) [
  | inl rise ↦ rw rise refl
  | inr other ↦ rw other other
]

-- Alarm parameters that arrive as the hexadecimal digits of their encoding go to the pod in one message,
-- to the path of the side, in the hexadecimal digits of the encoding of the same parameters, with the
-- pattern "single" for "rise".
set_alarm_lem :
    (cbor : AlarmCbor) (side : BedSide) (params : AlarmParams) (bytes marshalled : Bytes)
    → All IsByte bytes
    → cbor.unmarshal bytes ≡ some params
    → cbor.marshal (
        if text_eq params.pattern_name (codes "rise")
        then record params { pattern_name = codes "single" }
        else params)
      ≡ some marshalled
    → set_alarm cbor side (hex_encode bytes)
      ≡ set_value (alarm_path side) (hex_encode marshalled) ∷ []
unfolding set_alarm pod_two_pattern
set_alarm_lem cbor side params bytes marshalled h decoded encoded =
    ground (arith, hex_decode-hex_encode bytes h)

-- If the library decodes what it encodes: whatever the input is, each message of `SetAlarm` goes to the
-- path of the side and carries, in hexadecimal digits, parameters that are decoded to a pattern other
-- than "rise".
pub set_alarm_without_rise :
    (cbor : AlarmCbor) (side : BedSide) (input : Bytes)
    → ((params : AlarmParams) (bytes : Bytes)
        → cbor.marshal params ≡ some bytes
        → All IsByte bytes × (cbor.unmarshal bytes ≡ some params))
    → All
        (λ msg.
          (bytes : Bytes) × (params : AlarmParams) × (msg
            ≡ set_value (alarm_path side) (hex_encode bytes))
          × (hex_decode (hex_encode bytes) ≡ some bytes)
          × (cbor.unmarshal bytes ≡ some params)
          × (text_eq params.pattern_name (codes "rise") ≡ false))
        (set_alarm cbor side input)
unfolding set_alarm
set_alarm_without_rise cbor side input decodes = elim (Option-cases (hex_decode input)) [
  | inl bad ↦ rw (bad, set_alarm) tt
  | inr (sent, e) ↦ elim (Option-cases (cbor.unmarshal sent)) [
    | inl bad ↦ rw (e, bad, set_alarm) tt
    | inr (params, d) ↦ elim (Option-cases (cbor.marshal (pod_two_pattern params))) [
      | inl bad ↦ rw (e, d, bad, set_alarm) tt
      | inr (bytes, m) ↦
          let (sized, back) = decodes (pod_two_pattern params) bytes m in
          rw (e, d, m, set_alarm)
            (
              (
                bytes,
                pod_two_pattern params,
                refl,
                hex_decode-hex_encode bytes sized,
                back,
                pattern_without_rise params,
              ),
              tt,
            )
    ]
  ]
]
