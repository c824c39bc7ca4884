-- ===== src/SparkServer/Tests/Alarms.antt =====
-- Alarms of the control server on small inputs.
use eight_sleep_pod2server.Prelude.{
  ℕ, zero, suc, ◌≡◌, refl, false, none, some, Option, [], ◌∷◌, Bytes, IsByte, All, arith,
}
use eight_sleep_pod2server.Prelude.Text.{codes, text_eq}
use eight_sleep_pod2server.Prelude.Int.{ℤ, pos, negsuc}
use eight_sleep_pod2server.SparkServer.Api.{
  BedSide, AlarmParams, AlarmCbor, hex_encode, hex_decode, set_value, alarm_path, set_alarm,
}
use eight_sleep_pod2server.SparkServer.Api.Alarm.{set_alarm_without_rise}

-- An alarm that rises, which the library decodes from every slice.
abbrev rising : AlarmParams
rising = record { intensity = pos 50; duration = pos 600; time = 7; pattern_name = codes "rise" }

abbrev pub rising_cbor : AlarmCbor
rising_cbor = record { marshal = λ params. some (0xA5 ∷ []); unmarshal = λ bytes. some rising }

-- A library that encodes nothing but parameters of zeros.
tiny_marshal : ℤ → ℤ → ℕ → Bytes → Option Bytes
tiny_marshal (pos zero) (pos zero) zero [] = some (1 ∷ [])
tiny_marshal _ _ _ _ = none

abbrev zeros : AlarmParams
zeros = record { intensity = pos 0; duration = pos 0; time = 0; pattern_name = [] }

abbrev tiny_cbor : AlarmCbor
tiny_cbor = record {
  marshal = λ params. tiny_marshal params.intensity params.duration params.time params.pattern_name;
  unmarshal = λ bytes. some zeros;
}

tiny_decodes :
    (i d : ℤ) (t : ℕ) (p bytes : Bytes)
    → tiny_marshal i d t p ≡ some bytes
    → All IsByte bytes
      × (some zeros ≡ some (record { intensity = i; duration = d; time = t; pattern_name = p }))
unfolding tiny_marshal
tiny_decodes (pos zero) (pos zero) zero [] [] e = absurd (cc)
tiny_decodes (pos zero) (pos zero) zero [] (b ∷ []) e = ((ground arith, tt), refl)
tiny_decodes (pos zero) (pos zero) zero [] (b ∷ c ∷ bytes) e = absurd (cc)
tiny_decodes (pos zero) (pos zero) zero (x ∷ p) bytes e = absurd (cc)
tiny_decodes (pos zero) (pos zero) (suc t) p bytes e = absurd (cc)
tiny_decodes (pos zero) (pos (suc d)) t p bytes e = absurd (cc)
tiny_decodes (pos zero) (negsuc d) t p bytes e = absurd (cc)
tiny_decodes (pos (suc i)) d t p bytes e = absurd (cc)
tiny_decodes (negsuc i) d t p bytes e = absurd (cc)

set_alarm_without_rise_example :
    All
      (λ msg.
        (bytes : Bytes) × (params : AlarmParams) × (msg
          ≡ set_value (alarm_path BedSide.left) (hex_encode bytes))
        × (hex_decode (hex_encode bytes) ≡ some bytes)
        × (some zeros ≡ some params)
        × (text_eq params.pattern_name (codes "rise") ≡ false))
      (set_alarm tiny_cbor BedSide.left (hex_encode (1 ∷ [])))
set_alarm_without_rise_example =
    set_alarm_without_rise tiny_cbor BedSide.left (hex_encode (1 ∷ [])) (λ params bytes e.
      tiny_decodes params.intensity params.duration params.time params.pattern_name bytes e)
