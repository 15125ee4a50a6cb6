-- ===== src/Messages/Laws.antt =====
-- What `sendUSSD` and `sendSMS` queue.
use yate_datacard.CharConv.{char_to_hexstr_7bit, hexstr_7bit_to_char, utf8_to_hexstr_ucs2, written}
use yate_datacard.CharConv.SevenBit.{IsText, seven_bit_roundtrip}
use yate_datacard.Device.{Device, append_command}
use yate_datacard.Env.{Env}
use yate_datacard.Messages.{
  converted_text, cusd_command, encode_ussd, is_ready, map_converted, queue_ussd, send_ussd,
}
use yate_datacard.Prelude.{
  Bool, Bytes, Option, ap, arith, c_str, false, if◌then◌else◌, length, some, true, ℕ, ◌<◌, ◌==◌,
  ◌∙◌, ◌∷◌, ◌≡◌,
}

filled_length : (n : ℕ) → 0 < n → (n == 0) ≡ false
filled_length n h = ground arith

text_taken :
    (hex : Bytes) → 0 < length hex → c_str hex ≡ hex → converted_text (written hex) ≡ some hex
unfolding converted_text
text_taken hex filled whole = rw (filled_length (length hex) filled) (ap some whole)

queued :
    (env : Env) (code hex : Bytes) (d : Device)
    → is_ready d ≡ true
    → d.cusd_use_7bit_encoding ≡ true
    → char_to_hexstr_7bit code 512 ≡ some (written hex)
    → 0 < length hex
    → c_str hex ≡ hex
    → send_ussd env code d ≡ some (append_command d (cusd_command hex), true)
unfolding send_ussd encode_ussd converted_text map_converted queue_ussd
queued env code hex d ready packed e filled whole =
    (λ i.
      if◌then◌else◌ {A = Option (Device × Bool)} (ready i)
        (queue_ussd
          (if packed i
            then map_converted (e i)
            else if d.use_ucs2_encoding
            then some (converted_text (utf8_to_hexstr_ucs2 env code 512))
            else some (some code))
          d)
        (some (d, false)))
    ∙ ap (λ t. queue_ussd (some t) d) (text_taken hex filled whole)

-- A USSD text sent in the packed 7-bit alphabet is queued as AT+CUSD with hex digits from which
-- `hexstr_7bit_to_char` reads the text back.
pub send_ussd-roundtrip :
    (env : Env) (c : ℕ) (cs : Bytes) (d : Device)
    → is_ready d ≡ true
    → d.cusd_use_7bit_encoding ≡ true
    → IsText (c ∷ cs)
    → length (c ∷ cs) < 256
    → (hex text : Bytes) × (send_ussd env (c ∷ cs) d
        ≡ some (append_command d (cusd_command hex), true))
      × (hexstr_7bit_to_char hex 1024 ≡ written text)
      × (c_str text ≡ c ∷ cs)
send_ussd-roundtrip env c cs d ready packed t fits =
    let (hex, text, e, filled, whole_hex, back, whole) =
      seven_bit_roundtrip c cs 512 1024 t (omega arith) (omega arith) in
    (hex, text, queued env (c ∷ cs) hex d ready packed e filled whole_hex, back, whole)
