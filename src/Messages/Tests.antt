-- ===== src/Messages/Tests.antt =====
-- Runs of messages.
use yate_datacard.CharConv.{hex_dump, hexstr_7bit_to_char, written}
use yate_datacard.Device.{Device, append_command}
use yate_datacard.Env.{Env}
use yate_datacard.Libc.Hex.{hex02, hex_digit}
use yate_datacard.Loop.{write_command}
use yate_datacard.Messages.{cmgs_command, cusd_command, send_sms, send_ussd}
use yate_datacard.Messages.Laws.{send_ussd-roundtrip}
use yate_datacard.Messages.Sent.{idle, send_sms-Sent}
use yate_datacard.Pdu.Generate.{swapped_number}
use yate_datacard.Pdu.Octet.{swapchars}
use yate_datacard.Pdu.Submit.{submit_pdu}
use yate_datacard.Prelude.{Bytes, [], arith, c_str, codes, length, refl, some, true, ◌++◌, ◌∷◌, ◌≡◌}
use yate_datacard.Response.Sms.{at_response_sms_prompt}
use yate_datacard.Samples.{env, up_device}

-- A registered device that packs USSD texts.
abbrev ussd_device : Device
ussd_device = record up_device { gsm_registered = true; cusd_use_7bit_encoding = true }

send_ussd-roundtrip_example :
    (hex text : Bytes) × (send_ussd env (codes "*100#") ussd_device
      ≡ some (append_command ussd_device (cusd_command hex), true))
    × (hexstr_7bit_to_char hex 1024 ≡ written text)
    × (c_str text ≡ codes "*100#")
send_ussd-roundtrip_example =
    send_ussd-roundtrip env b'*' (codes "100#") ussd_device refl refl (omega arith) (omega arith)

abbrev sms_device : Device
sms_device = record up_device { gsm_registered = true; has_sms = true }

abbrev quick_env : Env
quick_env = record env { write = λ p. some (length p) }

send_sms-Sent_example :
    (d' : Device) × (send_sms quick_env
        (record { convert = λ to from message. some (0 ∷ message) })
        (codes "12345")
        (codes "H")
        (idle sms_device)
      ≡ some (d', true))
    × ((at_response_sms_prompt quick_env (write_command quick_env d')).0 ≡ record sms_device {
      lastcmd = some (cmgs_command quick_env 13 (codes "00110005912143F50008AA020048"));
      sent = codes "AT+CMGS=3\r00110005912143F50008AA020048" ++ (0x1a ∷ b'\r' ∷ []);
    })
unfolding hex02 hex_digit hex_dump submit_pdu swapped_number swapchars
send_sms-Sent_example =
    send_sms-Sent quick_env (record { convert = λ to from message. some (0 ∷ message) })
      (codes "12345") (codes "H") (0 ∷ b'H' ∷ []) sms_device (λ p. refl) refl refl refl
      (omega arith) (omega arith) (omega arith)
