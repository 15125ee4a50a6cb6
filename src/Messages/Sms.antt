-- ===== src/Messages/Sms.antt =====
-- What `sendSMS` queues, down to the text that goes to the modem.
use yate_datacard.Device.{Device, append_command}
use yate_datacard.Env.{Env}
use yate_datacard.Messages.{cmgs_command, is_ready, queue_sms, send_sms}
use yate_datacard.Pdu.Parse.{Iconv}
use yate_datacard.Pdu.Submit.{fitting, generate-submit_pdu, submit_pdu}
use yate_datacard.Prelude.{
  Bool-cases, Bytes, ap, codes, false, get_or, if◌then◌else◌, inl, inr, length, ltb, none, refl,
  some, true, ◌&&◌, ◌++◌, ◌+◌, ◌/◌, ◌<◌, ◌==◌, ◌∙◌, ◌≡◌, ◌≤◌,
}

queue_fitting :
    (env : Env) (pdu : Bytes) (d : Device)
    → queue_sms env (fitting pdu) d ≡ (
        if ltb (2 + length pdu) 160
        then some (append_command d (cmgs_command env (length pdu / 2) (codes "00" ++ pdu)), true)
        else none)
unfolding queue_sms
queue_fitting env pdu d = elim (Bool-cases (ltb (2 + length pdu) 160)) [
  | inl e ↦ rw e refl
  | inr e ↦ rw e refl
]

-- On a device that is ready and has SMS, a message that iconv gives as up to 140 octets, to a
-- number that starts with no s and has less than 256 characters: where the SMS-SUBMIT, with "00" in
-- front of it for no service centre, has less than 160 characters, AT+CMGS with the number of its
-- octets is queued, and the text waits for the prompt; a longer one is written behind `m_pdu`.
pub send_sms-submit_pdu :
    (env : Env) (iconv : Iconv) (called sms out : Bytes) (d : Device)
    → (is_ready d && d.has_sms) ≡ true
    → iconv.convert (codes "UTF16BE") (codes "UTF8") sms ≡ some out
    → (get_or called 0 0 == b's') ≡ false
    → length called < 256
    → length out ≤ 140
    → let pdu = submit_pdu called out in
      send_sms env iconv called sms d ≡ (
        if ltb (2 + length pdu) 160
        then some (append_command d (cmgs_command env (length pdu / 2) (codes "00" ++ pdu)), true)
        else none)
unfolding send_sms queue_sms
send_sms-submit_pdu env iconv called sms out d ready h s n l =
    ap (λ g. if is_ready d && d.has_sms then queue_sms env g d else some (d, false))
      (generate-submit_pdu iconv called sms out h s n l).0
    ∙ rw ready (queue_fitting env (submit_pdu called out) d)
