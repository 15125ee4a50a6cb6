-- ===== src/Engine/Received.antt =====
-- What the engine is told of a message that a modem received.
use yate_datacard.CharConv.SevenBit.{IsText}
use yate_datacard.Device.{Device, on_receive_sms}
use yate_datacard.Devices.{get_params}
use yate_datacard.Engine.{
  Settings, Yate, all_effects, effects_of, enqueued, new_effects, on_receive_sms_messages,
}
use yate_datacard.Engine.Ends.{new_effects-append}
use yate_datacard.Env.{Env}
use yate_datacard.Pdu.Address.{all_digits}
use yate_datacard.Pdu.Deliver.{deliver_pdu}
use yate_datacard.Pdu.Parse.{Iconv, pdu_reader}
use yate_datacard.Pdu.Received.{at_response_pdu-deliver_pdu}
use yate_datacard.Pdu.StampRead.{Stamp, ValidStamp}
use yate_datacard.Prelude.{Bytes, [], ap, codes, length, true, ◌%◌, ◌+◌, ◌<◌, ◌∙◌, ◌∷◌, ◌≡◌, ◌≤◌}
use yate_datacard.Response.Sms.{at_response_pdu}

-- The line behind +CMGR with an SMS-DELIVER from a number of 1 to 62 digits, with a valid time
-- stamp and up to 160 characters from 1 to 127 in the 7-bit alphabet: the engine gets one message,
-- datacard.sms, with the number as the caller, the text as it was sent, no data header, and the
-- parameters of the device.
pub deliver_pdu-enqueued :
    (settings : Settings) (env : Env) (yate : Yate) (name : Bytes) (iconv : Iconv) (digits : Bytes)
    (t : Stamp) (text : Bytes) (d : Device)
    → all_digits digits ≡ true
    → 0 < length digits
    → length digits + length digits % 2 < 64
    → ValidStamp t
    → IsText text
    → length text ≤ 160
    → d.incoming_pdu ≡ true
    → let after = (at_response_pdu (pdu_reader iconv) (deliver_pdu digits t text) d).0 in
      new_effects settings env yate name d after
      ≡ enqueued record {
        name = codes "datacard.sms";
        params =
            (codes "type", codes "incoming")
            ∷ (codes "module", codes "datacard")
            ∷ (codes "caller", digits)
            ∷ (codes "text", text)
            ∷ get_params env (record { name = name; device = d });
      }
        ∷ []
unfolding all_effects effects_of on_receive_sms_messages get_params
deliver_pdu-enqueued settings env yate name iconv digits t text d h any l v ok fits waits =
    let told = at_response_pdu-deliver_pdu iconv digits t text d h any l v ok fits waits in
    let sms = on_receive_sms digits [] text ∷ [] in
    new_effects-append settings env yate name d _ sms (ap (λ r. r.0.calls) told)
    ∙ ap (λ r. all_effects settings env yate (record { name = name; device = r.0 }) sms) told
