-- ===== src/Engine/Tests.antt =====
-- Runs of the engine's side of the driver.
use mathlib.Core.Option
use yate_datacard.Device.Calls.{datacard_busy}
use yate_datacard.Device.EndReason.{get_reason}
use yate_datacard.Devices.{CardDevice, get_params}
use yate_datacard.Devices.Configured.{Section}
use yate_datacard.Engine.{
  Settings, Yate, channel_disconnected, channel_hangup, enqueued, new_effects,
  on_receive_sms_messages,
}
use yate_datacard.Engine.Commands.{
  Texts, do_command, do_command-send_ussd, do_complete, handled, received_status, ussd_answer,
}
use yate_datacard.Engine.Ends.{Disconnects, IsTold, at_response_cend-Disconnects, loop-IsTold}
use yate_datacard.Engine.Received.{deliver_pdu-enqueued}
use yate_datacard.Libc.Scan.{is_digit}
use yate_datacard.Loop.{loop, readable, tty_lost}
use yate_datacard.Loop.Kept.{device_of}
use yate_datacard.Messages.{send_ussd}
use yate_datacard.Pdu.Deliver.{deliver_pdu}
use yate_datacard.Pdu.Parse.{pdu_reader}
use yate_datacard.Prelude.{
  All, Bool, Bytes, List, Option, [], arith, codes, drop, false, if◌then◌else◌, length, none, pos,
  refl, some, starts_with, true, ◌++◌, ◌+◌, ◌∷◌, ◌≡◌, ◌⊎◌,
}
use yate_datacard.Response.Call.{at_response_cend}
use yate_datacard.Response.Parse.{scan_cend}
use yate_datacard.Response.Sms.{at_response_pdu}
use yate_datacard.Samples.{busy_device, env, iconv, no_pdu, stamp, stamp-ValidStamp, up_device}

abbrev settings : Settings
settings = record { device_monitor = true; inband_dtmf = false }

abbrev yate : Yate
yate = record {
  channel_params = λ name. (codes "id", codes "datacard/1") ∷ [];
  set_param = λ name value params. (name, value) ∷ params;
}

at_response_cend-Disconnects_example :
    let str = codes "^CEND:1,10,104,17" in
    let effects =
      new_effects settings env yate
        (codes "card1")
        busy_device
        (at_response_cend (codes "^CEND:1,10,104,17") busy_device).0 in
    let reason = get_reason (scan_cend str).0 (scan_cend str).1 in
    ((busy_device.has_conn ≡ true) × Disconnects reason effects)
    ⊎ ((busy_device.has_conn ≡ false) × (effects ≡ []))
at_response_cend-Disconnects_example =
    at_response_cend-Disconnects settings env yate (codes "card1") (codes "^CEND:1,10,104,17")
      busy_device

deliver_pdu-enqueued_example :
    new_effects settings env yate
      (codes "card1")
      (record up_device { incoming_pdu = true })
      (at_response_pdu
        (pdu_reader iconv)
        (deliver_pdu (codes "12345") stamp (codes "Hi"))
        (record up_device { incoming_pdu = true })).0
    ≡ enqueued record {
      name = codes "datacard.sms";
      params =
          (codes "type", codes "incoming")
          ∷ (codes "module", codes "datacard")
          ∷ (codes "caller", codes "12345")
          ∷ (codes "text", codes "Hi")
          ∷ get_params env
              (record { name = codes "card1"; device = record up_device { incoming_pdu = true } });
    }
      ∷ []
unfolding is_digit
deliver_pdu-enqueued_example =
    deliver_pdu-enqueued settings env yate (codes "card1") iconv (codes "12345") stamp (codes "Hi")
      (record up_device { incoming_pdu = true }) refl (omega arith) (omega arith) stamp-ValidStamp
      ((omega arith, omega arith), ((omega arith, omega arith), tt)) (omega arith) refl

-- The reason of a busy callee.
busy_disconnects : channel_hangup datacard_busy ≡ channel_disconnected (some (codes "busy")) ∷ []
unfolding channel_hangup
busy_disconnects = refl

reported_data_header :
    on_receive_sms_messages env
      (record { name = codes "card1"; device = up_device })
      (codes "1")
      (codes "05")
      (codes "Hi")
    ≡ enqueued record {
      name = codes "datacard.sms";
      params =
          (codes "type", codes "incoming")
          ∷ (codes "module", codes "datacard")
          ∷ (codes "caller", codes "1")
          ∷ (codes "udh_data", codes "05")
          ∷ (codes "text", codes "Hi")
          ∷ get_params env (record { name = codes "card1"; device = up_device });
    }
      ∷ []
unfolding on_receive_sms_messages
reported_data_header = refl

-- The text behind a word and a space.
abbrev skip_word : Bytes → Bytes → Option Bytes
skip_word line word =
    if starts_with (word ++ codes " ") line then some (drop (length word + 1) line) else none

abbrev texts : Texts
texts = record {
  start_skip = skip_word;
  skip_name = skip_word;
  starts_text = λ text start. starts_with start text;
  trim_blanks = λ text. text;
  driver_prefix = codes "datacard/";
}

abbrev card : CardDevice
card = record { name = codes "card1"; device = up_device }

do_command-send_ussd_example :
    do_command texts env
      (record { at_name = λ devices name. some 0 })
      (codes "ussd card1 *100#")
      (card ∷ [])
    ≡ Option.map {B = List CardDevice × Bytes}
        (λ r. (record card { device = r.0 } ∷ [], ussd_answer r.1))
        (send_ussd env (codes "*100#") up_device)
do_command-send_ussd_example =
    do_command-send_ussd texts env (record { at_name = λ devices name. some 0 })
      (codes "ussd card1 *100#") (codes "card1") (codes "*100#") [] [] card refl
      (refl, (refl, (refl, (refl, (refl, tt))))) refl refl refl

other_command :
    do_command texts env (record { at_name = λ devices name. none }) (codes "sms") (card ∷ [])
    ≡ some (card ∷ [], codes "\r\n")
unfolding do_command
other_command = refl

asked_status :
    received_status texts env (codes "datacard devices") []
    ≡ handled (codes "module=datacard,devices\r\n")
unfolding received_status
asked_status = refl

-- A device, the general section, and one that is not enabled.
abbrev section_of : Bytes → Bool → Section
section_of name enabled = record {
  name = name;
  list = record {
    get_value = λ key. [];
    get_bool_value = λ key default. enabled;
    get_int_value = λ key default. default;
  };
}

completed_names :
    do_complete (codes "datacard ussd") (
      section_of (codes "general") true
      ∷ section_of (codes "card1") true
      ∷ section_of (codes "card2") false
      ∷ [])
    ≡ codes "card1" ∷ []
unfolding do_complete
completed_names = refl

completed_status : do_complete (codes "status datacard") [] ≡ codes "devices" ∷ []
unfolding do_complete
completed_status = refl

-- A call ends while the thread runs, and then the modem goes away.
loop-IsTold_example :
    let es = readable (codes "^CEND:1,10,104,17\r") (pos 0) ∷ tty_lost ∷ [] in
    All IsTold (device_of (loop env no_pdu es busy_device)).calls
loop-IsTold_example =
    loop-IsTold env no_pdu (readable (codes "^CEND:1,10,104,17\r") (pos 0) ∷ tty_lost ∷ [])
      busy_device refl
