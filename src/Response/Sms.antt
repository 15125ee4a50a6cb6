-- ===== src/Response/Sms.antt =====
-- at_response.cpp: the handlers of lines about SMS and USSD.
use yate_datacard.At.{AtCmd, AtCommand, at_command_with, cmd_at_cmgr, cmd_at_cmgs}
use yate_datacard.CharConv.{Converted, failed, hexstr_7bit_to_char, hexstr_ucs2_to_utf8, written}
use yate_datacard.Device.{Device, append_command, on_receive_sms, on_receive_ussd}
use yate_datacard.Device.Calls.{callback}
use yate_datacard.Env.{Env}
use yate_datacard.Prelude.{
  Bool, Bytes, Option, [], c_str, codes, false, if◌then◌else◌, is_neg, length, negsuc, none, not,
  pos, some, true, ℕ, ℤ, ◌&&◌, ◌++◌, ◌==◌, ◌||◌,
}
use yate_datacard.Response.Parse.{at_parse_cmti, at_parse_cusd}
use yate_datacard.Tty.{at_send_sms_text}

-- The part of `PDU` that these handlers use: `PDU(str).parse()` with the number, the data header
-- and the message that it leaves; none where it returns false.
pub record PduReader : Type 0 where
  pub parse : Bytes → Option (Bytes × Bytes × Bytes)

unfoldable pub at_response_cmti : Env → Bytes → Device → Device × ℤ
at_response_cmti env str d =
    let index = at_parse_cmti str in
    if is_neg index then (d, negsuc 0) else if d.disablesms then (d, pos 0) else (
      append_command d (
          at_command_with (codes "AT+CMGR=" ++ env.string_of_int index) cmd_at_cmgr
            (env.string_of_int index)),
      pos 0,
    )

-- What `at_parse_cmgr` reads is only logged.
unfoldable pub at_response_cmgr : Device → Device × ℤ
at_response_cmgr d = (record d { incoming_pdu = true }, pos 0)

unfoldable pub is_cmd_at_cmgs : AtCmd → Bool
is_cmd_at_cmgs cmd_at_cmgs = true
is_cmd_at_cmgs _ = false

unfoldable pub prompt_text : Env → Option Bytes → Device → Device
prompt_text env none d = d
prompt_text env (some text) d = (at_send_sms_text env text d).0

unfoldable pub answer_prompt : Env → Option AtCommand → Device → Device
unfolding is_cmd_at_cmgs prompt_text
answer_prompt env none d = (at_send_sms_text env [] d).0
answer_prompt env (some last) d =
    if is_cmd_at_cmgs last.cmd then prompt_text env last.obj d else (at_send_sms_text env [] d).0

-- The text of the message that is being sent; an empty one leaves an unexpected prompt.
unfoldable pub at_response_sms_prompt : Env → Device → Device × ℤ
unfolding answer_prompt
at_response_sms_prompt env d = (answer_prompt env d.lastcmd d, pos 0)

ussd_text : Converted → Option Bytes
ussd_text (failed e) = none
ussd_text (written text) = if length text == 0 then none else some (c_str text)

decode_cusd : Env → Bool → Bytes × ℕ → Option Bytes
unfolding ussd_text
decode_cusd env ucs2 (cusd, dcs) =
    if (dcs == 0 || dcs == 15) && not ucs2
    then ussd_text (hexstr_7bit_to_char cusd 1024)
    else ussd_text (hexstr_ucs2_to_utf8 env cusd 1024)

report_cusd : Option Bytes → Device → Device × ℤ
report_cusd none d = (d, negsuc 0)
report_cusd (some text) d = (callback d (on_receive_ussd text), pos 0)

unfoldable pub at_response_cusd : Env → Bytes → Device → Device × ℤ
unfolding decode_cusd report_cusd
at_response_cusd env str d = elim (at_parse_cusd env str) [
  | none ↦ (d, pos 0)
  | some message ↦ report_cusd (decode_cusd env d.cusd_use_ucs2_decoding message) d
]

-- `receiveSMS`
receive_sms : Option (Bytes × Bytes × Bytes) → Device → Device × Bool
receive_sms none d = (d, false)
receive_sms (some (number, udh, message)) d = (callback d (on_receive_sms number udh message), true)

pdu_result : Device × Bool → Device × ℤ
pdu_result (d, true) = (d, pos 0)
pdu_result (d, false) = (d, pos 1)

unfoldable pub at_response_pdu : PduReader → Bytes → Device → Device × ℤ
unfolding receive_sms pdu_result
at_response_pdu pdu str d =
    if d.incoming_pdu
    then pdu_result (receive_sms (pdu.parse str) (record d { incoming_pdu = false }))
    else (d, pos 0)
