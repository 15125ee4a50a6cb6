-- ===== src/Messages.antt =====
-- What the user sends: `CardDevice::sendUSSD` with `encodeUSSD`, and `sendSMS` (datacarddevice.cpp).
mod Laws
mod Sms
mod Sent
mod Tests
use yate_datacard.At.{AtCommand, at_command, at_command_with, cmd_at_cmgs, cmd_at_cusd}
use yate_datacard.CharConv.{Converted, char_to_hexstr_7bit, failed, utf8_to_hexstr_ucs2, written}
use yate_datacard.Device.{Device, append_command}
use yate_datacard.Env.{Env}
use yate_datacard.Pdu.Generate.{generate, ucs2_message}
use yate_datacard.Pdu.Parse.{Iconv}
use yate_datacard.Prelude.{
  Bool, Bytes, Option, c_str, codes, false, if◌then◌else◌, length, none, pos, some, true, ℕ, ◌&&◌,
  ◌++◌, ◌==◌,
}

-- `res <= 0` is a failure; `ret = buf` takes the text up to its NUL.
converted_text : Converted → Option Bytes
converted_text (failed e) = none
converted_text (written text) = if length text == 0 then none else some (c_str text)

map_converted : Option Converted → Option (Option Bytes)
unfolding converted_text
map_converted none = none
map_converted (some c) = some (converted_text c)

-- None is the read behind an empty text of `char_to_hexstr_7bit`; the inner none is the result
-- false.
unfoldable pub encode_ussd : Env → Bytes → Device → Option (Option Bytes)
unfolding converted_text map_converted
encode_ussd env code d =
    if d.cusd_use_7bit_encoding
    then map_converted (char_to_hexstr_7bit code 512)
    else if d.use_ucs2_encoding
    then some (converted_text (utf8_to_hexstr_ucs2 env code 512))
    else some (some code)

abbrev pub cusd_command : Bytes → AtCommand
cusd_command ussdenc = at_command (codes "AT+CUSD=1,\"" ++ (ussdenc ++ codes "\",15")) cmd_at_cusd

queue_ussd : Option (Option Bytes) → Device → Option (Device × Bool)
queue_ussd none d = none
queue_ussd (some none) d = some (d, false)
queue_ussd (some (some ussdenc)) d = some (append_command d (cusd_command ussdenc), true)

-- `m_connected && m_initialized && m_gsm_registered`
abbrev pub is_ready : Device → Bool
is_ready d = d.connected && (d.initialized && d.gsm_registered)

unfoldable pub send_ussd : Env → Bytes → Device → Option (Device × Bool)
unfolding queue_ussd
send_ussd env ussd d = if is_ready d then queue_ussd (encode_ussd env ussd d) d else some (d, false)

abbrev pub cmgs_command : Env → ℕ → Bytes → AtCommand
cmgs_command env message_len text =
    at_command_with (codes "AT+CMGS=" ++ env.string_of_int (pos message_len)) cmd_at_cmgs text

queue_sms : Env → Option (ℕ × Bytes) → Device → Option (Device × Bool)
queue_sms env none d = none
queue_sms env (some (message_len, text)) d =
    some (append_command d (cmgs_command env message_len text), true)

-- None where `generate` writes behind `m_pdu`.
unfoldable pub send_sms : Env → Iconv → Bytes → Bytes → Device → Option (Device × Bool)
unfolding queue_sms
send_sms env iconv called sms d =
    let sent = queue_sms env (generate iconv (ucs2_message called sms)) d in
    if is_ready d && d.has_sms then sent else some (d, false)
