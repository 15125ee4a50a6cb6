-- ===== src/Response/Error.antt =====
-- `at_response_error` (at_response.cpp): an ERROR fails the command that was sent last. Most
-- failures during the initialisation end the connection (-1).
use yate_datacard.At.{
  AtCmd, AtCommand, AtRes, at_command, cmd_at, cmd_at_a, cmd_at_cgmi, cmd_at_cgmm, cmd_at_cgmr,
  cmd_at_cgsn, cmd_at_chup, cmd_at_cimi, cmd_at_clip, cmd_at_clir, cmd_at_clvl, cmd_at_cmee,
  cmd_at_cmgf, cmd_at_cnmi, cmd_at_cnum, cmd_at_cops_init, cmd_at_cpin, cmd_at_cpin_enter,
  cmd_at_cpms, cmd_at_creg, cmd_at_creg_init, cmd_at_cscs, cmd_at_csq, cmd_at_cssn, cmd_at_cvoice,
  cmd_at_d, cmd_at_e, cmd_at_u2diag, cmd_at_z, res_cms_error, res_error, res_ok, res_sms_prompt,
}
use yate_datacard.Device.{Device, append_command}
use yate_datacard.Device.Calls.{datacard_congestion, datacard_failure, hangup}
use yate_datacard.Prelude.{
  Bool, Bytes, Option, codes, false, if◌then◌else◌, none, pos, some, true, ℤ, ◌++◌,
}
use yate_datacard.Response.Ok.{completed}

-- The device, and whether the case jumps to `e_return`.
abbrev Next : Type 0
Next = Device × Bool

abbrev queue : Device → Bytes → AtCmd → Device
queue d text cmd = append_command d (at_command text cmd)

abbrev queue_init : Device → Bytes → AtCmd → Next
queue_init d text cmd = (if d.initialized then d else queue d text cmd, false)

-- `case CMD_AT_CMGF`, `CMD_AT_CPMS`, `CMD_AT_CNMI`: with no SMS support the device is still of
-- use for calls.
error_sms : Device → Next
error_sms d =
    if d.initialized
    then (record d { has_sms = false }, false)
    else if d.has_voice
    then (
      queue (record d { has_sms = false; initialized = true }) (codes "AT+CSQ") cmd_at_csq,
      true,
    )
    else (record d { has_sms = false }, true)

redial : Option Bytes → Device → Next
redial none d = (d, false)
redial (some number) d = (queue d (codes "ATD" ++ (number ++ codes ";")) cmd_at_d, false)

unfoldable pub error_switch : AtCmd → Option Bytes → Device → Next
unfolding error_sms redial hangup
error_switch cmd_at obj d = (d, true)
error_switch cmd_at_z obj d = (d, true)
error_switch cmd_at_e obj d = (d, true)
error_switch cmd_at_u2diag obj d = (d, true)
error_switch cmd_at_cgmi obj d = (d, true)
error_switch cmd_at_cgmm obj d = (d, true)
error_switch cmd_at_cgmr obj d = (d, true)
error_switch cmd_at_cmee obj d = (d, true)
error_switch cmd_at_cgsn obj d = (d, true)
error_switch cmd_at_cimi obj d = (d, true)
error_switch cmd_at_cpin obj d = (d, true)
error_switch cmd_at_cpin_enter obj d = (d, true)
error_switch cmd_at_cops_init obj d = (d, true)
error_switch cmd_at_creg_init obj d = (d, true)
error_switch cmd_at_creg obj d = queue_init d (codes "AT+CNUM") cmd_at_cnum
error_switch cmd_at_cnum obj d = (d, true)
error_switch cmd_at_cvoice obj d =
    queue_init (record d { has_voice = false }) (codes "AT+CMGF=0") cmd_at_cmgf
error_switch cmd_at_clip obj d = (d, true)
error_switch cmd_at_cssn obj d = (d, true)
error_switch cmd_at_cmgf obj d = error_sms d
error_switch cmd_at_cpms obj d = error_sms d
error_switch cmd_at_cnmi obj d = error_sms d
error_switch cmd_at_cscs obj d =
    queue_init (record d { use_ucs2_encoding = false }) (codes "AT+CPMS=\"ME\",\"ME\",\"ME\"")
      cmd_at_cpms
error_switch cmd_at_a obj d = ((hangup datacard_failure d).0, false)
error_switch cmd_at_clir obj d = redial obj d
error_switch cmd_at_d obj d =
    ((hangup datacard_congestion (record d { outgoing = false; needchup = false })).0, false)
error_switch cmd_at_chup obj d = (d, true)
error_switch cmd_at_clvl obj d = (record d { volume_synchronized = false }, false)
error_switch _ obj d = (d, false)

-- `m_res == RES_OK || RES_ERROR || RES_CMS_ERROR || RES_SMS_PROMPT`
unfoldable pub takes_error : AtRes → Bool
takes_error res_ok = true
takes_error res_error = true
takes_error res_cms_error = true
takes_error res_sms_prompt = true
takes_error _ = false

unfoldable pub error_last : Option AtCommand → Device → Device × ℤ
unfolding takes_error error_switch
error_last none d = (d, pos 0)
error_last (some last) d =
    if takes_error last.res then completed (error_switch last.cmd last.obj d) else (d, pos 0)

unfoldable pub at_response_error : Device → Device × ℤ
unfolding error_last
at_response_error d = error_last d.lastcmd d
