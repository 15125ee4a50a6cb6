-- ===== src/Response/Pin.antt =====
-- The SIM's PIN: how often it may still be entered. A wrong PIN, entered again, locks the SIM.
use yate_datacard.At.{
  AtCmd, AtCommand, AtRes, cmd_at, cmd_at_a, cmd_at_cpin, cmd_at_cpin_enter, cmd_at_d,
  res_cms_error, res_error, res_ok, res_sms_prompt, res_unknown,
}
use yate_datacard.Device.{Device}
use yate_datacard.Device.Calls.{datacard_congestion, datacard_failure, hangup}
use yate_datacard.Device.Laws.{count, count-append}
use yate_datacard.Env.{Env}
use yate_datacard.Prelude.{
  Bool, Bool-cases, Bytes, Option, arith, false, if◌then◌else◌, inl, inr, none, some, true, ℕ, ◌+◌,
  ◌==◌, ◌≤◌,
}
use yate_datacard.Response.Call.{
  at_response_busy, at_response_cend, at_response_clip, at_response_conn, at_response_no_carrier,
  at_response_no_dialtone, at_response_orig, at_response_ring,
}
use yate_datacard.Response.Dispatch.{at_response, unknown_line}
use yate_datacard.Response.Error.{at_response_error, error_last, error_switch, takes_error}
use yate_datacard.Response.Ok.{
  at_response_ok, completed, is_call_cmd, is_res_ok, ok_call, ok_init, ok_last, ok_switch,
}
use yate_datacard.Response.Sms.{
  PduReader, at_response_cmgr, at_response_cmti, at_response_cusd, at_response_pdu,
  at_response_sms_prompt,
}
use yate_datacard.Response.Status.{
  at_response_cgmi, at_response_cgmm, at_response_cgmr, at_response_cgsn, at_response_cimi,
  at_response_cnum, at_response_cops, at_response_cpin, at_response_cpms, at_response_creg,
  at_response_csq, at_response_mode, at_response_rssi, at_response_smmemfull,
}
use yate_datacard.Tty.{at_send_sms_text, at_write_full}

-- The command that enters the PIN.
abbrev pub is_pin_cmd : AtCmd → Bool
is_pin_cmd cmd_at_cpin_enter = true
is_pin_cmd _ = false

abbrev pub is_pin : AtCommand → Bool
is_pin c = is_pin_cmd c.cmd

-- The commands with the PIN that wait, and one more while none was queued on this connection.
unfoldable pub pin_budget : Device → ℕ
pin_budget d = (if d.pincount == 0 then 1 else 0) + count is_pin d.command_queue

ok_init-pin_budget :
    (env : Env) (c : AtCmd) (d : Device) → pin_budget (ok_init env c d).0 ≤ pin_budget d
unfolding ok_init pin_budget
ok_init-pin_budget env cmd_at d = grind (arith, count-append)
ok_init-pin_budget env cmd_at_cpin d = grind (arith, count-append)
ok_init-pin_budget env c d = grind (arith, count-append)

ok_call-pin_budget :
    (c : AtCmd) (obj : Option Bytes) (d : Device) → pin_budget (ok_call c obj d).0 ≤ pin_budget d
unfolding ok_call pin_budget
ok_call-pin_budget cmd_at_a obj d = grind (arith, count-append)
ok_call-pin_budget c obj d = grind (arith, count-append)

ok_switch-pin_budget :
    (env : Env) (last : AtCommand) (d : Device) → pin_budget (ok_switch env last d).0 ≤ pin_budget d
unfolding ok_switch
ok_switch-pin_budget env last d = elim (Bool-cases (is_call_cmd last.cmd)) [
  | inl e ↦ rw e (ok_call-pin_budget last.cmd last.obj d)
  | inr e ↦ rw e (ok_init-pin_budget env last.cmd d)
]

completed-pin_budget :
    (d : Device) (n : Device × Bool)
    → pin_budget n.0 ≤ pin_budget d
    → pin_budget (completed n).0 ≤ pin_budget d
unfolding pin_budget
completed-pin_budget d n h = h

ok_last-pin_budget :
    (env : Env) (last : Option AtCommand) (d : Device)
    → pin_budget (ok_last env last d).0 ≤ pin_budget d
unfolding ok_last
ok_last-pin_budget env none d = omega arith
ok_last-pin_budget env (some last) d = elim (Bool-cases (is_res_ok last.res)) [
  | inl e ↦ rw e (completed-pin_budget d (ok_switch env last d) (ok_switch-pin_budget env last d))
  | inr e ↦ rw e (omega arith)
]

hangup-pin_budget : (reason : ℕ) (d : Device) → pin_budget (hangup reason d).0 ≤ pin_budget d
unfolding hangup pin_budget
hangup-pin_budget reason d = grind (arith, count-append)

error_switch-pin_budget :
    (c : AtCmd) (obj : Option Bytes) (d : Device)
    → pin_budget (error_switch c obj d).0 ≤ pin_budget d
unfolding error_switch pin_budget
error_switch-pin_budget cmd_at obj d = omega arith
error_switch-pin_budget cmd_at_a obj d = hangup-pin_budget datacard_failure d
error_switch-pin_budget cmd_at_d obj d =
    hangup-pin_budget datacard_congestion (record d { outgoing = false; needchup = false })
error_switch-pin_budget c obj d = grind (arith, count-append)

error_last-pin_budget :
    (last : Option AtCommand) (d : Device) → pin_budget (error_last last d).0 ≤ pin_budget d
unfolding error_last
error_last-pin_budget none d = omega arith
error_last-pin_budget (some last) d = elim (Bool-cases (takes_error last.res)) [
  | inl e ↦ rw e (
      completed-pin_budget d (error_switch last.cmd last.obj d)
        (error_switch-pin_budget last.cmd last.obj d))
  | inr e ↦ rw e (omega arith)
]

unknown_line-pin_budget :
    (pdu : PduReader) (str : Bytes) (last : Option AtCommand) (d : Device)
    → pin_budget (unknown_line pdu str last d).0 ≤ pin_budget d
unfolding unknown_line pin_budget at_response_cgmi at_response_cgmm at_response_cgmr
    at_response_cgsn at_response_cimi at_response_pdu
unknown_line-pin_budget pdu str none d = omega arith
unknown_line-pin_budget pdu str (some last) d = ground arith

at_response_sms_prompt-pin_budget :
    (env : Env) (d : Device) → pin_budget (at_response_sms_prompt env d).0 ≤ pin_budget d
unfolding at_response_sms_prompt pin_budget at_send_sms_text at_write_full
at_response_sms_prompt-pin_budget env d = ground arith

-- No line of the modem raises the budget.
pub at_response-pin_budget :
    (env : Env) (pdu : PduReader) (str : Bytes) (r : AtRes) (d : Device)
    → pin_budget (at_response env pdu str r d).0 ≤ pin_budget d
unfolding at_response at_response_rssi at_response_mode at_response_orig at_response_cend
    at_response_conn at_response_creg at_response_cops at_response_csq at_response_ring
    at_response_smmemfull at_response_clip at_response_cmti at_response_cmgr at_response_cusd
    at_response_busy at_response_no_dialtone at_response_no_carrier at_response_cpin
    at_response_cnum at_response_cpms at_response_ok at_response_error hangup pin_budget
at_response-pin_budget env pdu str res_ok d = ok_last-pin_budget env d.lastcmd d
at_response-pin_budget env pdu str res_error d = error_last-pin_budget d.lastcmd d
at_response-pin_budget env pdu str res_cms_error d = error_last-pin_budget d.lastcmd d
at_response-pin_budget env pdu str res_unknown d = unknown_line-pin_budget pdu str d.lastcmd d
at_response-pin_budget env pdu str res_sms_prompt d = at_response_sms_prompt-pin_budget env d
at_response-pin_budget env pdu str r d = grind (arith, count-append)
