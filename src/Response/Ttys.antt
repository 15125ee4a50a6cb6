-- ===== src/Response/Ttys.antt =====
-- The ttys of a device: no line of the modem changes them.
use yate_datacard.At.{
  AtCmd, AtCommand, AtRes, cmd_at, cmd_at_a, cmd_at_cpin, cmd_at_d, res_cms_error, res_error,
  res_ok, res_sms_prompt, res_unknown,
}
use yate_datacard.Device.{Device}
use yate_datacard.Device.Calls.{datacard_congestion, datacard_failure, hangup}
use yate_datacard.Env.{Env}
use yate_datacard.Prelude.{
  Bool, Bool-cases, Bytes, Option, arith, false, inl, inr, is_neg, none, refl, some, ℕ, ◌&&◌, ◌||◌,
  ◌≡◌,
}
use yate_datacard.Response.Call.{
  at_response_busy, at_response_cend, at_response_clip, at_response_conn, at_response_no_carrier,
  at_response_no_dialtone, at_response_orig, at_response_ring,
}
use yate_datacard.Response.Dispatch.{at_response, unknown_line}
use yate_datacard.Response.Error.{at_response_error, error_last, error_switch, takes_error}
use yate_datacard.Response.Ok.{
  at_response_ok, completed, is_call_cmd, is_res_ok, ok_call, ok_init, ok_last, ok_switch,
}
use yate_datacard.Response.Sms.{
  PduReader, at_response_cmgr, at_response_cmti, at_response_cusd, at_response_pdu,
  at_response_sms_prompt,
}
use yate_datacard.Response.Status.{
  at_response_cgmi, at_response_cgmm, at_response_cgmr, at_response_cgsn, at_response_cimi,
  at_response_cnum, at_response_cops, at_response_cpin, at_response_cpms, at_response_creg,
  at_response_csq, at_response_mode, at_response_rssi, at_response_smmemfull,
}
use yate_datacard.Tty.{at_send_sms_text, at_write_full}

-- A device that is connected with a tty that is not open.
unfoldable pub half_open : Device → Bool
half_open d = d.connected && (is_neg d.data_fd || is_neg d.audio_fd)

ok_init-half_open :
    (env : Env) (c : AtCmd) (d : Device) → half_open (ok_init env c d).0 ≡ half_open d
unfolding ok_init half_open
ok_init-half_open env cmd_at d = ground arith
ok_init-half_open env cmd_at_cpin d = ground arith
ok_init-half_open env c d = ground arith

ok_call-half_open :
    (c : AtCmd) (obj : Option Bytes) (d : Device) → half_open (ok_call c obj d).0 ≡ half_open d
unfolding ok_call half_open
ok_call-half_open cmd_at_a obj d = ground arith
ok_call-half_open c obj d = ground arith

ok_switch-half_open :
    (env : Env) (last : AtCommand) (d : Device) → half_open (ok_switch env last d).0 ≡ half_open d
unfolding ok_switch
ok_switch-half_open env last d = elim (Bool-cases (is_call_cmd last.cmd)) [
  | inl e ↦ rw e (ok_call-half_open last.cmd last.obj d)
  | inr e ↦ rw e (ok_init-half_open env last.cmd d)
]

completed-half_open :
    (d : Device) (n : Device × Bool)
    → half_open n.0 ≡ half_open d
    → half_open (completed n).0 ≡ half_open d
unfolding half_open
completed-half_open d n h = h

ok_last-half_open :
    (env : Env) (last : Option AtCommand) (d : Device)
    → half_open (ok_last env last d).0 ≡ half_open d
unfolding ok_last
ok_last-half_open env none d = refl
ok_last-half_open env (some last) d = elim (Bool-cases (is_res_ok last.res)) [
  | inl e ↦ rw e (completed-half_open d (ok_switch env last d) (ok_switch-half_open env last d))
  | inr e ↦ rw e (refl)
]

hangup-half_open : (reason : ℕ) (d : Device) → half_open (hangup reason d).0 ≡ half_open d
unfolding hangup half_open
hangup-half_open reason d = ground arith

error_switch-half_open :
    (c : AtCmd) (obj : Option Bytes) (d : Device) → half_open (error_switch c obj d).0 ≡ half_open d
unfolding error_switch half_open
error_switch-half_open cmd_at obj d = refl
error_switch-half_open cmd_at_a obj d = hangup-half_open datacard_failure d
error_switch-half_open cmd_at_d obj d =
    hangup-half_open datacard_congestion (record d { outgoing = false; needchup = false })
error_switch-half_open c obj d = ground arith

error_last-half_open :
    (last : Option AtCommand) (d : Device) → half_open (error_last last d).0 ≡ half_open d
unfolding error_last
error_last-half_open none d = refl
error_last-half_open (some last) d = elim (Bool-cases (takes_error last.res)) [
  | inl e ↦ rw e (
      completed-half_open d (error_switch last.cmd last.obj d)
        (error_switch-half_open last.cmd last.obj d))
  | inr e ↦ rw e (refl)
]

unknown_line-half_open :
    (pdu : PduReader) (str : Bytes) (last : Option AtCommand) (d : Device)
    → half_open (unknown_line pdu str last d).0 ≡ half_open d
unfolding unknown_line half_open at_response_cgmi at_response_cgmm at_response_cgmr at_response_cgsn
    at_response_cimi at_response_pdu
unknown_line-half_open pdu str none d = refl
unknown_line-half_open pdu str (some last) d = ground arith

at_response_sms_prompt-half_open :
    (env : Env) (d : Device) → half_open (at_response_sms_prompt env d).0 ≡ half_open d
unfolding at_response_sms_prompt half_open at_send_sms_text at_write_full
at_response_sms_prompt-half_open env d = ground arith

-- No line of the modem opens or closes a tty, or connects the device.
pub at_response-half_open :
    (env : Env) (pdu : PduReader) (str : Bytes) (r : AtRes) (d : Device)
    → half_open (at_response env pdu str r d).0 ≡ half_open d
unfolding at_response at_response_rssi at_response_mode at_response_orig at_response_cend
    at_response_conn at_response_creg at_response_cops at_response_csq at_response_ring
    at_response_smmemfull at_response_clip at_response_cmti at_response_cmgr at_response_cusd
    at_response_busy at_response_no_dialtone at_response_no_carrier at_response_cpin
    at_response_cnum at_response_cpms at_response_ok at_response_error hangup half_open
at_response-half_open env pdu str res_ok d = ok_last-half_open env d.lastcmd d
at_response-half_open env pdu str res_error d = error_last-half_open d.lastcmd d
at_response-half_open env pdu str res_cms_error d = error_last-half_open d.lastcmd d
at_response-half_open env pdu str res_unknown d = unknown_line-half_open pdu str d.lastcmd d
at_response-half_open env pdu str res_sms_prompt d = at_response_sms_prompt-half_open env d
at_response-half_open env pdu str r d = ground arith
