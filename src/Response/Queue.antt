-- ===== src/Response/Queue.antt =====
-- What the answers to the lines of the modem queue.
use yate_datacard.At.{
  AtCmd, AtCommand, AtRes, cmd_at, cmd_at_a, cmd_at_cpin, cmd_at_d, res_cms_error, res_error,
  res_ok, res_sms_prompt, res_unknown,
}
use yate_datacard.Device.{Device}
use yate_datacard.Device.Calls.{datacard_congestion, datacard_failure, hangup}
use yate_datacard.Env.{Env}
use yate_datacard.Prelude.{
  Bool-cases, Bytes, Option, [], append-nil, arith, false, inl, inr, none, some, sym, ℕ, ◌++◌, ◌≡◌,
}
use yate_datacard.Response.Call.{
  at_response_busy, at_response_cend, at_response_clip, at_response_conn, at_response_no_carrier,
  at_response_no_dialtone, at_response_orig, at_response_ring,
}
use yate_datacard.Response.Dispatch.{at_response, unknown_line}
use yate_datacard.Response.Error.{at_response_error, error_last, error_switch, takes_error}
use yate_datacard.Response.Ok.{
  at_response_ok, is_call_cmd, is_res_ok, ok_call, ok_init, ok_last, ok_switch,
}
use yate_datacard.Response.Sms.{
  PduReader, at_response_cmgr, at_response_cmti, at_response_cusd, at_response_pdu,
  at_response_sms_prompt,
}
use yate_datacard.Response.Status.{
  at_response_cgmi, at_response_cgmm, at_response_cgmr, at_response_cgsn, at_response_cimi,
  at_response_cnum, at_response_cops, at_response_cpin, at_response_cpms, at_response_creg,
  at_response_csq, at_response_mode, at_response_rssi, at_response_smmemfull,
}
use yate_datacard.Tty.{at_send_sms_text, at_write_full}

-- The device with no command waiting.
abbrev pub bare : Device → Device
bare d = record d { command_queue = [] }

-- What is queued goes behind all that waits, and is the same whatever waits.
abbrev pub Adds : (Device → Device) → Device → Type 0
Adds act d = (act d).command_queue ≡ d.command_queue ++ (act (bare d)).command_queue

ok_init-Adds : (env : Env) (c : AtCmd) (d : Device) → Adds (λ e. (ok_init env c e).0) d
unfolding ok_init
ok_init-Adds env cmd_at d = ground (arith, append-nil d.command_queue)
ok_init-Adds env cmd_at_cpin d = ground (arith, append-nil d.command_queue)
ok_init-Adds env c d = ground (arith, append-nil d.command_queue)

ok_call-Adds : (c : AtCmd) (obj : Option Bytes) (d : Device) → Adds (λ e. (ok_call c obj e).0) d
unfolding ok_call
ok_call-Adds cmd_at_a obj d = ground (arith, append-nil d.command_queue)
ok_call-Adds c obj d = ground (arith, append-nil d.command_queue)

ok_switch-Adds :
    (env : Env) (last : AtCommand) (d : Device) → Adds (λ e. (ok_switch env last e).0) d
unfolding ok_switch
ok_switch-Adds env last d = elim (Bool-cases (is_call_cmd last.cmd)) [
  | inl e ↦ rw e (ok_call-Adds last.cmd last.obj d)
  | inr e ↦ rw e (ok_init-Adds env last.cmd d)
]

ok_last-Adds :
    (env : Env) (last : Option AtCommand) (d : Device) → Adds (λ e. (ok_last env last e).0) d
unfolding ok_last
ok_last-Adds env none d = sym (append-nil d.command_queue)
ok_last-Adds env (some last) d = elim (Bool-cases (is_res_ok last.res)) [
  | inl e ↦ rw e (ok_switch-Adds env last d)
  | inr e ↦ rw e (sym (append-nil d.command_queue))
]

hangup-Adds : (reason : ℕ) (d : Device) → Adds (λ e. (hangup reason e).0) d
unfolding hangup
hangup-Adds reason d = ground (arith, append-nil d.command_queue)

error_switch-Adds :
    (c : AtCmd) (obj : Option Bytes) (d : Device) → Adds (λ e. (error_switch c obj e).0) d
unfolding error_switch
error_switch-Adds cmd_at obj d = sym (append-nil d.command_queue)
error_switch-Adds cmd_at_a obj d = hangup-Adds datacard_failure d
error_switch-Adds cmd_at_d obj d =
    hangup-Adds datacard_congestion (record d { outgoing = false; needchup = false })
error_switch-Adds c obj d = ground (arith, append-nil d.command_queue)

error_last-Adds : (last : Option AtCommand) (d : Device) → Adds (λ e. (error_last last e).0) d
unfolding error_last
error_last-Adds none d = sym (append-nil d.command_queue)
error_last-Adds (some last) d = elim (Bool-cases (takes_error last.res)) [
  | inl e ↦ rw e (error_switch-Adds last.cmd last.obj d)
  | inr e ↦ rw e (sym (append-nil d.command_queue))
]

unknown_line-Adds :
    (pdu : PduReader) (str : Bytes) (last : Option AtCommand) (d : Device)
    → Adds (λ e. (unknown_line pdu str last e).0) d
unfolding unknown_line at_response_cgmi at_response_cgmm at_response_cgmr at_response_cgsn
    at_response_cimi at_response_pdu
unknown_line-Adds pdu str none d = sym (append-nil d.command_queue)
unknown_line-Adds pdu str (some last) d = ground (arith, append-nil d.command_queue)

at_response_sms_prompt-Adds :
    (env : Env) (d : Device) → Adds (λ e. (at_response_sms_prompt env e).0) d
unfolding at_response_sms_prompt at_send_sms_text at_write_full
at_response_sms_prompt-Adds env d = ground (arith, append-nil d.command_queue)

-- What a line of the modem queues goes behind all that waits, and does not depend on it.
pub at_response-Adds :
    (env : Env) (pdu : PduReader) (str : Bytes) (r : AtRes) (d : Device)
    → Adds (λ e. (at_response env pdu str r e).0) d
unfolding at_response at_response_rssi at_response_mode at_response_orig at_response_cend
    at_response_conn at_response_creg at_response_cops at_response_csq at_response_ring
    at_response_smmemfull at_response_clip at_response_cmti at_response_cmgr at_response_cusd
    at_response_busy at_response_no_dialtone at_response_no_carrier at_response_cpin
    at_response_cnum at_response_cpms at_response_ok at_response_error hangup
at_response-Adds env pdu str res_ok d = ok_last-Adds env d.lastcmd d
at_response-Adds env pdu str res_error d = error_last-Adds d.lastcmd d
at_response-Adds env pdu str res_cms_error d = error_last-Adds d.lastcmd d
at_response-Adds env pdu str res_unknown d = unknown_line-Adds pdu str d.lastcmd d
at_response-Adds env pdu str res_sms_prompt d = at_response_sms_prompt-Adds env d
at_response-Adds env pdu str r d = ground (arith, append-nil d.command_queue)
