-- ===== src/Response/Explained.antt =====
-- The reasons that the owner of a call is told, and the texts that datacard.cpp has for them.
use yate_datacard.At.{
  AtCmd, AtCommand, AtRes, cmd_at, cmd_at_a, cmd_at_cpin, cmd_at_d, res_cend, res_clip,
  res_cms_error, res_cusd, res_error, res_ok, res_sms_prompt, res_unknown,
}
use yate_datacard.Device.{
  Callback, Device, on_answered, on_hangup, on_incoming, on_progress, on_update_network_status,
}
use yate_datacard.Device.Calls.{
  datacard_busy, datacard_congestion, datacard_failure, datacard_normal, hangup,
}
use yate_datacard.Device.EndReason.{get_reason}
use yate_datacard.Device.Reasons.{dict_errors, get_reason-has_text, has_text}
use yate_datacard.Env.{Env}
use yate_datacard.Prelude.{
  Bool, Bool-cases, Bytes, List, Option, [], all, ap, arith, false, inl, inr, none, refl, some,
  true, ℕ, ℤ, ◌&&◌, ◌++◌, ◌==◌, ◌||◌, ◌∷◌, ◌≡◌,
}
use yate_datacard.Response.Call.{
  at_response_busy, at_response_cend, at_response_clip, at_response_conn, at_response_no_carrier,
  at_response_no_dialtone, at_response_orig, at_response_ring,
}
use yate_datacard.Response.Dispatch.{at_response, unknown_line}
use yate_datacard.Response.Error.{at_response_error, error_last, error_switch, takes_error}
use yate_datacard.Response.Ok.{
  at_response_ok, completed, is_call_cmd, is_res_ok, ok_call, ok_init, ok_last, ok_switch,
}
use yate_datacard.Response.Parse.{at_parse_clip, scan_cend}
use yate_datacard.Response.Sms.{
  PduReader, at_response_cmgr, at_response_cmti, at_response_cusd, at_response_pdu,
  at_response_sms_prompt,
}
use yate_datacard.Response.Status.{
  at_response_cgmi, at_response_cgmm, at_response_cgmr, at_response_cgsn, at_response_cimi,
  at_response_cnum, at_response_cops, at_response_cpin, at_response_cpms, at_response_creg,
  at_response_csq, at_response_mode, at_response_rssi, at_response_smmemfull,
}
use yate_datacard.Tty.{at_send_sms_text, at_write_full}

-- A hangup is told with the normal reason, or with one that `dict_errors` has a text for.
abbrev pub is_explained : Callback → Bool
is_explained (on_hangup reason) = reason == datacard_normal || has_text reason dict_errors
is_explained _ = true

unfoldable pub explained : Device → Bool
explained d = all is_explained d.calls

pub explained_snoc :
    (cs : List Callback) (c : Callback)
    → is_explained c ≡ true
    → all is_explained (cs ++ c ∷ []) ≡ all is_explained cs
explained_snoc [] c h = rw h refl
explained_snoc (other ∷ cs) c h = ap (λ b. is_explained other && b) (explained_snoc cs c h)

ok_init-explained :
    (env : Env) (c : AtCmd) (d : Device) → explained (ok_init env c d).0 ≡ explained d
unfolding ok_init explained
ok_init-explained env cmd_at d = ground arith
ok_init-explained env cmd_at_cpin d = ground arith
ok_init-explained env c d = ground arith

ok_call-explained :
    (c : AtCmd) (obj : Option Bytes) (d : Device) → explained (ok_call c obj d).0 ≡ explained d
unfolding ok_call explained
ok_call-explained cmd_at_a obj d = ground arith
ok_call-explained c obj d = ground arith

ok_switch-explained :
    (env : Env) (last : AtCommand) (d : Device) → explained (ok_switch env last d).0 ≡ explained d
unfolding ok_switch
ok_switch-explained env last d = elim (Bool-cases (is_call_cmd last.cmd)) [
  | inl e ↦ rw e (ok_call-explained last.cmd last.obj d)
  | inr e ↦ rw e (ok_init-explained env last.cmd d)
]

completed-explained :
    (d : Device) (n : Device × Bool)
    → explained n.0 ≡ explained d
    → explained (completed n).0 ≡ explained d
unfolding explained
completed-explained d n h = h

ok_last-explained :
    (env : Env) (last : Option AtCommand) (d : Device)
    → explained (ok_last env last d).0 ≡ explained d
unfolding ok_last
ok_last-explained env none d = refl
ok_last-explained env (some last) d = elim (Bool-cases (is_res_ok last.res)) [
  | inl e ↦ rw e (completed-explained d (ok_switch env last d) (ok_switch-explained env last d))
  | inr e ↦ rw e (refl)
]

pub hangup-explained :
    (reason : ℕ) (d : Device)
    → is_explained (on_hangup reason) ≡ true
    → explained (hangup reason d).0 ≡ explained d
unfolding hangup explained
hangup-explained reason d known = ground (arith, explained_snoc d.calls (on_hangup reason) known)

error_switch-explained :
    (c : AtCmd) (obj : Option Bytes) (d : Device) → explained (error_switch c obj d).0 ≡ explained d
unfolding error_switch explained
error_switch-explained cmd_at obj d = refl
error_switch-explained cmd_at_a obj d = hangup-explained datacard_failure d refl
error_switch-explained cmd_at_d obj d =
    hangup-explained datacard_congestion (record d { outgoing = false; needchup = false }) refl
error_switch-explained c obj d = ground arith

error_last-explained :
    (last : Option AtCommand) (d : Device) → explained (error_last last d).0 ≡ explained d
unfolding error_last
error_last-explained none d = refl
error_last-explained (some last) d = elim (Bool-cases (takes_error last.res)) [
  | inl e ↦ rw e (
      completed-explained d (error_switch last.cmd last.obj d)
        (error_switch-explained last.cmd last.obj d))
  | inr e ↦ rw e (refl)
]

at_response_pdu-explained :
    (pdu : PduReader) (str : Bytes) (d : Device)
    → explained (at_response_pdu pdu str d).0 ≡ explained d
unfolding at_response_pdu explained
at_response_pdu-explained pdu str d = grind (arith, explained_snoc)

at_response_cusd-explained :
    (env : Env) (str : Bytes) (d : Device) → explained (at_response_cusd env str d).0 ≡ explained d
unfolding at_response_cusd explained
at_response_cusd-explained env str d = grind (arith, explained_snoc)

unknown_line-explained :
    (pdu : PduReader) (str : Bytes) (last : Option AtCommand) (d : Device)
    → explained (unknown_line pdu str last d).0 ≡ explained d
unfolding unknown_line explained at_response_cgmi at_response_cgmm at_response_cgmr at_response_cgsn
    at_response_cimi
unknown_line-explained pdu str none d = refl
unknown_line-explained pdu str (some last) d = ground (arith, at_response_pdu-explained pdu str d)

at_response_sms_prompt-explained :
    (env : Env) (d : Device) → explained (at_response_sms_prompt env d).0 ≡ explained d
unfolding at_response_sms_prompt explained at_send_sms_text at_write_full
at_response_sms_prompt-explained env d = ground arith

reason_explained :
    (end_status cc_cause : ℤ) → is_explained (on_hangup (get_reason end_status cc_cause)) ≡ true
reason_explained end_status cc_cause = ground (arith, get_reason-has_text end_status cc_cause)

at_response_cend-explained :
    (str : Bytes) (d : Device) → explained (at_response_cend str d).0 ≡ explained d
unfolding at_response_cend explained hangup
at_response_cend-explained str d = ground (
  arith,
  explained_snoc d.calls (on_hangup (get_reason (scan_cend str).0 (scan_cend str).1))
      (reason_explained (scan_cend str).0 (scan_cend str).1),
)

-- Every reason that a line of the modem gives the owner of a call is a known one.
pub at_response-explained :
    (env : Env) (pdu : PduReader) (str : Bytes) (r : AtRes) (d : Device)
    → explained (at_response env pdu str r d).0 ≡ explained d
unfolding at_response at_response_rssi at_response_mode at_response_orig at_response_cend
    at_response_conn at_response_creg at_response_cops at_response_csq at_response_ring
    at_response_smmemfull at_response_clip at_response_cmti at_response_cmgr at_response_busy
    at_response_no_dialtone at_response_no_carrier at_response_cpin at_response_cnum
    at_response_cpms at_response_ok at_response_error hangup explained
at_response-explained env pdu str res_ok d = ok_last-explained env d.lastcmd d
at_response-explained env pdu str res_error d = error_last-explained d.lastcmd d
at_response-explained env pdu str res_cms_error d = error_last-explained d.lastcmd d
at_response-explained env pdu str res_unknown d = unknown_line-explained pdu str d.lastcmd d
at_response-explained env pdu str res_sms_prompt d = at_response_sms_prompt-explained env d
at_response-explained env pdu str res_cusd d = at_response_cusd-explained env str d
at_response-explained env pdu str res_clip d =
    ground (arith, explained_snoc d.calls (on_incoming (at_parse_clip env str)) refl)
at_response-explained env pdu str res_cend d = at_response_cend-explained str d
at_response-explained env pdu str r d = ground (
  arith,
  explained_snoc d.calls (on_hangup datacard_busy) refl,
  explained_snoc d.calls (on_hangup datacard_congestion) refl,
  explained_snoc d.calls on_update_network_status refl,
  explained_snoc d.calls on_progress refl,
  explained_snoc d.calls on_answered refl,
)
