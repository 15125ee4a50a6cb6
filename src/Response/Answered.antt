-- ===== src/Response/Answered.antt =====
-- The command that is out, over the answers to the lines of the modem.
use yate_datacard.At.{
  AtCmd, AtCommand, AtRes, cmd_at, cmd_at_a, cmd_at_cpin, cmd_at_d, res_cms_error, res_error,
  res_no_carrier, res_ok, res_sms_prompt, res_unknown,
}
use yate_datacard.Device.{Device}
use yate_datacard.Device.Calls.{datacard_congestion, datacard_failure, hangup}
use yate_datacard.Env.{Env}
use yate_datacard.Prelude.{
  Bool-cases, Bytes, Option, arith, false, inl, inr, none, refl, some, true, ℕ, ◌∙◌, ◌≡◌, ◌⊎◌,
}
use yate_datacard.Response.Call.{
  answer_over, at_response_busy, at_response_cend, at_response_clip, at_response_conn,
  at_response_no_carrier, at_response_no_dialtone, at_response_orig, at_response_ring, is_cmd_at_a,
}
use yate_datacard.Response.Dispatch.{at_response, unknown_line}
use yate_datacard.Response.Error.{at_response_error, error_last, error_switch, takes_error}
use yate_datacard.Response.Ok.{
  at_response_ok, is_call_cmd, is_res_ok, ok_call, ok_init, ok_last, ok_switch,
}
use yate_datacard.Response.Sms.{
  PduReader, at_response_cmgr, at_response_cmti, at_response_cusd, at_response_pdu,
  at_response_sms_prompt,
}
use yate_datacard.Response.Status.{
  at_response_cgmi, at_response_cgmm, at_response_cgmr, at_response_cgsn, at_response_cimi,
  at_response_cnum, at_response_cops, at_response_cpin, at_response_cpms, at_response_creg,
  at_response_csq, at_response_mode, at_response_rssi, at_response_smmemfull,
}
use yate_datacard.Tty.{at_send_sms_text, at_write_full}

-- The same command is out.
abbrev pub Keeps : (Device → Device) → Device → Type 0
Keeps act d = (act d).lastcmd ≡ d.lastcmd

-- The same command is out, or none.
abbrev pub Answers : (Device → Device) → Device → Type 0
Answers act d = Keeps act d ⊎ ((act d).lastcmd ≡ none)

ok_init-Keeps : (env : Env) (c : AtCmd) (d : Device) → Keeps (λ e. (ok_init env c e).0) d
unfolding ok_init
ok_init-Keeps env cmd_at d = ground arith
ok_init-Keeps env cmd_at_cpin d = ground arith
ok_init-Keeps env c d = ground arith

ok_call-Keeps : (c : AtCmd) (obj : Option Bytes) (d : Device) → Keeps (λ e. (ok_call c obj e).0) d
unfolding ok_call
ok_call-Keeps cmd_at_a obj d = ground arith
ok_call-Keeps c obj d = ground arith

ok_switch-Keeps :
    (env : Env) (last : AtCommand) (d : Device) → Keeps (λ e. (ok_switch env last e).0) d
unfolding ok_switch
ok_switch-Keeps env last d = elim (Bool-cases (is_call_cmd last.cmd)) [
  | inl e ↦ rw e (ok_call-Keeps last.cmd last.obj d)
  | inr e ↦ rw e (ok_init-Keeps env last.cmd d)
]

ok_last-Answers :
    (env : Env) (last : Option AtCommand) (d : Device) → Answers (λ e. (ok_last env last e).0) d
unfolding ok_last
ok_last-Answers env none d = inl refl
ok_last-Answers env (some last) d = elim (Bool-cases (is_res_ok last.res)) [
  | inl e ↦ rw e (inr refl)
  | inr e ↦ rw e (inl refl)
]

hangup-Keeps : (reason : ℕ) (d : Device) → Keeps (λ e. (hangup reason e).0) d
unfolding hangup
hangup-Keeps reason d = ground arith

error_switch-Keeps :
    (c : AtCmd) (obj : Option Bytes) (d : Device) → Keeps (λ e. (error_switch c obj e).0) d
unfolding error_switch
error_switch-Keeps cmd_at obj d = refl
error_switch-Keeps cmd_at_a obj d = hangup-Keeps datacard_failure d
error_switch-Keeps cmd_at_d obj d =
    hangup-Keeps datacard_congestion (record d { outgoing = false; needchup = false })
error_switch-Keeps c obj d = ground arith

error_last-Answers : (last : Option AtCommand) (d : Device) → Answers (λ e. (error_last last e).0) d
unfolding error_last
error_last-Answers none d = inl refl
error_last-Answers (some last) d = elim (Bool-cases (takes_error last.res)) [
  | inl e ↦ rw e (inr refl)
  | inr e ↦ rw e (inl refl)
]

unknown_line-Keeps :
    (pdu : PduReader) (str : Bytes) (last : Option AtCommand) (d : Device)
    → Keeps (λ e. (unknown_line pdu str last e).0) d
unfolding unknown_line at_response_cgmi at_response_cgmm at_response_cgmr at_response_cgsn
    at_response_cimi at_response_pdu
unknown_line-Keeps pdu str none d = refl
unknown_line-Keeps pdu str (some last) d = ground arith

at_response_sms_prompt-Keeps :
    (env : Env) (d : Device) → Keeps (λ e. (at_response_sms_prompt env e).0) d
unfolding at_response_sms_prompt at_send_sms_text at_write_full
at_response_sms_prompt-Keeps env d = ground arith

answer_over-Answers : (o : Option AtCommand) → (answer_over o ≡ o) ⊎ (answer_over o ≡ none)
unfolding answer_over
answer_over-Answers none = inl refl
answer_over-Answers (some last) = elim (Bool-cases (is_cmd_at_a last.cmd)) [
  | inl e ↦ inr (rw e refl)
  | inr e ↦ inl (rw e refl)
]

no_carrier-Answers : (d : Device) → Answers (λ e. (at_response_no_carrier e).0) d
unfolding at_response_no_carrier
no_carrier-Answers d =
    let kept =
      hangup-Keeps datacard_congestion
        (record d { lastcmd = answer_over d.lastcmd; needchup = true }) in
    elim (answer_over-Answers d.lastcmd) [ inl e ↦ inl (kept ∙ e) | inr e ↦ inr (kept ∙ e) ]

-- No line of the modem puts another command out.
pub at_response-Answers :
    (env : Env) (pdu : PduReader) (str : Bytes) (r : AtRes) (d : Device)
    → Answers (λ e. (at_response env pdu str r e).0) d
unfolding at_response at_response_rssi at_response_mode at_response_orig at_response_cend
    at_response_conn at_response_creg at_response_cops at_response_csq at_response_ring
    at_response_smmemfull at_response_clip at_response_cmti at_response_cmgr at_response_cusd
    at_response_busy at_response_no_dialtone at_response_cpin at_response_cnum at_response_cpms
    at_response_ok at_response_error hangup
at_response-Answers env pdu str res_ok d = ok_last-Answers env d.lastcmd d
at_response-Answers env pdu str res_error d = error_last-Answers d.lastcmd d
at_response-Answers env pdu str res_cms_error d = error_last-Answers d.lastcmd d
at_response-Answers env pdu str res_unknown d = inl (unknown_line-Keeps pdu str d.lastcmd d)
at_response-Answers env pdu str res_sms_prompt d = inl (at_response_sms_prompt-Keeps env d)
at_response-Answers env pdu str res_no_carrier d = no_carrier-Answers d
at_response-Answers env pdu str r d = inl (ground arith)
