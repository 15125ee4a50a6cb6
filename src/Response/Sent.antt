-- ===== src/Response/Sent.antt =====
-- What the answers to the lines of the modem send.
use yate_datacard.At.{
  AtCmd, AtCommand, AtRes, cmd_at, cmd_at_a, cmd_at_cpin, cmd_at_d, res_cms_error, res_error,
  res_ok, res_sms_prompt, res_unknown,
}
use yate_datacard.Device.{Device}
use yate_datacard.Device.Calls.{datacard_congestion, datacard_failure, hangup}
use yate_datacard.Env.{Env}
use yate_datacard.Prelude.{
  Bool, Bool-cases, Bytes, Option, Option-cases, [], append-nil, append_assoc, arith, codes, drop,
  false, inl, inr, length, ltb, none, refl, some, suc, sym, take, zero, ℕ, ◌++◌, ◌==◌, ◌∙◌, ◌∷◌,
  ◌≡◌,
}
use yate_datacard.Response.Call.{
  at_response_busy, at_response_cend, at_response_clip, at_response_conn, at_response_no_carrier,
  at_response_no_dialtone, at_response_orig, at_response_ring,
}
use yate_datacard.Response.Dispatch.{at_response, unknown_line}
use yate_datacard.Response.Error.{at_response_error, error_last, error_switch, takes_error}
use yate_datacard.Response.Ok.{
  at_response_ok, completed, is_call_cmd, is_res_ok, ok_call, ok_init, ok_last, ok_switch,
}
use yate_datacard.Response.Sms.{
  PduReader, answer_prompt, at_response_cmgr, at_response_cmti, at_response_cusd, at_response_pdu,
  at_response_sms_prompt, is_cmd_at_cmgs, prompt_text,
}
use yate_datacard.Response.Status.{
  at_response_cgmi, at_response_cgmm, at_response_cgmr, at_response_cgsn, at_response_cimi,
  at_response_cnum, at_response_cops, at_response_cpin, at_response_cpms, at_response_creg,
  at_response_csq, at_response_mode, at_response_rssi, at_response_smmemfull,
}
use yate_datacard.Tty.{
  advance, at_send_sms_text, at_write_full, return_sent, sms_buffer, write_loop,
}

ok_init-sent : (env : Env) (c : AtCmd) (d : Device) → (ok_init env c d).0.sent ≡ d.sent
unfolding ok_init
ok_init-sent env cmd_at d = ground arith
ok_init-sent env cmd_at_cpin d = ground arith
ok_init-sent env c d = ground arith

ok_call-sent : (c : AtCmd) (obj : Option Bytes) (d : Device) → (ok_call c obj d).0.sent ≡ d.sent
unfolding ok_call
ok_call-sent cmd_at_a obj d = ground arith
ok_call-sent c obj d = ground arith

ok_switch-sent :
    (env : Env) (last : AtCommand) (d : Device) → (ok_switch env last d).0.sent ≡ d.sent
unfolding ok_switch
ok_switch-sent env last d = elim (Bool-cases (is_call_cmd last.cmd)) [
  | inl e ↦ rw e (ok_call-sent last.cmd last.obj d)
  | inr e ↦ rw e (ok_init-sent env last.cmd d)
]

completed-sent :
    (d : Device) (n : Device × Bool) → n.0.sent ≡ d.sent → (completed n).0.sent ≡ d.sent
completed-sent d n h = h

ok_last-sent :
    (env : Env) (last : Option AtCommand) (d : Device) → (ok_last env last d).0.sent ≡ d.sent
unfolding ok_last
ok_last-sent env none d = refl
ok_last-sent env (some last) d = elim (Bool-cases (is_res_ok last.res)) [
  | inl e ↦ rw e (completed-sent d (ok_switch env last d) (ok_switch-sent env last d))
  | inr e ↦ rw e refl
]

hangup-sent : (reason : ℕ) (d : Device) → (hangup reason d).0.sent ≡ d.sent
unfolding hangup
hangup-sent reason d = ground arith

error_switch-sent :
    (c : AtCmd) (obj : Option Bytes) (d : Device) → (error_switch c obj d).0.sent ≡ d.sent
unfolding error_switch
error_switch-sent cmd_at obj d = refl
error_switch-sent cmd_at_a obj d = hangup-sent datacard_failure d
error_switch-sent cmd_at_d obj d =
    hangup-sent datacard_congestion (record d { outgoing = false; needchup = false })
error_switch-sent c obj d = ground arith

error_last-sent : (last : Option AtCommand) (d : Device) → (error_last last d).0.sent ≡ d.sent
unfolding error_last
error_last-sent none d = refl
error_last-sent (some last) d = elim (Bool-cases (takes_error last.res)) [
  | inl e ↦
      rw e (
        completed-sent d (error_switch last.cmd last.obj d) (error_switch-sent last.cmd last.obj d))
  | inr e ↦ rw e refl
]

unknown_line-sent :
    (pdu : PduReader) (str : Bytes) (last : Option AtCommand) (d : Device)
    → (unknown_line pdu str last d).0.sent ≡ d.sent
unfolding unknown_line at_response_cgmi at_response_cgmm at_response_cgmr at_response_cgsn
    at_response_cimi at_response_pdu
unknown_line-sent pdu str none d = refl
unknown_line-sent pdu str (some last) d = ground arith

-- What was sent is in front of all that is sent now.
abbrev pub Grows : Device → Device → Type 0
Grows d d' = (more : Bytes) × (d'.sent ≡ d.sent ++ more)

write_loop-sent :
    (env : Env) (fuel : ℕ) (p out : Bytes)
    → (more : Bytes) × ((write_loop env fuel p out).0 ≡ out ++ more)
unfolding write_loop advance
write_loop-sent env fuel [] out = (return_sent (env.write (codes "\r")), refl)
write_loop-sent env zero (c ∷ p) out = ([], sym (append-nil out))
write_loop-sent env (suc fuel) (c ∷ p) out = elim (Option-cases (env.write (c ∷ p))) [
  | inl e ↦ rw e ([], sym (append-nil out))
  | inr (n, e) ↦
      let (more, grown) = write_loop-sent env fuel (drop n (c ∷ p)) (out ++ take n (c ∷ p)) in
      rw e (take n (c ∷ p) ++ more, grown ∙ append_assoc out (take n (c ∷ p)) more)
]

at_write_full-Grows : (env : Env) (buf : Bytes) (d : Device) → Grows d (at_write_full env buf d).0
unfolding at_write_full
at_write_full-Grows env buf d = write_loop-sent env (length buf) buf d.sent

unchanged : (d : Device) → Grows d d
unchanged d = ([], sym (append-nil d.sent))

at_send_sms_text-Grows :
    (env : Env) (text : Bytes) (d : Device) → Grows d (at_send_sms_text env text d).0
unfolding at_send_sms_text
at_send_sms_text-Grows env text d =
    let whole = text ++ 0x1a ∷ [] in
    elim (Bool-cases (length whole == 1024)) [
      | inl e ↦ rw e (unchanged d)
      | inr e ↦ elim (Bool-cases (ltb (length whole) 1024)) [
        | inl l ↦ rw (e, l) (at_write_full-Grows env whole d)
        | inr l ↦ rw (e, l) (at_write_full-Grows env (sms_buffer env whole) d)
      ]
    ]

prompt_text-Grows : (env : Env) (obj : Option Bytes) (d : Device) → Grows d (prompt_text env obj d)
unfolding prompt_text
prompt_text-Grows env none d = unchanged d
prompt_text-Grows env (some text) d = at_send_sms_text-Grows env text d

answer_prompt-Grows :
    (env : Env) (last : Option AtCommand) (d : Device) → Grows d (answer_prompt env last d)
unfolding answer_prompt
answer_prompt-Grows env none d = at_send_sms_text-Grows env [] d
answer_prompt-Grows env (some last) d = elim (Bool-cases (is_cmd_at_cmgs last.cmd)) [
  | inl e ↦ rw e (prompt_text-Grows env last.obj d)
  | inr e ↦ rw e (at_send_sms_text-Grows env [] d)
]

as_before : (d d' : Device) → d'.sent ≡ d.sent → Grows d d'
as_before d d' e = ([], e ∙ sym (append-nil d.sent))

-- Only the prompt for a text makes an answer send something.
pub at_response-Grows :
    (env : Env) (pdu : PduReader) (str : Bytes) (r : AtRes) (d : Device)
    → Grows d (at_response env pdu str r d).0
unfolding at_response at_response_rssi at_response_mode at_response_orig at_response_cend
    at_response_conn at_response_creg at_response_cops at_response_csq at_response_ring
    at_response_smmemfull at_response_clip at_response_cmti at_response_cmgr at_response_cusd
    at_response_busy at_response_no_dialtone at_response_no_carrier at_response_cpin
    at_response_cnum at_response_cpms at_response_ok at_response_error hangup
at_response-Grows env pdu str res_ok d =
    as_before d (at_response env pdu str res_ok d).0 (ok_last-sent env d.lastcmd d)
at_response-Grows env pdu str res_error d =
    as_before d (at_response env pdu str res_error d).0 (error_last-sent d.lastcmd d)
at_response-Grows env pdu str res_cms_error d =
    as_before d (at_response env pdu str res_cms_error d).0 (error_last-sent d.lastcmd d)
at_response-Grows env pdu str res_unknown d =
    as_before d (at_response env pdu str res_unknown d).0 (unknown_line-sent pdu str d.lastcmd d)
at_response-Grows env pdu str res_sms_prompt d =
    unfold at_response_sms_prompt in answer_prompt-Grows env d.lastcmd d
at_response-Grows env pdu str r d = as_before d (at_response env pdu str r d).0 (ground arith)
