-- ===== src/Response/Laws.antt =====
-- What an OK and an ERROR do to the command that is out.
use mathlib.Core.Path.{subst}
use yate_datacard.At.{
  AtCmd, AtCommand, cmd_at, cmd_at_a, cmd_at_cgmi, cmd_at_cgmm, cmd_at_cgmr, cmd_at_cgsn,
  cmd_at_chup, cmd_at_cimi, cmd_at_clip, cmd_at_cmee, cmd_at_cmgf, cmd_at_cnmi, cmd_at_cnum,
  cmd_at_cops_init, cmd_at_cpin, cmd_at_cpin_enter, cmd_at_cpms, cmd_at_creg_init, cmd_at_cssn,
  cmd_at_e, cmd_at_u2diag, cmd_at_z, res_ok,
}
use yate_datacard.Device.{Device}
use yate_datacard.Env.{Env}
use yate_datacard.Prelude.{
  Bool, Bool-cases, Bytes, Option, ap, arith, false, if◌then◌else◌, inl, inr, length, length-append,
  negsuc, none, not, pos, refl, some, sym, true, ℤ, ◌&&◌, ◌+◌, ◌||◌, ◌≡◌, ◌≢◌, ◌≤◌, ◌⊎◌,
}
use yate_datacard.Response.Error.{at_response_error, error_last, error_switch, takes_error}
use yate_datacard.Response.Ok.{
  at_response_ok, completed, is_call_cmd, is_res_ok, ok_call, ok_init, ok_last, ok_switch,
}

-- The SIM asks for something that the driver cannot give: in `case CMD_AT_CPIN`.
abbrev pub WrongSim : AtCmd → Device → Type 0
WrongSim c d =
    (c ≡ cmd_at_cpin)
    × (d.initialized ≡ false)
    × (d.simstatus ≢ pos 0)
    × ((d.simstatus ≢ pos 1) ⊎ (length d.sim_pin ≡ 0) ⊎ (d.pincount ≢ 0))

-- The switch puts at most one command behind those that wait, and fails in one case only.
abbrev Switched : AtCmd → Device → Device × Bool → Type 0
Switched c d n =
    (length n.0.command_queue ≤ length d.command_queue + 1)
    × ((n.1 ≡ false) ⊎ ((n.1 ≡ true) × WrongSim c d))

ok_init-Switched : (env : Env) (c : AtCmd) (d : Device) → Switched c d (ok_init env c d)
unfolding ok_init
ok_init-Switched env cmd_at d = grind (arith, length-append)
ok_init-Switched env cmd_at_cpin d = grind (arith, length-append)
ok_init-Switched env c d = grind (arith, length-append)

ok_call-Switched : (c : AtCmd) (obj : Option Bytes) (d : Device) → Switched c d (ok_call c obj d)
unfolding ok_call
ok_call-Switched cmd_at_a obj d = grind (arith, length-append)
ok_call-Switched c obj d = grind (arith, length-append)

ok_switch-Switched :
    (env : Env) (last : AtCommand) (d : Device) → Switched last.cmd d (ok_switch env last d)
unfolding ok_switch
ok_switch-Switched env last d = elim (Bool-cases (is_call_cmd last.cmd)) [
  | inl e ↦ rw e (ok_call-Switched last.cmd last.obj d)
  | inr e ↦ rw e (ok_init-Switched env last.cmd d)
]

abbrev pub Done : AtCmd → Device → Device × ℤ → Type 0
Done c d r =
    (r.0.lastcmd ≡ none)
    × (length r.0.command_queue ≤ length d.command_queue + 1)
    × ((r.1 ≡ pos 0) ⊎ ((r.1 ≡ negsuc 0) × WrongSim c d))

completed-Done :
    (c : AtCmd) (d : Device) (n : Device × Bool) → Switched c d n → Done c d (completed n)
completed-Done c d (x, true) s = ground arith
completed-Done c d (x, false) s = ground arith

ok_last-Done :
    (env : Env) (last : AtCommand) (d : Device)
    → is_res_ok last.res ≡ true
    → Done last.cmd d (ok_last env (some last) d)
unfolding ok_last
ok_last-Done env last d h =
    rw h (completed-Done last.cmd d (ok_switch env last d) (ok_switch-Switched env last d))

-- An OK for the command that is out, and that expects OK, completes it: none is out then, at most
-- one command is queued in its turn, and the result is 0, or -1, and that only where AT+CPIN? met a
-- SIM that is not ready and for which no PIN can be sent, on a device that is not initialised.
pub at_response_ok_lem :
    (env : Env) (last : AtCommand) (d : Device)
    → d.lastcmd ≡ some last
    → last.res ≡ res_ok
    → Done last.cmd d (at_response_ok env d)
unfolding at_response_ok is_res_ok
at_response_ok_lem env last d e ok =
    subst (λ o. Done last.cmd d (ok_last env o d)) (sym e)
      (ok_last-Done env last d (ap is_res_ok ok))

-- The commands whose failure ends the connection whenever it comes.
abbrev pub is_vital : AtCmd → Bool
is_vital cmd_at = true
is_vital cmd_at_z = true
is_vital cmd_at_e = true
is_vital cmd_at_u2diag = true
is_vital cmd_at_cgmi = true
is_vital cmd_at_cgmm = true
is_vital cmd_at_cgmr = true
is_vital cmd_at_cmee = true
is_vital cmd_at_cgsn = true
is_vital cmd_at_cimi = true
is_vital cmd_at_cpin = true
is_vital cmd_at_cpin_enter = true
is_vital cmd_at_cops_init = true
is_vital cmd_at_creg_init = true
is_vital cmd_at_cnum = true
is_vital cmd_at_clip = true
is_vital cmd_at_cssn = true
is_vital cmd_at_chup = true
is_vital _ = false

-- The commands that set messages up, whose failure ends a connection that is not initialised yet.
abbrev pub sets_sms_up : AtCmd → Bool
sets_sms_up cmd_at_cmgf = true
sets_sms_up cmd_at_cpms = true
sets_sms_up cmd_at_cnmi = true
sets_sms_up _ = false

abbrev pub is_fatal : AtCmd → Device → Bool
is_fatal c d = is_vital c || (sets_sms_up c && not d.initialized)

error_switch-fatal :
    (c : AtCmd) (obj : Option Bytes) (d : Device) → (error_switch c obj d).1 ≡ is_fatal c d
unfolding error_switch
error_switch-fatal cmd_at obj d = refl
error_switch-fatal c obj d = ground arith

error_last_lem :
    (last : AtCommand) (d : Device)
    → takes_error last.res ≡ true
    → ((error_last (some last) d).0.lastcmd ≡ none)
      × ((error_last (some last) d).1 ≡ (if is_fatal last.cmd d then negsuc 0 else pos 0))
unfolding error_last
error_last_lem last d h = rw h (refl, rw (error_switch-fatal last.cmd last.obj d))

-- An ERROR for the command that is out, and that expects OK, fails it: none is out then, and the
-- result is -1 exactly for the commands of `is_vital` (AT+CHUP, and those that initialise the modem
-- but AT+CREG?, AT^CVOICE? and AT+CSCS), and for those that set messages up while the device is not
-- initialised; for any other command it is 0.
pub at_response_error_lem :
    (last : AtCommand) (d : Device)
    → d.lastcmd ≡ some last
    → last.res ≡ res_ok
    → ((at_response_error d).0.lastcmd ≡ none)
      × ((at_response_error d).1 ≡ (if is_fatal last.cmd d then negsuc 0 else pos 0))
unfolding at_response_error takes_error
at_response_error_lem last d e ok =
    subst
      (λ o.
        ((error_last o d).0.lastcmd ≡ none)
        × ((error_last o d).1 ≡ (if is_fatal last.cmd d then negsuc 0 else pos 0)))
      (sym e) (error_last_lem last d (ap takes_error ok))

-- An answer to nothing, OK or ERROR, changes nothing.
pub unexpected_answer :
    (env : Env) (d : Device)
    → d.lastcmd ≡ none
    → (at_response_ok env d ≡ (d, pos 0)) × (at_response_error d ≡ (d, pos 0))
unfolding at_response_ok at_response_error
unexpected_answer env d e = (ap (λ o. ok_last env o d) e, ap (λ o. error_last o d) e)
