-- ===== src/Loop/Init.antt =====
-- The initialisation of a modem that answers OK to every command and whose SIM is ready.
use mathlib.Core.Path.{subst}
use yate_datacard.At.{
  AtCmd, AtCommand, at_command, cmd_at, cmd_at_cgmi, cmd_at_cgmm, cmd_at_cgmr, cmd_at_cgsn,
  cmd_at_cimi, cmd_at_cmee, cmd_at_cpin, cmd_at_csq, cmd_at_e, cmd_at_u2diag, cmd_at_z,
}
use yate_datacard.Device.{Config, Device}
use yate_datacard.Env.{Env}
use yate_datacard.Loop.{start_events, write_command}
use yate_datacard.Prelude.{
  Bool-cases, Bytes, Option, [], ap, codes, eq_ℤ, false, if◌then◌else◌, inl, inr, negsuc, none, pos,
  refl, some, suc, sym, true, zero, ℕ, ◌++◌, ◌∙◌, ◌∷◌, ◌≡◌,
}
use yate_datacard.Response.Ok.{at_response_ok}
use yate_datacard.Response.Parse.{at_parse_cpin}
use yate_datacard.Response.Status.{at_response_cpin}
use yate_datacard.Tty.{at_write_full}

-- The answer to the command that is out: for AT+CPIN? a line with the state of the SIM, then OK.
sim_line : Env → Option AtCommand → Device → Device
sim_line env none d = d
sim_line env (some last) d = elim last.cmd [
  | cmd_at_cpin ↦ (at_response_cpin env (codes "+CPIN: READY") d).0
  | _ ↦ d
]

-- The command that waits is written, and answered.
unfoldable pub exchange : Env → Device → Device
unfolding sim_line
exchange env d =
    let out = write_command env d in (at_response_ok env (sim_line env out.lastcmd out)).0

pub exchanges : ℕ → Env → Device → Device
exchanges zero env d = d
exchanges (suc n) env d = exchanges n env (exchange env d)

-- One command waits, none is out, and the device is not initialised yet.
abbrev staged : AtCmd → Bytes → Device → Device
staged c text d = record d {
  command_queue = at_command text c ∷ [];
  lastcmd = none;
  initialized = false;
}

-- The device is ready for calls and messages, and asks for the signal strength.
pub record IsUp (d : Device) : Type 0 where
  pub up : d.initialized ≡ true
  pub voice : d.has_voice ≡ true
  pub sms : d.has_sms ≡ true
  pub ucs2 : d.use_ucs2_encoding ≡ true
  pub idle : d.lastcmd ≡ none
  pub next : d.command_queue ≡ at_command (codes "AT+CSQ") cmd_at_csq ∷ []

tail : (env : Env) (text : Bytes) (d : Device) → IsUp (exchanges 11 env (staged cmd_at_cimi text d))
unfolding exchanges exchange at_response_ok write_command at_write_full
tail env text d = record {
  up = refl;
  voice = refl;
  sms = refl;
  ucs2 = refl;
  idle = refl;
  next = refl;
}

-- One exchange later this command waits, with the configuration unchanged.
record Leads (env : Env) (from : Device) (c : AtCmd) : Type 0 where
  text : Bytes
  last : Device
  arrives : exchange env from ≡ staged c text last
  configured : last.config ≡ from.config

-- The device as it is when its command has been written.
abbrev out : Env → Bytes → Device → Device
out env text d = (at_write_full env text d).0

-- A command that has one successor, and the text of that.
data Simple : AtCmd → AtCmd → Bytes → Type 0 where
  z_e : Simple cmd_at_z cmd_at_e (codes "ATE0")
  u2diag_cgmi : Simple cmd_at_u2diag cmd_at_cgmi (codes "AT+CGMI")
  cgmi_cgmm : Simple cmd_at_cgmi cmd_at_cgmm (codes "AT+CGMM")
  cgmm_cgmr : Simple cmd_at_cgmm cmd_at_cgmr (codes "AT+CGMR")
  cgmr_cmee : Simple cmd_at_cgmr cmd_at_cmee (codes "AT+CMEE=0")
  cmee_cgsn : Simple cmd_at_cmee cmd_at_cgsn (codes "AT+CGSN")
  cgsn_cpin : Simple cmd_at_cgsn cmd_at_cpin (codes "AT+CPIN?")

module _ (env : Env) where
  Simple-step :
      {c c' : AtCmd} {next : Bytes} (text : Bytes) (d : Device)
      → Simple c c' next
      → exchange env (staged c text d) ≡ staged c' next (out env text d)
  unfolding exchange at_response_ok write_command at_write_full
  Simple-step text d z_e = refl
  Simple-step text d u2diag_cgmi = refl
  Simple-step text d cgmi_cgmm = refl
  Simple-step text d cgmm_cgmr = refl
  Simple-step text d cgmr_cmee = refl
  Simple-step text d cmee_cgsn = refl
  Simple-step text d cgsn_cpin = refl

  Simple-Leads :
      {c c' : AtCmd} {next : Bytes}
      → Simple c c' next
      → (text : Bytes) (d : Device) → Leads env (staged c text d) c'
  unfolding at_write_full
  Simple-Leads {next} s text d = record {
    text = next;
    last = out env text d;
    arrives = Simple-step text d s;
    configured = refl;
  }

  cpin_Leads :
      at_parse_cpin env (codes "+CPIN: READY") ≡ pos 0
      → (text : Bytes) (d : Device) → Leads env (staged cmd_at_cpin text d) cmd_at_cimi
  unfolding exchange at_response_ok write_command at_write_full at_response_cpin
  cpin_Leads ready text d = record {
    text = codes "AT+CIMI";
    last = record (out env text d) { simstatus = pos 0 };
    arrives = rw ready;
    configured = refl;
  }

  -- The two commands whose successor the configuration chooses.
  e_cgmi :
      (text : Bytes) (d : Device)
      → eq_ℤ d.u2diag (negsuc 0) ≡ true
      → Leads env (staged cmd_at_e text d) cmd_at_cgmi
  unfolding exchange at_response_ok write_command at_write_full
  e_cgmi text d h = record {
    text = codes "AT+CGMI";
    last = out env text d;
    arrives = rw h;
    configured = refl;
  }

  e_u2diag :
      (text : Bytes) (d : Device)
      → eq_ℤ d.u2diag (negsuc 0) ≡ false
      → Leads env (staged cmd_at_e text d) cmd_at_u2diag
  unfolding exchange at_response_ok write_command at_write_full
  e_u2diag text d h = record {
    text = codes "AT^U2DIAG=" ++ env.string_of_int d.u2diag;
    last = out env text d;
    arrives = rw h;
    configured = refl;
  }

  at_z :
      (text : Bytes) (d : Device)
      → d.reset_datacard ≡ true
      → Leads env (staged cmd_at text d) cmd_at_z
  unfolding exchange at_response_ok write_command at_write_full
  at_z text d h = record {
    text = codes "ATZ";
    last = out env text d;
    arrives = rw h;
    configured = refl;
  }

  at_e :
      (text : Bytes) (d : Device)
      → d.reset_datacard ≡ false
      → Leads env (staged cmd_at text d) cmd_at_e
  unfolding exchange at_response_ok write_command at_write_full
  at_e text d h = record {
    text = codes "ATE0";
    last = out env text d;
    arrives = rw h;
    configured = refl;
  }

  -- From this command on, `n` exchanges bring a device with this configuration up.
  abbrev Brings : Config → ℕ → AtCmd → Type 0
  Brings k n c =
      (text : Bytes) (d : Device) → d.config ≡ k → IsUp (exchanges n env (staged c text d))

  back :
      (k : Config) (n : ℕ) (c c' : AtCmd)
      → ((text : Bytes) (d : Device) → d.config ≡ k → Leads env (staged c text d) c')
      → Brings k n c'
      → Brings k (suc n) c
  unfolding exchanges
  back k n c c' step next text d e =
      let l = step text d e in
      subst (λ x. IsUp (exchanges n env x)) (sym l.arrives) (next l.text l.last (l.configured ∙ e))

  back-Simple :
      (k : Config) (n : ℕ) {c c' : AtCmd} {next : Bytes}
      → Simple c c' next
      → Brings k n c'
      → Brings k (suc n) c
  back-Simple k n {c} {c'} s = back k n c c' (λ text d e. Simple-Leads s text d)

-- The exchanges from ATE0 on: one more for AT^U2DIAG.
abbrev e_rounds : Config → ℕ
e_rounds k = if eq_ℤ k.u2diag (negsuc 0) then 18 else 19

-- The exchanges of the whole initialisation: one more for ATZ.
abbrev pub init_rounds : Config → ℕ
init_rounds k = if k.reset_datacard then suc (suc (e_rounds k)) else suc (e_rounds k)

module _ (env : Env) (ready : at_parse_cpin env (codes "+CPIN: READY") ≡ pos 0) (k : Config) where
  from_cgmi : Brings env k 17 cmd_at_cgmi
  from_cgmi = back-Simple env k 16 cgmi_cgmm (
      back-Simple env k 15 cgmm_cgmr (
        back-Simple env k 14 cgmr_cmee (
          back-Simple env k 13 cmee_cgsn (
            back-Simple env k 12 cgsn_cpin (
              back env k 11 cmd_at_cpin cmd_at_cimi (λ text d e. cpin_Leads env ready text d)
                (λ text d e. tail env text d))))))

  from_e : Brings env k (e_rounds k) cmd_at_e
  from_e text d c = elim (Bool-cases (eq_ℤ k.u2diag (negsuc 0))) [
    | inl h ↦ rw h (
        back env k 17 cmd_at_e cmd_at_cgmi
          (λ text d c. e_cgmi env text d (ap (λ x. eq_ℤ x.u2diag (negsuc 0)) c ∙ h)) from_cgmi text
          d c)
    | inr h ↦ rw h (
        back env k 18 cmd_at_e cmd_at_u2diag
          (λ text d c. e_u2diag env text d (ap (λ x. eq_ℤ x.u2diag (negsuc 0)) c ∙ h))
          (back-Simple env k 17 u2diag_cgmi from_cgmi) text d c)
  ]

  from_at : Brings env k (init_rounds k) cmd_at
  from_at text d c = elim (Bool-cases k.reset_datacard) [
    | inl h ↦ rw h (
        back env k (suc (e_rounds k)) cmd_at cmd_at_z
          (λ text d c. at_z env text d (ap (λ x. x.reset_datacard) c ∙ h))
          (back-Simple env k (e_rounds k) z_e from_e) text d c)
    | inr h ↦ rw h (
        back env k (e_rounds k) cmd_at cmd_at_e
          (λ text d c. at_e env text d (ap (λ x. x.reset_datacard) c ∙ h)) from_e text d c)
  ]

-- A modem that answers OK to every command, and whose SIM is ready, brings a device that the
-- monitor thread starts up in 19 exchanges of a command and its answer, in 20 with one of ATZ and
-- AT^U2DIAG configured, in 21 with both: the device is initialised, for calls and for messages.
pub initialize-IsUp :
    (env : Env) (d : Device)
    → at_parse_cpin env (codes "+CPIN: READY") ≡ pos 0
    → d.initialized ≡ false
    → IsUp (exchanges (init_rounds d.config) env (start_events d))
unfolding start_events
initialize-IsUp env d ready down =
    subst
      (λ b.
        IsUp (exchanges (init_rounds d.config) env (record (start_events d) { initialized = b })))
      (sym down) (from_at env ready d.config (codes "AT") d refl)
