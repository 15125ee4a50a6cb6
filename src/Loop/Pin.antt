-- ===== src/Loop/Pin.antt =====
-- How often the PIN is written to the modem in a run of the monitor thread.
use yate_datacard.At.{AtCommand}
use yate_datacard.Device.{Device}
use yate_datacard.Env.{Env}
use yate_datacard.Loop.{
  Event, Round, continues, ends, exception, poll_failed, readable, round, start_events, timed_out,
  tty_lost, writable, write_command, write_first, write_if_idle,
}
use yate_datacard.Prelude.{
  Bool, Bool-cases, List, Option, [], arith, eq_ℤ, false, if◌then◌else◌, inl, inr, none, pos, refl,
  some, true, ℕ, ◌+◌, ◌∷◌, ◌≡◌, ◌≤◌,
}
use yate_datacard.Reader.{handle_rd_data}
use yate_datacard.Reader.Pin.{handle_rd_data-pin_budget}
use yate_datacard.Response.Pin.{is_pin, pin_budget}
use yate_datacard.Response.Sms.{PduReader}
use yate_datacard.Tty.{at_write_full}

-- Whether a round writes the command with the PIN.
abbrev pub first_is_pin : List AtCommand → ℕ
first_is_pin [] = 0
first_is_pin (c ∷ waiting) = if is_pin c then 1 else 0

abbrev pub idle_first_is_pin : Option AtCommand → List AtCommand → ℕ
idle_first_is_pin none queue = first_is_pin queue
idle_first_is_pin (some last) queue = 0

abbrev pub writes_pin : Event → Device → ℕ
writes_pin writable d = idle_first_is_pin d.lastcmd d.command_queue
writes_pin _ d = 0

abbrev pin_rest : (Device → ℕ) → Round → ℕ
pin_rest more (continues d) = more d
pin_rest more (ends d) = 0

-- The rounds of a run that write the PIN.
pub pin_writes : Env → PduReader → List Event → Device → ℕ
pin_writes env pdu [] d = 0
pin_writes env pdu (e ∷ es) d =
    let after = writes_pin e d + pin_rest (pin_writes env pdu es) (round env pdu e d) in
    if d.running then after else 0

-- What a round writes and what it leaves of the budget.
abbrev Pays : Event → Device → Round → Type 0
Pays e d (continues d') = writes_pin e d + pin_budget d' ≤ pin_budget d
Pays e d (ends d') = writes_pin e d ≡ 0

write_first-Pays :
    (env : Env) (queue : List AtCommand) (d : Device)
    → d.command_queue ≡ queue
    → first_is_pin queue + pin_budget (write_first env queue d) ≤ pin_budget d
unfolding write_first at_write_full pin_budget
write_first-Pays env [] d e = omega arith
write_first-Pays env (c ∷ waiting) d e = rw e (omega arith)

write_if_idle-Pays :
    (env : Env) (last : Option AtCommand) (d : Device)
    → idle_first_is_pin last d.command_queue + pin_budget (write_if_idle env last d) ≤ pin_budget d
unfolding write_if_idle
write_if_idle-Pays env none d = write_first-Pays env d.command_queue d refl
write_if_idle-Pays env (some last) d = omega arith

round-Pays : (env : Env) (pdu : PduReader) (e : Event) (d : Device) → Pays e d (round env pdu e d)
unfolding round
round-Pays env pdu writable d = unfold write_command in write_if_idle-Pays env d.lastcmd d
round-Pays env pdu (readable input last) d =
    elim (Bool-cases (eq_ℤ (handle_rd_data env pdu last input d).ret (pos 0))) [
      | inl e ↦ rw e (omega (arith, handle_rd_data-pin_budget env pdu last input d))
      | inr e ↦ rw e refl
    ]
round-Pays env pdu (poll_failed true) d = omega arith
round-Pays env pdu (poll_failed false) d = refl
round-Pays env pdu timed_out d = ground arith
round-Pays env pdu tty_lost d = refl
round-Pays env pdu exception d = refl

Pays-all :
    (more : Device → ℕ) (e : Event) (d : Device) (r : Round)
    → ((d' : Device) → more d' ≤ pin_budget d')
    → Pays e d r
    → writes_pin e d + pin_rest more r ≤ pin_budget d
Pays-all more e d (continues d') ih p = omega (arith, ih d')
Pays-all more e d (ends d') ih p = omega arith

if_le : (b : Bool) (n m : ℕ) → n ≤ m → (if b then n else 0) ≤ m
if_le true n m h = h
if_le false n m h = omega arith

pin_writes-le :
    (env : Env) (pdu : PduReader) (es : List Event) (d : Device)
    → pin_writes env pdu es d ≤ pin_budget d
unfolding pin_writes
pin_writes-le env pdu [] d = omega arith
pin_writes-le env pdu (e ∷ es) d =
    let within =
      Pays-all (pin_writes env pdu es) e d (round env pdu e d) (pin_writes-le env pdu es)
        (round-Pays env pdu e d) in
    if_le d.running _ (pin_budget d) within

-- In a run of the monitor thread, whatever the modem answers, the PIN is written to it at most
-- once.
pub pin_written_once :
    (env : Env) (pdu : PduReader) (es : List Event) (d : Device)
    → pin_writes env pdu es (start_events d) ≤ 1
unfolding start_events pin_budget
pin_written_once env pdu es d = ground (arith, pin_writes-le env pdu es (start_events d))
