-- ===== src/Loop/Order.antt =====
-- What a run of the monitor thread writes and queues, against the protocol of commands.
use yate_datacard.At.{AtCommand}
use yate_datacard.Device.{Device}
use yate_datacard.Device.Connect.{disconnect}
use yate_datacard.Env.{Env}
use yate_datacard.Loop.{
  Event, Round, continues, ends, exception, loop, poll_failed, readable, round, timed_out, tty_lost,
  writable, write_command, write_first, write_if_idle,
}
use yate_datacard.Loop.Protocol.{Protocol, Run, answered, hears, protocol_of, stays, writes}
use yate_datacard.Pdu.Status.{between}
use yate_datacard.Prelude.{
  Bool, Bool-cases, Bytes, List, Option, [], append-nil, append_assoc, eq_ℤ, false, if◌then◌else◌,
  inl, inr, none, pos, refl, some, true, ℤ, ◌++◌, ◌∷◌, ◌≡◌, ◌⊎◌,
}
use yate_datacard.Reader.{handle_rd_data}
use yate_datacard.Reader.Queue.{handle_rd_data-Adds, handle_rd_data-Answers}
use yate_datacard.Response.Queue.{bare}
use yate_datacard.Response.Sms.{PduReader}
use yate_datacard.Tty.{at_write_full}

-- The command that a round writes.
abbrev pub first_of : List AtCommand → List AtCommand
first_of [] = []
first_of (c ∷ waiting) = c ∷ []

abbrev pub idle_first : Option AtCommand → List AtCommand → List AtCommand
idle_first none queue = first_of queue
idle_first (some last) queue = []

abbrev pub written_in : Event → Device → List AtCommand
written_in writable d = idle_first d.lastcmd d.command_queue
written_in _ d = []

-- The commands that a round queues: all that it leaves where none waited.
abbrev pub queued_in : Env → PduReader → Event → Device → List AtCommand
queued_in env pdu (readable input last) d =
    (handle_rd_data env pdu last input (bare d)).device.command_queue
queued_in env pdu _ d = []

-- What the rounds of a run give, one behind the other.
module _ {ℓ} {A : Type ℓ} where
  abbrev pub gather_rest : (Device → List A) → Round → List A
  gather_rest more (continues d) = more d
  gather_rest more (ends d) = []

  unfoldable pub gathered :
      (Event → Device → List A) → Env → PduReader → List Event → Device → List A
  gathered part env pdu [] d = []
  gathered part env pdu (e ∷ es) d =
      let after = part e d ++ gather_rest (gathered part env pdu es) (round env pdu e d) in
      if d.running then after else []

-- The commands that a run writes, and those that it queues.
abbrev pub written_commands : Env → PduReader → List Event → Device → List AtCommand
written_commands env pdu = gathered written_in env pdu

abbrev pub queued_commands : Env → PduReader → List Event → Device → List AtCommand
queued_commands env pdu = gathered (queued_in env pdu) env pdu

-- The device as the protocol sees it.
abbrev pub protocol : Device → Protocol
protocol d = protocol_of d.command_queue d.lastcmd

-- A run of the protocol that ends where the thread goes on, and where it ends, with what waited
-- dropped if the device was disconnected.
abbrev pub Follows : Device → List AtCommand → List AtCommand → Round → Type 0
Follows d sent added (continues d') = Run (protocol d) sent added (protocol d')
Follows d sent added (ends d') =
    (p : Protocol) × Run (protocol d) sent added p
    × ((protocol d' ≡ p) ⊎ (protocol d' ≡ protocol_of [] none))

write_first-Follows :
    (env : Env) (queue : List AtCommand) (d : Device)
    → d.command_queue ≡ queue
    → d.lastcmd ≡ none
    → Run (protocol d) (first_of queue) [] (protocol (write_first env queue d))
unfolding write_first at_write_full
write_first-Follows env [] d q l = stays
write_first-Follows env (c ∷ waiting) d q l = rw (q, l) (writes stays)

write_if_idle-Follows :
    (env : Env) (last : Option AtCommand) (d : Device)
    → d.lastcmd ≡ last
    → Run (protocol d) (idle_first last d.command_queue) [] (protocol (write_if_idle env last d))
unfolding write_if_idle
write_if_idle-Follows env none d l = write_first-Follows env d.command_queue d refl l
write_if_idle-Follows env (some last) d l = stays

disconnect-Drops :
    (d : Device)
    → (protocol (disconnect d) ≡ protocol d) ⊎ (protocol (disconnect d) ≡ protocol_of [] none)
unfolding disconnect
disconnect-Drops d = elim (Bool-cases d.connected) [
  | inl c ↦ inr (rw c refl)
  | inr c ↦ inl (rw c refl)
]

only : (new : List AtCommand) {from to : Protocol} → Run from [] (new ++ []) to → Run from [] new to
only new r = rw (append-nil new) at r

-- A device that heard something: more waits, and perhaps nothing is out.
heard-Follows :
    (new : List AtCommand) (d d' : Device)
    → d'.command_queue ≡ d.command_queue ++ new
    → (d'.lastcmd ≡ d.lastcmd) ⊎ (d'.lastcmd ≡ none)
    → Run (protocol d) [] new (protocol d')
heard-Follows new d d' q (inl l) = rw (q, l) (only new (hears new stays))
heard-Follows new d d' q (inr l) = rw (q, l) (only new (answered new stays))

read-Follows :
    (env : Env) (pdu : PduReader) (last : ℤ) (input : Bytes) (d : Device)
    → Run
        (protocol d)
        []
        (queued_in env pdu (readable input last) d)
        (protocol (handle_rd_data env pdu last input d).device)
read-Follows env pdu last input d =
    heard-Follows (queued_in env pdu (readable input last) d) d
      (handle_rd_data env pdu last input d).device (handle_rd_data-Adds env pdu last input d)
      (handle_rd_data-Answers env pdu last input d)

either :
    (b : Bool) (d : Device) (sent added : List AtCommand) (r s : Round)
    → Follows d sent added r
    → Follows d sent added s
    → Follows d sent added (if b then r else s)
either true d sent added r s h k = h
either false d sent added r s h k = k

dropped :
    (d from : Device) (added : List AtCommand)
    → Run (protocol from) [] added (protocol d)
    → Follows from [] added (ends (disconnect d))
dropped d from added r = (protocol d, r, disconnect-Drops d)

round-Follows :
    (env : Env) (pdu : PduReader) (e : Event) (d : Device)
    → Follows d (written_in e d) (queued_in env pdu e d) (round env pdu e d)
unfolding round
round-Follows env pdu writable d =
    unfold write_command in write_if_idle-Follows env d.lastcmd d refl
round-Follows env pdu (readable input last) d =
    let read = handle_rd_data env pdu last input d in
    let run = read-Follows env pdu last input d in
    either (eq_ℤ read.ret (pos 0)) d [] _ (continues read.device) (ends (disconnect read.device))
      run (dropped read.device d _ run)
round-Follows env pdu (poll_failed true) d = stays
round-Follows env pdu (poll_failed false) d = dropped d d [] stays
round-Follows env pdu timed_out d =
    either d.initialized d [] [] (continues d) (ends (disconnect d)) stays (dropped d d [] stays)
round-Follows env pdu tty_lost d = dropped d d [] stays
round-Follows env pdu exception d = dropped d d [] stays

-- A run behind a run.
Run-append :
    {from between to : Protocol} {sent added sent' added' : List AtCommand}
    → Run from sent added between
    → Run between sent' added' to
    → Run from (sent ++ sent') (added ++ added') to
Run-append stays k = k
Run-append (writes r) k = writes (Run-append r k)
Run-append {added'} (hears new {added} r) k =
    rw (append_assoc new added added') (hears new (Run-append r k))
Run-append {added'} (answered new {added} r) k =
    rw (append_assoc new added added') (answered new (Run-append r k))

Follows-append :
    (d between : Device) (sent added sent' added' : List AtCommand) (r : Round)
    → Run (protocol d) sent added (protocol between)
    → Follows between sent' added' r
    → Follows d (sent ++ sent') (added ++ added') r
Follows-append d between sent added sent' added' (continues d') k h = Run-append k h
Follows-append d between sent added sent' added' (ends d') k (p, h, e) = (p, Run-append k h, e)

while_running :
    (b : Bool) (d : Device) (sent added : List AtCommand) (r : Round)
    → Follows d sent added r
    → Follows d (if b then sent else []) (if b then added else []) (if b then r else ends d)
while_running true d sent added r h = h
while_running false d sent added r h = (protocol d, stays, inl refl)

module _ (env : Env) (pdu : PduReader) where
  abbrev loop_on : List Event → Round → Round
  loop_on es (continues d) = loop env pdu es d
  loop_on es (ends d) = ends d

  rounds-Follow :
      (e : Event) (es : List Event) (d : Device) (r : Round)
      → Follows d (written_in e d) (queued_in env pdu e d) r
      → ((d' : Device)
          → Follows d'
              (written_commands env pdu es d')
              (queued_commands env pdu es d')
              (loop env pdu es d'))
      → Follows d
          (written_in e d ++ gather_rest (written_commands env pdu es) r)
          (queued_in env pdu e d ++ gather_rest (queued_commands env pdu es) r)
          (loop_on es r)
  rounds-Follow e es d (continues d') h ih =
      Follows-append d d' (written_in e d) (queued_in env pdu e d) _ _ (loop env pdu es d') h
        (ih d')
  rounds-Follow e es d (ends d') (p, h, dropped) ih =
      (p, rw (append-nil (written_in e d), append-nil (queued_in env pdu e d)) h, dropped)

  -- In every run of the monitor thread, the commands that it writes, the queue and the command
  -- that is out are a run of the protocol: a command is written only while none is out, it is the
  -- first that waits, and it is out until it is answered. Where the thread ends, what waits and
  -- what is out are kept or both are dropped.
  pub loop_refines :
      (es : List Event) (d : Device)
      → Follows d (written_commands env pdu es d) (queued_commands env pdu es d) (loop env pdu es d)
  unfolding loop gathered
  loop_refines [] d = stays
  loop_refines (e ∷ es) d =
      while_running d.running d _ _ (loop_on es (round env pdu e d))
        (rounds-Follow e es d (round env pdu e d) (round-Follows env pdu e d) (loop_refines es))
