-- ===== src/Loop.antt =====
-- `processATEvents` (at_io.cpp): the monitor thread of a device. One round of its loop is a step;
-- what `poll` and the tty answer is the round's event.
pub mod Pin
pub mod Ttys
pub mod Init
pub mod Failures
pub mod Flows
pub mod Protocol
pub mod Explained
pub mod Kept
pub mod Order
pub mod Chunks
pub mod Sent
mod Tests
-- What `poll` reports, behind a test that both ttys still answer.
use yate_datacard.At.{AtCommand, at_command, cmd_at}
use yate_datacard.Device.{Device}
use yate_datacard.Device.Connect.{disconnect}
use yate_datacard.Env.{Env}
use yate_datacard.Prelude.{
  Bool, Bytes, List, Option, [], codes, eq_ℤ, false, if◌then◌else◌, none, pos, some, true, ℤ, ◌∷◌,
}
use yate_datacard.Reader.{ReadResult, handle_rd_data}
use yate_datacard.Response.Sms.{PduReader}
use yate_datacard.Tty.{at_write_full}

pub data Event : Type 0 where
  -- `dataStatus()` or `audioStatus()` is not 0
  tty_lost : Event
  -- `poll` fails, and whether that was EINTR
  poll_failed : Bool → Event
  timed_out : Event
  -- POLLIN: what can be read, and what `read` gives behind it
  readable : Bytes → ℤ → Event
  -- POLLOUT; it is polled for only while a command waits and none is out
  writable : Event
  -- any other event
  exception : Event

-- The loop goes on, or the thread ends.
pub data Round : Type 0 where
  continues : Device → Round
  ends : Device → Round

-- In front of the loop.
unfoldable pub start_events : Device → Device
start_events d = record d { command_queue = at_command (codes "AT") cmd_at ∷ []; lastcmd = none }

write_first : Env → List AtCommand → Device → Device
write_first env [] d = d
write_first env (cmd ∷ waiting) d = record (at_write_full env cmd.command d).0 {
  command_queue = waiting;
  lastcmd = some cmd;
}

-- `if(!m_lastcmd)`: nothing is written while an answer is awaited.
write_if_idle : Env → Option AtCommand → Device → Device
unfolding write_first
write_if_idle env none d = write_first env d.command_queue d
write_if_idle env (some last) d = d

unfoldable pub write_command : Env → Device → Device
unfolding write_if_idle
write_command env d = write_if_idle env d.lastcmd d

-- `if (handle_rd_data()) disconnect`
read_result : ReadResult → Round
read_result r = if eq_ℤ r.ret (pos 0) then continues r.device else ends (disconnect r.device)

unfoldable pub round : Env → PduReader → Event → Device → Round
unfolding read_result write_command
round env pdu tty_lost d = ends (disconnect d)
round env pdu (poll_failed true) d = continues d
round env pdu (poll_failed false) d = ends (disconnect d)
round env pdu timed_out d = if d.initialized then continues d else ends (disconnect d)
round env pdu (readable input last) d = read_result (handle_rd_data env pdu last input d)
round env pdu writable d = continues (write_command env d)
round env pdu exception d = ends (disconnect d)

-- The loop over the events of a run, while the device is running.
unfoldable pub loop : Env → PduReader → List Event → Device → Round
unfolding round
loop env pdu [] d = continues d
loop env pdu (e ∷ es) d =
    if d.running
    then elim (round env pdu e d) [ continues d' ↦ loop env pdu es d' | ends d' ↦ ends d' ]
    else ends d
