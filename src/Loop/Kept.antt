-- ===== src/Loop/Kept.antt =====
-- What the runs of the monitor thread keep.
use yate_datacard.At.{AtCommand, AtRes}
use yate_datacard.Device.{BltState, Device}
use yate_datacard.Device.Connect.{disconnect}
use yate_datacard.Env.{Env}
use yate_datacard.Loop.{
  Event, Round, continues, ends, exception, loop, poll_failed, readable, round, timed_out, tty_lost,
  writable, write_command, write_first, write_if_idle,
}
use yate_datacard.Prelude.{
  Bool, Bytes, List, Option, [], eq_ℤ, false, if◌then◌else◌, none, pos, some, true, ◌∷◌,
}
use yate_datacard.Reader.{handle_rd_data}
use yate_datacard.Reader.Kept.{handle_rd_data_keeps}
use yate_datacard.Response.Dispatch.{at_response}
use yate_datacard.Response.Sms.{PduReader}
use yate_datacard.Tty.{at_write_full}

-- The device behind a round.
abbrev pub device_of : Round → Device
device_of (continues d) = d
device_of (ends d) = d

-- A property of a device that the reader's changes of its buffer, the answers to lines, the writing
-- of a command and disconnects keep.
pub record Kept (env : Env) (pdu : PduReader) (P : Device → Type 0) : Type 0 where
  pub buffered :
      (s : BltState) (text : Bytes) (d : Device) → P d → P (record d { state = s; rd_buff = text })
  pub answers_line :
      (str : Bytes) (r : AtRes) (d : Device) → P d → P (at_response env pdu str r d).0
  pub wrote :
      (out : Bytes) (queue : List AtCommand) (last : Option AtCommand) (d : Device)
      → P d
      → P (record d { sent = out; command_queue = queue; lastcmd = last })
  pub disconnected : (d : Device) → P d → P (disconnect d)

module _ (env : Env) (pdu : PduReader) (P : Device → Type 0) (keeps : Kept env pdu P) where
  write_first_keeps : (queue : List AtCommand) (d : Device) → P d → P (write_first env queue d)
  unfolding write_first at_write_full
  write_first_keeps [] d h = h
  write_first_keeps (c ∷ waiting) d h = keeps.wrote _ waiting (some c) d h

  write_if_idle_keeps : (last : Option AtCommand) (d : Device) → P d → P (write_if_idle env last d)
  unfolding write_if_idle
  write_if_idle_keeps none d h = write_first_keeps d.command_queue d h
  write_if_idle_keeps (some last) d h = h

  one_of :
      (b : Bool) (r s : Round)
      → P (device_of r)
      → P (device_of s)
      → P (device_of (if b then r else s))
  one_of true r s h k = h
  one_of false r s h k = k

  pub round_keeps : (e : Event) (d : Device) → P d → P (device_of (round env pdu e d))
  unfolding round
  round_keeps writable d h = unfold write_command in write_if_idle_keeps d.lastcmd d h
  round_keeps (readable input last) d h =
      let read = handle_rd_data env pdu last input d in
      let after = handle_rd_data_keeps env pdu last P keeps.buffered keeps.answers_line input d h in
      one_of (eq_ℤ read.ret (pos 0)) (continues read.device) (ends (disconnect read.device)) after
        (keeps.disconnected read.device after)
  round_keeps (poll_failed true) d h = h
  round_keeps (poll_failed false) d h = keeps.disconnected d h
  round_keeps timed_out d h =
      one_of d.initialized (continues d) (ends (disconnect d)) h (keeps.disconnected d h)
  round_keeps tty_lost d h = keeps.disconnected d h
  round_keeps exception d h = keeps.disconnected d h

  abbrev loop_behind : List Event → Round → Round
  loop_behind es (continues d) = loop env pdu es d
  loop_behind es (ends d) = ends d

  rounds_keep :
      (es : List Event) (r : Round)
      → ((d : Device) → P d → P (device_of (loop env pdu es d)))
      → P (device_of r)
      → P (device_of (loop_behind es r))
  rounds_keep es (continues d) ih h = ih d h
  rounds_keep es (ends d) ih h = h

  pub loop_keeps : (es : List Event) (d : Device) → P d → P (device_of (loop env pdu es d))
  unfolding loop
  loop_keeps [] d h = h
  loop_keeps (e ∷ es) d h =
      one_of d.running (loop_behind es (round env pdu e d)) (ends d)
        (rounds_keep es (round env pdu e d) (loop_keeps es) (round_keeps e d h)) h
