-- ===== src/Loop/Sent.antt =====
-- What a run of the monitor thread sends to the data tty, in order.
use yate_datacard.At.{AtCommand}
use yate_datacard.Device.{Device}
use yate_datacard.Device.Calls.{hangup}
use yate_datacard.Device.Connect.{disconnect}
use yate_datacard.Env.{Env, WritesSome}
use yate_datacard.Loop.{
  Event, Round, continues, ends, exception, loop, poll_failed, readable, round, timed_out, tty_lost,
  writable, write_command, write_first, write_if_idle,
}
use yate_datacard.Loop.Chunks.{
  Chunk, chunks_in, commands_of, commands_of-transcript, lines, transcript, wire, wire-append,
}
use yate_datacard.Loop.Kept.{device_of}
use yate_datacard.Loop.Order.{
  first_of, gather_rest, gathered, idle_first, loop_refines, queued_commands,
}
use yate_datacard.Loop.Protocol.{Run-in_order}
use yate_datacard.Prelude.{
  Bool, Bytes, List, Option, [], ap, append-nil, append_assoc, arith, codes, drop, drop-append,
  eq_ℤ, false, if◌then◌else◌, length, none, pos, some, sym, true, ℤ, ◌++◌, ◌∙◌, ◌∷◌, ◌≡◌, ◌≢◌,
}
use yate_datacard.Reader.{handle_rd_data}
use yate_datacard.Reader.Sent.{handle_rd_data-Grows}
use yate_datacard.Response.Sms.{PduReader}
use yate_datacard.Tty.Laws.{Sends, all_of, at_write_full-Sends, no_return, part_of}

-- A tty whose writes do not fail.
abbrev pub Accepts : Env → Type 0
Accepts env = (p : Bytes) → env.write p ≢ none

module _ (env : Env) (pdu : PduReader) (w : WritesSome env) (accepts : Accepts env) where
  whole :
      (before buf : Bytes) (r : Bytes × Option ℤ)
      → Sends env before buf r
      → r.0 ≡ before ++ (buf ++ codes "\r")
  whole before buf r (all_of c e) = ap (λ x. x.0) e
  whole before buf r (no_return f e) = absurd (accepts (codes "\r") f)
  whole before buf r (part_of part rest s f e) = absurd (accepts rest f)

  -- What a command leaves in front of the rest of a run.
  write_first-sent :
      (queue : List AtCommand) (d : Device)
      → (write_first env queue d).sent ≡ d.sent ++ wire (lines (first_of queue))
  unfolding write_first
  write_first-sent [] d = sym (append-nil d.sent)
  write_first-sent (c ∷ waiting) d =
      whole d.sent c.command _ (at_write_full-Sends env w c.command d)
      ∙ ap (λ s. d.sent ++ s) (sym (append-nil (c.command ++ codes "\r")))

  write_if_idle-sent :
      (last : Option AtCommand) (d : Device)
      → (write_if_idle env last d).sent ≡ d.sent ++ wire (lines (idle_first last d.command_queue))
  unfolding write_if_idle
  write_if_idle-sent none d = write_first-sent d.command_queue d
  write_if_idle-sent (some last) d = sym (append-nil d.sent)

  read-sent :
      (last : ℤ) (input : Bytes) (d : Device)
      → (handle_rd_data env pdu last input d).device.sent
        ≡ d.sent ++ wire (chunks_in env pdu (readable input last) d)
  read-sent last input d =
      let (more, e) = handle_rd_data-Grows env pdu last input d in
      let new = ap (drop (length d.sent)) e ∙ drop-append d.sent more in
      e ∙ ap (λ s. d.sent ++ s) (sym (append-nil _ ∙ new))

  disconnect-sent : (d : Device) → (disconnect d).sent ≡ d.sent
  unfolding disconnect hangup
  disconnect-sent d = ground arith

  nothing : (d : Device) → d.sent ≡ d.sent ++ []
  nothing d = sym (append-nil d.sent)

  either :
      (b : Bool) (r s : Round) (sent : Bytes)
      → (device_of r).sent ≡ sent
      → (device_of s).sent ≡ sent
      → (device_of (if b then r else s)).sent ≡ sent
  either true r s sent h k = h
  either false r s sent h k = k

  dropped : (d : Device) → (disconnect d).sent ≡ d.sent ++ []
  dropped d = disconnect-sent d ∙ nothing d

  round-sent :
      (e : Event) (d : Device)
      → (device_of (round env pdu e d)).sent ≡ d.sent ++ wire (chunks_in env pdu e d)
  unfolding round
  round-sent writable d = unfold write_command in write_if_idle-sent d.lastcmd d
  round-sent (readable input last) d =
      let read = handle_rd_data env pdu last input d in
      either (eq_ℤ read.ret (pos 0)) (continues read.device) (ends (disconnect read.device)) _
        (read-sent last input d) (disconnect-sent read.device ∙ read-sent last input d)
  round-sent (poll_failed true) d = nothing d
  round-sent (poll_failed false) d = dropped d
  round-sent timed_out d =
      either d.initialized (continues d) (ends (disconnect d)) _ (nothing d) (dropped d)
  round-sent tty_lost d = dropped d
  round-sent exception d = dropped d

  abbrev loop_on : List Event → Round → Round
  loop_on es (continues d) = loop env pdu es d
  loop_on es (ends d) = ends d

  rounds-sent :
      (e : Event) (es : List Event) (d : Device) (r : Round)
      → (device_of r).sent ≡ d.sent ++ wire (chunks_in env pdu e d)
      → ((d' : Device)
          → (device_of (loop env pdu es d')).sent ≡ d'.sent ++ wire (transcript env pdu es d'))
      → (device_of (loop_on es r)).sent
        ≡ d.sent ++ wire (chunks_in env pdu e d ++ gather_rest (transcript env pdu es) r)
  rounds-sent e es d (continues d') h ih =
      let rest = transcript env pdu es d' in
      ih d'
      ∙ ap (λ s. s ++ wire rest) h
      ∙ append_assoc d.sent (wire (chunks_in env pdu e d)) (wire rest)
      ∙ ap (λ s. d.sent ++ s) (sym (wire-append (chunks_in env pdu e d) rest))
  rounds-sent e es d (ends d') h ih =
      h ∙ ap (λ cs. d.sent ++ wire cs) (sym (append-nil (chunks_in env pdu e d)))

  while_running :
      (b : Bool) (d : Device) (cs : List Chunk) (r : Round)
      → (device_of r).sent ≡ d.sent ++ wire cs
      → (device_of (if b then r else ends d)).sent ≡ d.sent ++ wire (if b then cs else [])
  while_running true d cs r h = h
  while_running false d cs r h = nothing d

  -- What a run sends to a tty that takes what it is given, in parts or whole: its chunks.
  loop-sent :
      (es : List Event) (d : Device)
      → (device_of (loop env pdu es d)).sent ≡ d.sent ++ wire (transcript env pdu es d)
  unfolding loop gathered
  loop-sent [] d = nothing d
  loop-sent (e ∷ es) d =
      while_running d.running d _ (loop_on es (round env pdu e d))
        (rounds-sent e es d (round env pdu e d) (round-sent e d) (loop-sent es))

  -- On a tty whose writes do not fail and take some of what they are given: the bytes that a run
  -- sends to it are those of its chunks, in their order, each command once with a carriage return
  -- behind it. While the thread goes on, the commands among the chunks, with those that wait behind
  -- them, are those that waited at the start, with those that the lines of the modem queued behind
  -- them.
  pub loop_sends_in_order :
      (es : List Event) (d d' : Device)
      → loop env pdu es d ≡ continues d'
      → (d'.sent ≡ d.sent ++ wire (transcript env pdu es d))
        × (commands_of (transcript env pdu es d) ++ d'.command_queue
            ≡ d.command_queue ++ queued_commands env pdu es d)
  loop_sends_in_order es d d' e = (
    ap (λ r. (device_of r).sent) (sym e) ∙ loop-sent es d,
    ap (λ cs. cs ++ d'.command_queue) (commands_of-transcript env pdu es d)
        ∙ Run-in_order (rw e at (loop_refines env pdu es d)),
  )
