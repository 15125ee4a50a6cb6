-- ===== src/Loop/Chunks.antt =====
-- What the rounds of the monitor thread send, as chunks.
use yate_datacard.At.{AtCommand}
use yate_datacard.Device.{Device}
use yate_datacard.Env.{Env}
use yate_datacard.Loop.{
  Event, Round, continues, ends, exception, poll_failed, readable, round, timed_out, tty_lost,
  writable,
}
use yate_datacard.Loop.Order.{gather_rest, gathered, written_commands, written_in}
use yate_datacard.Prelude.{
  Bool, Bytes, List, [], ap, append_assoc, codes, drop, false, if◌then◌else◌, length, refl, sym,
  true, ◌++◌, ◌∙◌, ◌∷◌, ◌≡◌,
}
use yate_datacard.Reader.{handle_rd_data}
use yate_datacard.Response.Sms.{PduReader}

-- What a round sends: a command, or what the reader sends at the prompts for texts.
pub data Chunk : Type 0 where
  line : AtCommand → Chunk
  prompted : Bytes → Chunk

-- The bytes of the chunks: a command has a carriage return behind it.
abbrev pub wire : List Chunk → Bytes
wire [] = []
wire (line c ∷ more) = (c.command ++ codes "\r") ++ wire more
wire (prompted bytes ∷ more) = bytes ++ wire more

abbrev pub commands_of : List Chunk → List AtCommand
commands_of [] = []
commands_of (line c ∷ more) = c ∷ commands_of more
commands_of (prompted bytes ∷ more) = commands_of more

abbrev pub lines : List AtCommand → List Chunk
lines [] = []
lines (c ∷ cs) = line c ∷ lines cs

-- The chunks of a round; those of the reader are what stands behind all that was sent before.
abbrev pub chunks_in : Env → PduReader → Event → Device → List Chunk
chunks_in env pdu (readable input last) d =
    prompted (drop (length d.sent) (handle_rd_data env pdu last input d).device.sent) ∷ []
chunks_in env pdu e d = lines (written_in e d)

-- The chunks of a run.
abbrev pub transcript : Env → PduReader → List Event → Device → List Chunk
transcript env pdu = gathered (chunks_in env pdu) env pdu

pub wire-append : (cs ds : List Chunk) → wire (cs ++ ds) ≡ wire cs ++ wire ds
wire-append [] ds = refl
wire-append (line c ∷ cs) ds =
    ap (λ s. (c.command ++ codes "\r") ++ s) (wire-append cs ds)
    ∙ sym (append_assoc (c.command ++ codes "\r") (wire cs) (wire ds))
wire-append (prompted bytes ∷ cs) ds =
    ap (λ s. bytes ++ s) (wire-append cs ds) ∙ sym (append_assoc bytes (wire cs) (wire ds))

module _ (env : Env) (pdu : PduReader) where
  -- The commands among the chunks are those of `loop_refines`.
  commands_of-append :
      (cs ds : List Chunk) → commands_of (cs ++ ds) ≡ commands_of cs ++ commands_of ds
  commands_of-append [] ds = refl
  commands_of-append (line c ∷ cs) ds = ap (λ s. c ∷ s) (commands_of-append cs ds)
  commands_of-append (prompted bytes ∷ cs) ds = commands_of-append cs ds

  commands_of-lines : (cs : List AtCommand) → commands_of (lines cs) ≡ cs
  commands_of-lines [] = refl
  commands_of-lines (c ∷ cs) = ap (λ s. c ∷ s) (commands_of-lines cs)

  commands_of-chunks_in :
      (e : Event) (d : Device) → commands_of (chunks_in env pdu e d) ≡ written_in e d
  commands_of-chunks_in writable d = commands_of-lines (written_in writable d)
  commands_of-chunks_in (readable input last) d = refl
  commands_of-chunks_in tty_lost d = refl
  commands_of-chunks_in (poll_failed again) d = refl
  commands_of-chunks_in timed_out d = refl
  commands_of-chunks_in exception d = refl

  commands_of-rest :
      (es : List Event) (r : Round)
      → ((d : Device) → commands_of (transcript env pdu es d) ≡ written_commands env pdu es d)
      → commands_of (gather_rest (transcript env pdu es) r)
        ≡ gather_rest (written_commands env pdu es) r
  commands_of-rest es (continues d) ih = ih d
  commands_of-rest es (ends d) ih = refl

  commands_of-if :
      (b : Bool) (cs : List Chunk) (cmds : List AtCommand)
      → commands_of cs ≡ cmds
      → commands_of (if b then cs else []) ≡ (if b then cmds else [])
  commands_of-if true cs cmds h = h
  commands_of-if false cs cmds h = refl

  pub commands_of-transcript :
      (es : List Event) (d : Device)
      → commands_of (transcript env pdu es d) ≡ written_commands env pdu es d
  unfolding gathered
  commands_of-transcript [] d = refl
  commands_of-transcript (e ∷ es) d =
      let r = round env pdu e d in
      commands_of-if d.running _ _ (
        commands_of-append (chunks_in env pdu e d) (gather_rest (transcript env pdu es) r)
        ∙ ap (λ s. s ++ commands_of (gather_rest (transcript env pdu es) r))
            (commands_of-chunks_in e d)
        ∙ ap (λ s. written_in e d ++ s) (commands_of-rest es r (commands_of-transcript es)))
