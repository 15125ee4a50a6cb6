-- ===== src/Loop/Protocol.antt =====
-- The protocol of the commands between the driver and a modem, without the driver: commands wait
-- in a queue, the first of them is out when it was written, and the next one goes out when that one
-- was answered.
use yate_datacard.At.{AtCommand}
use yate_datacard.Prelude.{
  List, Option, [], ap, append-nil, append_assoc, none, some, sym, ◌++◌, ◌∙◌, ◌∷◌, ◌≡◌,
}

-- What waits, and what was written and is not answered.
pub record Protocol : Type 0 where
  pub waiting : List AtCommand
  pub out : Option AtCommand

abbrev pub protocol_of : List AtCommand → Option AtCommand → Protocol
protocol_of queue last = record { waiting = queue; out = last }

-- The runs of the protocol, with the commands that they write and those that they queue.
pub data Run : Protocol → List AtCommand → List AtCommand → Protocol → Type 0 where
  stays : {p : Protocol} → Run p [] [] p
  writes :
      {c : AtCommand} {queue sent added : List AtCommand} {p : Protocol}
      → Run (protocol_of queue (some c)) sent added p
      → Run (protocol_of (c ∷ queue) none) (c ∷ sent) added p
  hears :
      (new : List AtCommand) {queue sent added : List AtCommand} {last : Option AtCommand}
      {p : Protocol}
      → Run (protocol_of (queue ++ new) last) sent added p
      → Run (protocol_of queue last) sent (new ++ added) p
  answered :
      (new : List AtCommand) {queue sent added : List AtCommand} {last : Option AtCommand}
      {p : Protocol}
      → Run (protocol_of (queue ++ new) none) sent added p
      → Run (protocol_of queue last) sent (new ++ added) p

-- Commands are written in the order in which they were queued, and none is lost.
pub Run-in_order :
    {from to : Protocol} {sent added : List AtCommand}
    → Run from sent added to
    → sent ++ to.waiting ≡ from.waiting ++ added
Run-in_order {from} stays = sym (append-nil from.waiting)
Run-in_order (writes {c} r) = ap (λ cs. c ∷ cs) (Run-in_order r)
Run-in_order (hears new {queue} {sent} {added} r) = Run-in_order r ∙ append_assoc queue new added
Run-in_order (answered new {queue} {sent} {added} r) = Run-in_order r ∙ append_assoc queue new added
