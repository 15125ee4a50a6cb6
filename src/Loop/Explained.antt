-- ===== src/Loop/Explained.antt =====
-- The reasons that the owner of a call is told in a run of the monitor thread.
use yate_datacard.Device.{Device, on_hangup}
use yate_datacard.Device.Calls.{datacard_failure, hangup}
use yate_datacard.Device.Connect.{disconnect}
use yate_datacard.Env.{Env}
use yate_datacard.Loop.{Event, loop}
use yate_datacard.Loop.Kept.{Kept, device_of, loop_keeps}
use yate_datacard.Prelude.{List, arith, refl, true, ◌∙◌, ◌≡◌}
use yate_datacard.Response.Explained.{at_response-explained, explained, explained_snoc}
use yate_datacard.Response.Sms.{PduReader}

disconnect-explained : (d : Device) → explained (disconnect d) ≡ explained d
unfolding disconnect explained hangup
disconnect-explained d = ground (arith, explained_snoc d.calls (on_hangup datacard_failure) refl)

-- Known reasons stay known.
explained_Kept : (env : Env) (pdu : PduReader) → Kept env pdu (λ d. explained d ≡ true)
unfolding explained
explained_Kept env pdu = record {
  buffered = λ s text d h. h;
  answers_line = λ str r d h. unfold explained in at_response-explained env pdu str r d ∙ h;
  wrote = λ out queue last d h. h;
  disconnected = λ d h. disconnect-explained d ∙ h;
}

pub loop-explained :
    (env : Env) (pdu : PduReader) (es : List Event) (d : Device)
    → explained d ≡ true
    → explained (device_of (loop env pdu es d)) ≡ true
loop-explained env pdu es d h =
    loop_keeps env pdu (λ d'. explained d' ≡ true) (explained_Kept env pdu) es d h
