-- ===== src/Loop/Ttys.antt =====
-- The ttys of a device over a round of its monitor thread.
use yate_datacard.Device.{Device}
use yate_datacard.Device.Connect.{disconnect}
use yate_datacard.Env.{Env}
use yate_datacard.Loop.{Event, round}
use yate_datacard.Loop.Kept.{Kept, device_of, round_keeps}
use yate_datacard.Prelude.{Bool-cases, false, inl, inr, refl, ◌∙◌, ◌≡◌}
use yate_datacard.Response.Sms.{PduReader}
use yate_datacard.Response.Ttys.{at_response-half_open, half_open}

pub disconnect-half_open : (d : Device) → half_open d ≡ false → half_open (disconnect d) ≡ false
unfolding disconnect half_open
disconnect-half_open d h = elim (Bool-cases d.connected) [ inl e ↦ rw e refl | inr e ↦ rw e refl ]

half_open_Kept : (env : Env) (pdu : PduReader) → Kept env pdu (λ d. half_open d ≡ false)
unfolding half_open
half_open_Kept env pdu = record {
  buffered = λ s text d h. h;
  answers_line = λ str r d h. unfold half_open in at_response-half_open env pdu str r d ∙ h;
  wrote = λ out queue last d h. h;
  disconnected = disconnect-half_open;
}

-- A round leaves no device connected with a closed tty that was not.
pub round-half_open :
    (env : Env) (pdu : PduReader) (e : Event) (d : Device)
    → half_open d ≡ false
    → half_open (device_of (round env pdu e d)) ≡ false
round-half_open env pdu e d h =
    round_keeps env pdu (λ d'. half_open d' ≡ false) (half_open_Kept env pdu) e d h
