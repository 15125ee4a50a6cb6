-- ===== src/Reader/Sent.antt =====
-- What reading sends.
use yate_datacard.Device.{Device}
use yate_datacard.Env.{Env}
use yate_datacard.Prelude.{Bytes, [], ap, append-nil, append_assoc, sym, ℤ, ◌++◌, ◌∙◌, ◌≡◌}
use yate_datacard.Reader.{handle_rd_data}
use yate_datacard.Reader.Kept.{handle_rd_data_keeps}
use yate_datacard.Response.Dispatch.{at_response}
use yate_datacard.Response.Sent.{Grows, at_response-Grows}
use yate_datacard.Response.Sms.{PduReader}

-- What was sent at first is in front of all that a device sent.
abbrev pub Behind : Bytes → Device → Type 0
Behind first d = (more : Bytes) × (d.sent ≡ first ++ more)

Behind-grown : (first : Bytes) (d d' : Device) → Grows d d' → Behind first d → Behind first d'
Behind-grown first d d' (new, grown) (more, e) =
    (more ++ new, grown ∙ ap (λ s. s ++ new) e ∙ append_assoc first more new)

-- What reading sends goes behind all that was sent.
pub handle_rd_data-Grows :
    (env : Env) (pdu : PduReader) (last : ℤ) (input : Bytes) (d : Device)
    → Grows d (handle_rd_data env pdu last input d).device
handle_rd_data-Grows env pdu last input d =
    handle_rd_data_keeps env pdu last (Behind d.sent) (λ s text e h. h)
      (λ str r e h.
        Behind-grown d.sent e (at_response env pdu str r e).0 (at_response-Grows env pdu str r e) h)
      input d ([], sym (append-nil d.sent))
