-- ===== src/Pdu/Received.antt =====
-- A received message, from the line of the modem to the endpoint.
use yate_datacard.CharConv.SevenBit.{IsText, not_zero, text_septets}
use yate_datacard.Device.{Device, on_receive_sms}
use yate_datacard.Pdu.Address.{all_digits}
use yate_datacard.Pdu.Deliver.{deliver_pdu}
use yate_datacard.Pdu.DeliverRead.{parse-deliver_pdu}
use yate_datacard.Pdu.Parse.{Iconv, pdu_reader, received}
use yate_datacard.Pdu.StampRead.{Stamp, ValidStamp}
use yate_datacard.Prelude.{
  Bytes, [], ap, c_str, false, length, pos, refl, some, true, ◌%◌, ◌++◌, ◌+◌, ◌<◌, ◌∙◌, ◌∷◌, ◌≡◌,
  ◌≤◌,
}
use yate_datacard.Response.Sms.{PduReader, at_response_pdu}

no_nul : (text : Bytes) → IsText text → c_str text ≡ text
no_nul [] h = refl
no_nul (c ∷ cs) (l, h) = rw (not_zero c l.0, no_nul cs h) refl

told :
    (pdu : PduReader) (str number udh message : Bytes) (d : Device)
    → d.incoming_pdu ≡ true
    → pdu.parse str ≡ some (number, udh, message)
    → at_response_pdu pdu str d ≡ (
      record d { incoming_pdu = false; calls = d.calls ++ on_receive_sms number udh message ∷ [] },
      pos 0,
    )
unfolding at_response_pdu
told pdu str number udh message d waits e = rw (waits, e) refl

-- The line behind +CMGR with a message of the SMS-DELIVER form, the number, time stamp and text as
-- in `parse-deliver_pdu`, the text without NULs: the endpoint is told of it once, with the number
-- and the text as they were sent and no data header, the device waits for no further line of it,
-- and the result is 0.
pub at_response_pdu-deliver_pdu :
    (iconv : Iconv) (digits : Bytes) (t : Stamp) (text : Bytes) (d : Device)
    → all_digits digits ≡ true
    → 0 < length digits
    → length digits + length digits % 2 < 64
    → ValidStamp t
    → IsText text
    → length text ≤ 160
    → d.incoming_pdu ≡ true
    → at_response_pdu (pdu_reader iconv) (deliver_pdu digits t text) d ≡ (
      record d { incoming_pdu = false; calls = d.calls ++ on_receive_sms digits [] text ∷ [] },
      pos 0,
    )
unfolding pdu_reader received
at_response_pdu-deliver_pdu iconv digits t text d h any l v text_ok fits waits =
    told (pdu_reader iconv) (deliver_pdu digits t text) digits [] text d waits (
      ap received (parse-deliver_pdu iconv digits t text h any l v (text_septets text text_ok) fits)
      ∙ ap (λ m. some (digits, [], m)) (no_nul text text_ok))
