-- ===== src/Pdu/Tests.antt =====
-- Runs on octets.
use yate_datacard.CharConv.{hex_dump}
use yate_datacard.Device.{on_receive_sms}
use yate_datacard.Libc.Dec.{dec}
use yate_datacard.Libc.Hex.{hex02, hex_digit, is_xdigit}
use yate_datacard.Libc.Scan.{is_digit}
use yate_datacard.Pdu.Address.{parse_address}
use yate_datacard.Pdu.Deliver.{deliver_pdu, delivered, text_data}
use yate_datacard.Pdu.DeliverRead.{parse-deliver_pdu}
use yate_datacard.Pdu.Generate.{generate, swapped_number, ucs2_message}
use yate_datacard.Pdu.Octet.{octet2bin_check, swapchars}
use yate_datacard.Pdu.Parse.{parse, pdu_reader, report_text}
use yate_datacard.Pdu.Received.{at_response_pdu-deliver_pdu}
use yate_datacard.Pdu.Report.{parse-report_pdu, report_pdu, reported, stamp_text}
use yate_datacard.Pdu.Stamp.{parse_stamp}
use yate_datacard.Pdu.State.{parsed, ◌>>=◌}
use yate_datacard.Pdu.Status.{explain_status}
use yate_datacard.Pdu.Submit.{generate-submit_pdu, submit_pdu}
use yate_datacard.Pdu.Text.{
  pdu2text, put_bits, put_text, set_bit, text2pdu, text_hex, tmp_octets, udh_digits, udh_size,
}
use yate_datacard.Pdu.TextRoundtrip.{text_roundtrip}
use yate_datacard.Pdu.Udh.{explain_udh, explained_type}
use yate_datacard.Pdu.UdhEnds.{explain_udh_lem}
use yate_datacard.Prelude.{
  [], arith, codes, false, length, negsuc, none, pos, refl, some, true, ◌+◌, ◌<◌, ◌∷◌, ◌≡◌, ◌≢◌,
}
use yate_datacard.Response.Sms.{at_response_pdu}
use yate_datacard.Samples.{iconv, stamp, stamp-ValidStamp, up_device, widened}

text_roundtrip_example :
    pdu2text false (codes "02C834")
    ≡ record { ret = pos 2; errorpos = none; bytes = codes "Hi"; udh = []; udh_type = [] }
unfolding text2pdu udh_size udh_digits text_hex hex02 hex_digit tmp_octets put_text put_bits set_bit
    hex_dump
text_roundtrip_example =
    text_roundtrip (codes "Hi") [] (omega arith, (omega arith, tt)) (omega arith)

explain_udh_lem_example :
    (explain_udh (codes "000306") ≢ none)
    × length (explained_type (explain_udh (codes "000306"))) < 512
explain_udh_lem_example = explain_udh_lem (codes "000306")

parse-deliver_pdu_example :
    parse iconv (deliver_pdu (codes "12345") stamp (codes "Hi"))
    ≡ parsed tt (delivered (codes "12345") stamp (text_data (codes "Hi")) (codes "Hi") (negsuc 0))
unfolding is_digit
parse-deliver_pdu_example =
    parse-deliver_pdu iconv (codes "12345") stamp (codes "Hi") refl (omega arith) (omega arith)
      stamp-ValidStamp (omega arith, (omega arith, tt)) (omega arith)

parse-report_pdu_example :
    parse iconv (report_pdu 7 (codes "12345") stamp stamp 97)
    ≡ parsed tt (record (reported 7 (codes "12345") stamp stamp 97) { is_statusreport = true })
unfolding is_digit
parse-report_pdu_example =
    parse-report_pdu iconv 7 (codes "12345") stamp stamp 97 (omega arith) refl (omega arith)
      (omega arith) stamp-ValidStamp stamp-ValidStamp (omega arith)

-- What such a report says.
report_says :
    report_text (stamp_text stamp) 7 97
    ≡ codes "Discharge timestamp: 11-04-09 22:30:59\nMessage ID: 7\nStatus: Error, SME busy"
unfolding report_text explain_status dec
report_says = refl

at_response_pdu-deliver_pdu_example :
    at_response_pdu
      (pdu_reader iconv)
      (deliver_pdu (codes "12345") stamp (codes "Hi"))
      (record up_device { incoming_pdu = true })
    ≡ (record up_device { calls = on_receive_sms (codes "12345") [] (codes "Hi") ∷ [] }, pos 0)
unfolding is_digit
at_response_pdu-deliver_pdu_example =
    at_response_pdu-deliver_pdu iconv (codes "12345") stamp (codes "Hi")
      (record up_device { incoming_pdu = true }) refl (omega arith) (omega arith) stamp-ValidStamp
      ((omega arith, omega arith), ((omega arith, omega arith), tt)) (omega arith) refl

generate-submit_pdu_example :
    (generate iconv (ucs2_message (codes "12345") (codes "Hi"))
      ≡ some (15, codes "00110005912143F50008AA0400480069"))
    × (2 + length (submit_pdu (codes "12345") (widened (codes "Hi"))) ≡ 32)
unfolding hex02 hex_digit hex_dump submit_pdu swapped_number swapchars
generate-submit_pdu_example =
    generate-submit_pdu iconv (codes "12345") (codes "Hi") (widened (codes "Hi")) refl refl
      (omega arith) (omega arith)

-- A PDU as a modem gives it.
received_hello :
    (pdu_reader iconv).parse
      (codes "07917283010010F5040BC87238880900F10000993092516195800AE8329BFD4697D9EC37")
    ≡ some (codes "27838890001", [], codes "hellohello")
unfolding pdu_reader parse ◌>>=◌ octet2bin_check is_xdigit swapchars parse_address parse_stamp
    pdu2text
received_hello = refl
