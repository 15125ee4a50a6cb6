-- ===== src/Pdu/Parse.antt =====
-- `PDU::parse`, `parseDeliver` and `parseStatusReport` (pdu.cpp).
use Prim.Native.Nat.{bit_and}
use yate_datacard.Libc.Dec.{dec}
use yate_datacard.Pdu.Address.{parse_address, parse_smsc}
use yate_datacard.Pdu.Binary.{pdu2binary}
use yate_datacard.Pdu.Octet.{octet2bin_check}
use yate_datacard.Pdu.Stamp.{parse_discharge, parse_stamp}
use yate_datacard.Pdu.State.{
  Action, Outcome, Parser, gets, modify, octet, overrun, parsed, refuse, refuse_if, refused,
  reset_parser, skip, too_short, warn_if, ◌>>=◌, ◌>>◌,
}
use yate_datacard.Pdu.Status.{explain_status}
use yate_datacard.Pdu.Text.{pdu2text}
use yate_datacard.Prelude.{
  Bool, Bytes, Option, [], c_str, codes, eq_ℤ, if◌then◌else◌, is_neg, length, ltb, negsuc, none,
  not, pos, some, starts_with, suc, true, zero, ℕ, ℤ, ◌&&◌, ◌++◌, ◌/◌, ◌==◌, ◌||◌, ◌∷◌,
}
use yate_datacard.Response.Sms.{PduReader}

-- `PDU::convert` on the message: iconv is none where `iconv_open` fails, and else what it has
-- written, all of the message or a part of it.
pub record Iconv : Type 0 where
  pub convert : Bytes → Bytes → Bytes → Option Bytes

converted : Option Bytes → Parser → Parser
converted none p = p
converted (some out) p = record p { message = out }

-- Bits 2 and 3 of the data encoding scheme; 3 was refused.
abbrev pub alphabet_of : ℕ → ℤ
alphabet_of n = if n == 0 then negsuc 0 else pos n

-- The protocol identifier and the data encoding scheme.
unfoldable pub scheme_part : Action (Unit {0})
scheme_part = do
  pid ← octet (codes "Invalid protocol identifier")
  modify (λ p. if bit_and pid 0xF8 == 0x40 then record p { replace = bit_and pid 7 } else p)
  skip 2
  scheme ← octet (codes "Invalid data encoding scheme")
  let bits = bit_and scheme 0x0C / 4
  refuse_if (bits == 3) (codes "Invalid alphabet in data encoding scheme: value 3 is not supported")
  modify (λ p. record p {
    alphabet = alphabet_of bits;
    flash = (bit_and scheme 0x10 == 0x10 && not (bit_and scheme 1 == 1)) || p.flash;
  })
  skip 2

data_error : ℤ → Bytes
data_error alphabet =
    if eq_ℤ alphabet (negsuc 0)
    then codes "Error while reading TP-UD (GSM text)"
    else codes "Error while reading TP-UD: "
      ++ (if eq_ℤ alphabet (pos 1) then codes "binary" else codes "UCS2 text")

-- The user data by the alphabet, a data header in front where the first octet says so.
unfoldable pub data_part : Action (Unit {0})
unfolding data_error
data_part = do
  alphabet ← gets (λ p. p.alphabet)
  read ← gets (λ p.
      if eq_ℤ p.alphabet (negsuc 0)
      then pdu2text p.with_udh p.pdu_ptr
      else pdu2binary p.with_udh p.pdu_ptr)
  refuse_if (is_neg read.ret) (data_error alphabet)
  modify (λ p. record p { message = read.bytes; udh_type = read.udh_type; udh_data = read.udh })

unfoldable pub sender_part : ℕ → Action (Unit {0})
sender_part size p =
    if size == 0
    then skip 4 p
    else parse_address size (codes "Invalid sender address type")
        (codes "Missing bit 7 in sender address type") p

abbrev pub address_size : Bytes → Parser → Outcome ℕ
address_size e p = elim (octet2bin_check p.pdu_ptr) [
  | pos n ↦ if ltb 64 n then refused e else parsed n p
  | negsuc n ↦ refused e
]

unfoldable pub parse_deliver : Action (Unit {0})
unfolding scheme_part data_part sender_part
parse_deliver = do
  too_short 4 (codes "Reading address length and address type: PDU is too short")
  size ← address_size (codes "Invalid sender address length")
  sender_part size
  too_short 20 (codes "Reading TP-PID, TP-DSC, TP-SCTS and TP-UDL: PDU is too short")
  scheme_part
  parse_stamp (codes "Service Centre Time Stamp") (codes "Service Centre Time Stamp")
      (codes "Invalid values(s)") (codes ".\n")
  data_part

unfoldable pub report_text : Bytes → ℕ → ℕ → Bytes
report_text discharge messageid status =
    codes "Discharge timestamp: "
    ++ (discharge
        ++ (codes "\nMessage ID: "
            ++ (dec messageid ++ (codes "\nStatus: " ++ explain_status status))))

unfoldable pub parse_status_report : Action (Unit {0})
unfolding report_text
parse_status_report = do
  too_short 6 (codes "Reading message id, address length and address type: PDU is too short")
  messageid ← octet (codes "Invalid message id")
  skip 2
  size ← address_size (codes "Invalid recipient address length")
  refuse_if (size == 0) (codes "Invalid recipient address length")
  parse_address size (codes "Invalid recipient address type")
      (codes "Missing bit 7 in recipient address type")
  too_short 14 (codes "While trying to read SMSC Timestamp: PDU is too short")
  parse_stamp (codes "SMSC Timestamp") (codes "SMSC Time Stamp") (codes "Invalid value(s)")
      (codes ".")
  too_short 14 (codes "While trying to read Discharge Timestamp: PDU is too short")
  discharge ← parse_discharge
  too_short 2 (codes "While trying to read Status octet: PDU is too short")
  status ← octet (codes "Invalid Status octet")
  modify (λ p. record p { message = report_text discharge messageid status })

unfoldable pub convert_message : Iconv → Parser → Parser
unfolding converted
convert_message iconv p =
    if eq_ℤ p.alphabet (pos 2)
    then converted (iconv.convert (codes "UTF8") (codes "UTF16BE") p.message) p
    else p

-- The two lowest bits of the first octet.
unfoldable pub by_type : Iconv → ℕ → Action (Unit {0})
unfolding parse_deliver parse_status_report convert_message
by_type iconv type =
    if type == 0
    then skip 2 >> (parse_deliver >> modify (convert_message iconv))
    else if type == 2
    then skip 2 >> (parse_status_report >> modify (λ p. record p { is_statusreport = true }))
    else if type == 1
    then refuse (codes "This is a sent message. Can only decode received messages.")
    else refuse (codes "Unsupported type")

unfoldable pub parse_fields : Iconv → Action (Unit {0})
unfolding by_type parse_smsc
parse_fields iconv = do
  too_short 2 (codes "PDU is too short")
  parse_smsc
  too_short 2 (codes "Reading First octet of the SMS-DELIVER PDU: PDU is too short")
  first ← octet (codes "Reading First octet of the SMS-DELIVER PDU: Invalid character(s)")
  warn_if (not (bit_and first 0x18 == 0))
      (codes "Warning: Unused bits 3 and 4 are used in the first octet of the SMS-DELIVER PDU.\n")
  modify
      (λ p. record p { with_udh = bit_and first 0x40 == 0x40; report = bit_and first 0x20 == 0x20 })
  by_type iconv (bit_and first 3)

-- The report of a Wavecom modem: cut, and filled up with zeros to 52 characters in the memory of
-- the text itself.
zeros : ℕ → Bytes
zeros zero = []
zeros (suc n) = b'0' ∷ zeros n

abbrev is_wavecom : Bytes → Bool
is_wavecom pdu = starts_with (codes "000000FF00") pdu

unfoldable pub parse : Iconv → Bytes → Outcome (Unit {0})
unfolding parse_fields zeros
parse iconv pdu =
    if not (is_wavecom pdu)
    then parse_fields iconv (reset_parser pdu)
    else if ltb (length pdu) 52
    then overrun
    else parse_fields iconv (reset_parser (codes "000000FF" ++ zeros 44))

-- What the handlers of at_response.cpp take of it. Behind an overrun nothing is known; the model
-- goes on as if it had been refused.
unfoldable pub received : Outcome (Unit {0}) → Option (Bytes × Bytes × Bytes)
received (parsed u p) = some (p.number, p.udh_data, c_str p.message)
received (refused e) = none
received overrun = none

unfoldable pub pdu_reader : Iconv → PduReader
unfolding received parse
pdu_reader iconv = record { parse = λ pdu. received (parse iconv pdu) }
