-- ===== src/Pdu/DeliverRead.antt =====
-- A received message from its first octet to the callback's arguments.
use Prim.Native.Nat.{bit_and}
use yate_datacard.Libc.Hex.{hex02, hex_digit}
use yate_datacard.Pdu.Address.{all_digits, parse_smsc}
use yate_datacard.Pdu.AddressRead.{address_pdu}
use yate_datacard.Pdu.Deliver.{
  behind_address, deliver_pdu, deliver_ucs2, delivered, octet_data, parse_deliver-octets,
  parse_deliver-text, text_data,
}
use yate_datacard.Pdu.Parse.{Iconv, by_type, convert_message, parse, parse_deliver, parse_fields}
use yate_datacard.Pdu.StampRead.{Stamp, ValidStamp}
use yate_datacard.Pdu.State.{Outcome, Parser, parsed, reset_parser}
use yate_datacard.Pdu.Steps.{
  in_front, octet_front, skip_octet, then_step, too_short_not, warn_if_not,
}
use yate_datacard.Prelude.{
  All, Bytes, [], ap, arith, codes, false, length, negsuc, not, pos, refl, some, true, ℕ, ◌%◌, ◌++◌,
  ◌+◌, ◌<◌, ◌==◌, ◌∙◌, ◌≡◌, ◌≤◌,
}

parse_smsc_none :
    (rest : Bytes) (p : Parser)
    → parse_smsc (in_front p (hex02 0 ++ rest)) ≡ parsed tt (in_front p rest)
unfolding parse_smsc
parse_smsc_none rest p =
    then_step _ _ _ (octet_front _ 0 rest p (omega arith)) (skip_octet 0 rest p)

by_type_deliver :
    (iconv : Iconv) (rest : Bytes) (q : Parser)
    → parse_deliver (reset_parser rest) ≡ parsed tt q
    → by_type iconv 0 (reset_parser (hex02 4 ++ rest)) ≡ parsed tt (convert_message iconv q)
unfolding by_type
by_type_deliver iconv rest q e =
    then_step _ _ _ (skip_octet 4 rest (reset_parser [])) (then_step _ _ _ e refl)

pub two_of : (c : ℕ) (rest : Bytes) → 2 ≤ length (hex02 c ++ rest)
unfolding hex02
two_of c rest = omega arith

-- From the service centre to the first octet, of which only the type is set.
pub fields_of :
    (iconv : Iconv) (c : ℕ) (rest : Bytes) (o : Outcome (Unit {0}))
    → c < 256
    → (bit_and c 0x18 == 0) ≡ true
    → (bit_and c 0x40 == 0x40) ≡ false
    → (bit_and c 0x20 == 0x20) ≡ false
    → by_type iconv (bit_and c 3) (reset_parser (hex02 c ++ rest)) ≡ o
    → parse_fields iconv (reset_parser (hex02 0 ++ (hex02 c ++ rest))) ≡ o
unfolding parse_fields
fields_of iconv c rest o l unused udh report e =
    let p = reset_parser [] in
    let here = in_front p (hex02 c ++ rest) in
    then_step _ _ _
      (too_short_not 2 _ (in_front p (hex02 0 ++ (hex02 c ++ rest))) (two_of 0 (hex02 c ++ rest)))
      (then_step _ _ _ (parse_smsc_none (hex02 c ++ rest) p) (
        then_step _ _ _ (too_short_not 2 _ here (two_of c rest)) (
          then_step _ _ _ (octet_front _ c rest p l) (
            then_step _ _ _ (warn_if_not _ _ here (ap not unused)) (
              then_step _ _ _ {q = here}
                (λ i. parsed tt (record here { with_udh = udh i; report = report i })) e)))))

-- A received message from a number of 1 to 62 digits, with a valid time stamp and up to 160
-- characters of 7 bits, is parsed without a warning: the number, the time stamp and the text are
-- those that were written.
pub parse-deliver_pdu :
    (iconv : Iconv) (digits : Bytes) (t : Stamp) (text : Bytes)
    → all_digits digits ≡ true
    → 0 < length digits
    → length digits + length digits % 2 < 64
    → ValidStamp t
    → All (λ c. c < 128) text
    → length text ≤ 160
    → parse iconv (deliver_pdu digits t text)
      ≡ parsed tt (delivered digits t (text_data text) text (negsuc 0))
unfolding parse hex02 hex_digit convert_message
parse-deliver_pdu iconv digits t text h any l v septets fits =
    let rest = address_pdu digits (behind_address t 0 (text_data text)) in
    fields_of iconv 4 rest _ (omega arith) refl refl refl (
      by_type_deliver iconv rest (delivered digits t (text_data text) text (negsuc 0))
        (parse_deliver-text digits t text h any l v septets fits))

ucs2_converted :
    (iconv : Iconv) (digits : Bytes) (t : Stamp) (octets text : Bytes)
    → iconv.convert (codes "UTF8") (codes "UTF16BE") octets ≡ some text
    → convert_message iconv (delivered digits t (octet_data octets) octets (pos 2))
      ≡ delivered digits t (octet_data octets) text (pos 2)
unfolding convert_message
ucs2_converted iconv digits t octets text e = rw e refl

-- A received message in UCS-2 from a number of 1 to 62 digits, with a valid time stamp and up to
-- 140 octets that iconv gives as a text, is parsed without a warning: the number and the time stamp
-- are those that were written, and the message is the text.
pub parse-deliver_ucs2 :
    (iconv : Iconv) (digits : Bytes) (t : Stamp) (octets text : Bytes)
    → all_digits digits ≡ true
    → 0 < length digits
    → length digits + length digits % 2 < 64
    → ValidStamp t
    → All (λ c. c < 256) octets
    → length octets ≤ 140
    → iconv.convert (codes "UTF8") (codes "UTF16BE") octets ≡ some text
    → parse iconv (deliver_ucs2 digits t octets)
      ≡ parsed tt (delivered digits t (octet_data octets) text (pos 2))
unfolding parse hex02 hex_digit
parse-deliver_ucs2 iconv digits t octets text h any l v bytes fits e =
    let rest = address_pdu digits (behind_address t 8 (octet_data octets)) in
    fields_of iconv 4 rest _ (omega arith) refl refl refl (
      by_type_deliver iconv rest (delivered digits t (octet_data octets) octets (pos 2))
        (parse_deliver-octets digits t octets h any l v bytes fits))
    ∙ ap (parsed tt) (ucs2_converted iconv digits t octets text e)
