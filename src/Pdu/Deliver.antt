-- ===== src/Pdu/Deliver.antt =====
-- `parse` on a received message, written by an encoder of its own.
use Prim.Native.Nat.{bit_and}
use yate_datacard.CharConv.SevenBit.{not_zero}
use yate_datacard.Libc.Hex.{hex02}
use yate_datacard.Pdu.Address.{all_digits}
use yate_datacard.Pdu.AddressRead.{address_pdu, parse_address_lem, with_number}
use yate_datacard.Pdu.Binary.{binary2pdu, pdu2binary}
use yate_datacard.Pdu.Laws.{binary_roundtrip, octet2bin_check-hex02}
use yate_datacard.Pdu.Octet.{UserData}
use yate_datacard.Pdu.Parse.{
  address_size, alphabet_of, data_part, parse_deliver, scheme_part, sender_part,
}
use yate_datacard.Pdu.StampRead.{
  Stamp, ValidStamp, parse_stamp-stamp_pdu, stamp_pdu, stamped, three,
}
use yate_datacard.Pdu.State.{Parser, parsed, refused, reset_parser}
use yate_datacard.Pdu.Steps.{
  in_front, octet_front, refuse_if_not, skip_octet, then_step, too_short_not,
}
use yate_datacard.Pdu.Text.{pdu2text, text2pdu}
use yate_datacard.Pdu.TextRoundtrip.{text_roundtrip}
use yate_datacard.Prelude.{
  All, Bytes, [], ap, arith, eq_ℤ, false, if◌then◌else◌, length, le→ltb, ltb, negsuc, none, not,
  pos, refl, true, ℕ, ℤ, ◌%◌, ◌&&◌, ◌++◌, ◌+◌, ◌/◌, ◌<◌, ◌==◌, ◌||◌, ◌∙◌, ◌≡◌, ◌≤◌,
}

-- The user data: the septets that `text2pdu` packs, or octets, behind their number.
abbrev pub text_data : Bytes → Bytes
text_data text = let packed = text2pdu text none in hex02 packed.0 ++ (packed.1 ++ [])

abbrev pub octet_data : Bytes → Bytes
octet_data octets = hex02 (length octets) ++ (binary2pdu octets ++ [])

abbrev pub behind_address : Stamp → ℕ → Bytes → Bytes
behind_address t scheme user_data = hex02 0 ++ (hex02 scheme ++ stamp_pdu t user_data)

-- No service centre, the type of a received message, the sender, no protocol, the coding, the time
-- stamp and the user data.
abbrev pub deliver_as : Bytes → Stamp → ℕ → Bytes → Bytes
deliver_as digits t scheme user_data =
    hex02 0 ++ (hex02 4 ++ address_pdu digits (behind_address t scheme user_data))

abbrev pub deliver_pdu : Bytes → Stamp → Bytes → Bytes
deliver_pdu digits t text = deliver_as digits t 0 (text_data text)

abbrev pub deliver_ucs2 : Bytes → Stamp → Bytes → Bytes
deliver_ucs2 digits t octets = deliver_as digits t 8 (octet_data octets)

-- The fields behind the parse, with the user data in front of the parser.
abbrev pub delivered : Bytes → Stamp → Bytes → Bytes → ℤ → Parser
delivered digits t user_data text alphabet =
    record (stamped t (with_number (reset_parser user_data) digits)) {
      message = text;
      alphabet = alphabet;
    }

abbrev coded : ℤ → Parser → Parser
coded a p = record p { alphabet = a }

scheme_front :
    (c : ℕ) (a : ℤ) (rest : Bytes) (p : Parser)
    → c < 256
    → (bit_and c 0x0C / 4 == 3) ≡ false
    → (bit_and c 0x10 == 0x10) ≡ false
    → alphabet_of (bit_and c 0x0C / 4) ≡ a
    → scheme_part (in_front p (hex02 0 ++ (hex02 c ++ rest)))
      ≡ parsed tt (in_front (coded a p) rest)
unfolding scheme_part
scheme_front c a rest p l three flash e =
    let here = in_front p (hex02 c ++ rest) in
    then_step _ _ _ (octet_front _ 0 (hex02 c ++ rest) p (omega arith)) (
      then_step _ _ _ {q = in_front p (hex02 0 ++ (hex02 c ++ rest))} refl (
        then_step _ _ _ (skip_octet 0 (hex02 c ++ rest) p) (
          then_step _ _ _ (octet_front _ c rest p l) (
            then_step _ _ _ (refuse_if_not _ _ here three) (
              then_step _ _ _ {q = in_front (coded a p) (hex02 c ++ rest)}
                (λ i. parsed tt (record here {
                  alphabet = e i;
                  flash = (flash i && not (bit_and c 1 == 1)) || p.flash;
                }))
                (skip_octet c rest (coded a p)))))))

abbrev plain_text : Bytes → UserData
plain_text text = record {
  ret = pos (length text);
  errorpos = none;
  bytes = text;
  udh = [];
  udh_type = [];
}

-- What `data_part` reads, by the alphabet.
abbrev user_data_read : Parser → Bytes → UserData
user_data_read p user_data =
    if eq_ℤ p.alphabet (negsuc 0)
    then pdu2text p.with_udh user_data
    else pdu2binary p.with_udh user_data

data_part_lem :
    (text user_data : Bytes) (p : Parser)
    → user_data_read p user_data ≡ plain_text text
    → data_part (in_front p user_data)
      ≡ parsed tt (in_front (record p { message = text; udh_type = []; udh_data = [] }) user_data)
unfolding data_part
data_part_lem text user_data p read =
    let here = in_front p user_data in
    then_step _ _ _ {q = here} {a = p.alphabet} refl (
      then_step _ _ _ {q = here} (ap (λ r. parsed r here) read)
        (then_step _ _ _ {q = here} refl refl))

pub address_size_lem :
    (e : Bytes) (n : ℕ) (rest : Bytes) (p : Parser)
    → n ≤ 64
    → address_size e (in_front p (hex02 n ++ rest)) ≡ parsed n (in_front p (hex02 n ++ rest))
address_size_lem e n rest p l =
    let here = in_front p (hex02 n ++ rest) in
    ap
      (λ z. elim z [ pos m ↦ if ltb 64 m then refused e else parsed m here | negsuc m ↦ refused e ])
      (octet2bin_check-hex02 n rest (omega arith))
    ∙ rw (le→ltb 64 n l) refl

pub length-address_pdu : (digits rest : Bytes) → 4 ≤ length (address_pdu digits rest)
unfolding hex02
length-address_pdu digits rest = omega arith

sender_part_lem :
    (digits rest : Bytes) (p : Parser)
    → all_digits digits ≡ true
    → 0 < length digits
    → length digits + length digits % 2 < 64
    → sender_part (length digits) (in_front p (address_pdu digits rest))
      ≡ parsed tt (in_front (with_number p digits) rest)
unfolding sender_part
sender_part_lem digits rest p h any l =
    rw (not_zero (length digits) any) (parse_address_lem digits rest _ _ p h l)

-- From the address on, by what is read in front of the stamp and behind it.
parse_deliver_lem :
    (digits : Bytes) (t : Stamp) (scheme : ℕ) (a : ℤ) (user_data text : Bytes)
    → all_digits digits ≡ true
    → 0 < length digits
    → length digits + length digits % 2 < 64
    → ValidStamp t
    → 20 ≤ length (behind_address t scheme user_data)
    → ((rest : Bytes) (p : Parser)
        → scheme_part (in_front p (hex02 0 ++ (hex02 scheme ++ rest)))
          ≡ parsed tt (in_front (coded a p) rest))
    → user_data_read (coded a (reset_parser [])) user_data ≡ plain_text text
    → parse_deliver (reset_parser (address_pdu digits (behind_address t scheme user_data)))
      ≡ parsed tt (delivered digits t user_data text a)
unfolding parse_deliver
parse_deliver_lem digits t scheme a user_data text h any l v long coding read =
    let p = reset_parser [] in
    let q = with_number p digits in
    let behind = behind_address t scheme user_data in
    let start = in_front p (address_pdu digits behind) in
    then_step _ _ _ (too_short_not 4 _ start (length-address_pdu digits behind)) (
      then_step _ _ _ (address_size_lem _ (length digits) _ p (omega arith)) (
        then_step _ _ _ (sender_part_lem digits behind p h any l) (
          then_step _ _ _ (too_short_not 20 _ (in_front q behind) long) (
            then_step _ _ _ (coding (stamp_pdu t user_data) q) (
              then_step _ _ _ (parse_stamp-stamp_pdu t _ _ _ _ user_data (coded a q) v)
                (data_part_lem text user_data (stamped t (coded a q)) read))))))

-- In the 7-bit alphabet
pub parse_deliver-text :
    (digits : Bytes) (t : Stamp) (text : Bytes)
    → all_digits digits ≡ true
    → 0 < length digits
    → length digits + length digits % 2 < 64
    → ValidStamp t
    → All (λ c. c < 128) text
    → length text ≤ 160
    → parse_deliver (reset_parser (address_pdu digits (behind_address t 0 (text_data text))))
      ≡ parsed tt (delivered digits t (text_data text) text (negsuc 0))
unfolding hex02
parse_deliver-text digits t text h any l v septets fits =
    parse_deliver_lem digits t 0 (negsuc 0) (text_data text) text h any l v (omega arith)
      (λ rest p. scheme_front 0 (negsuc 0) rest p (omega arith) refl refl refl)
      (text_roundtrip text [] septets fits)

-- In octets of UCS-2
pub parse_deliver-octets :
    (digits : Bytes) (t : Stamp) (octets : Bytes)
    → all_digits digits ≡ true
    → 0 < length digits
    → length digits + length digits % 2 < 64
    → ValidStamp t
    → All (λ c. c < 256) octets
    → length octets ≤ 140
    → parse_deliver (reset_parser (address_pdu digits (behind_address t 8 (octet_data octets))))
      ≡ parsed tt (delivered digits t (octet_data octets) octets (pos 2))
unfolding hex02
parse_deliver-octets digits t octets h any l v bytes fits =
    parse_deliver_lem digits t 8 (pos 2) (octet_data octets) octets h any l v (omega arith)
      (λ rest p. scheme_front 8 (pos 2) rest p (omega arith) refl refl refl)
      (binary_roundtrip octets [] bytes fits)
