-- ===== src/Pdu/AddressRead.antt =====
-- `parse` on an address that is written as `generate` writes it.
use yate_datacard.Libc.Hex.{hex02}
use yate_datacard.Pdu.Address.{all_digits, parse_address}
use yate_datacard.Pdu.Generate.{swapped_number}
use yate_datacard.Pdu.Numbers.{length-swapped_number, numeric-swapped_number}
use yate_datacard.Pdu.State.{Parser, parsed}
use yate_datacard.Pdu.Steps.{in_front, octet_front, skip_front, skip_octet, then_step}
use yate_datacard.Prelude.{
  Bytes, arith, codes, length, lt→ltb, refl, true, ◌%◌, ◌++◌, ◌+◌, ◌<◌, ◌≡◌,
}

-- The address with its length in front and the type of an international number.
abbrev pub address_pdu : Bytes → Bytes → Bytes
address_pdu digits rest = hex02 (length digits) ++ (hex02 145 ++ (swapped_number digits ++ rest))

abbrev pub with_number : Parser → Bytes → Parser
with_number p digits = record p {
  number_type = codes "international, ISDN/telephone";
  number = digits;
}

pub parse_address_lem :
    (digits rest invalid missing : Bytes) (p : Parser)
    → all_digits digits ≡ true
    → length digits + length digits % 2 < 64
    → parse_address (length digits) invalid missing (in_front p (address_pdu digits rest))
      ≡ parsed tt (in_front (with_number p digits) rest)
unfolding parse_address
parse_address_lem digits rest invalid missing p h l =
    let typed = record p { number_type = codes "international, ISDN/telephone" } in
    let behind = swapped_number digits ++ rest in
    then_step _ _ _ (skip_octet (length digits) (hex02 145 ++ behind) p) (
      then_step _ _ _ (octet_front invalid 145 behind p (omega arith)) (
        then_step _ _ _ {q = in_front typed (hex02 145 ++ behind)} refl (
          then_step _ _ _ {q = in_front typed (hex02 145 ++ behind)} refl (
            then_step _ _ _ (skip_octet 145 behind typed) (
              then_step _ _ _
                (numeric-swapped_number digits rest (in_front typed behind) h (lt→ltb _ 64 l) refl)
                (skip_front _ (swapped_number digits) rest (with_number p digits)
                  (length-swapped_number digits)))))))
