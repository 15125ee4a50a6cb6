-- ===== src/Pdu/Laws.antt =====
-- Octets and binary data of a PDU, written and read back.
use mathlib.Core.Path.{subst}
use yate_datacard.CharConv.{hex_dump}
use yate_datacard.Libc.Hex.{hex02, hex_digit, is_xdigit}
use yate_datacard.Libc.Scan.{is_digit}
use yate_datacard.Pdu.Binary.{
  add_octet, all_read, binary2pdu, binary_of, data_behind, data_octets, data_result, octet_read,
  pdu2binary,
}
use yate_datacard.Pdu.Octet.{octet2bin, octet2bin_check, octet_digit, swapchars}
use yate_datacard.Pdu.Udh.{header, read_header}
use yate_datacard.Prelude.{
  All, Bytes, [], ap, arith, drop, false, if◌then◌else◌, leb, length, le→ltb, none, pos, refl, sym,
  take, take-length, true, ℕ, ◌%◌, ◌*◌, ◌++◌, ◌+◌, ◌-◌, ◌/◌, ◌<◌, ◌==◌, ◌∙◌, ◌∷◌, ◌≡◌, ◌≤◌,
}

-- Numbers are written with their digits swapped, and read by the same swap.
pub swapchars-swapchars : (s : Bytes) → swapchars (swapchars s) ≡ s
unfolding swapchars
swapchars-swapchars [] = refl
swapchars-swapchars (a ∷ []) = refl
swapchars-swapchars (a ∷ b ∷ rest) = ap (λ r. a ∷ b ∷ r) (swapchars-swapchars rest)

-- The value of a hex digit.
abbrev pub digit_value : ℕ → ℕ
digit_value c = if leb c 57 then c - 48 else if leb c 70 then c - 55 else c - 87

-- What a lower-case digit is taken for in addition to its value.
abbrev pub lower_excess : ℕ → ℕ
lower_excess c = if leb 97 c then 32 else 0

xdigit_range : (c : ℕ) → is_xdigit c ≡ true → (48 ≤ c) × (c ≤ 102)
unfolding is_xdigit is_digit
xdigit_range c h = ground arith

octet_digit_value : (c : ℕ) → is_xdigit c ≡ true → octet_digit c ≡ digit_value c + lower_excess c
unfolding octet_digit is_xdigit is_digit
octet_digit_value c h = ground arith

digit_not_zero : (c : ℕ) → is_xdigit c ≡ true → (c == 0) ≡ false
unfolding is_xdigit is_digit
digit_not_zero c h = ground arith

octet2bin_check_digits :
    (a b : ℕ) (rest : Bytes)
    → is_xdigit a ≡ true
    → is_xdigit b ≡ true
    → octet2bin_check (a ∷ b ∷ rest) ≡ pos (octet_digit a * 16 + octet_digit b)
unfolding octet2bin_check octet2bin
octet2bin_check_digits a b rest ha hb = rw (digit_not_zero a ha, digit_not_zero b hb, ha, hb) refl

-- Of two hex digits `octet2bin_check` gives the value, too large by 512 for a lower-case first
-- digit and by 32 for a lower-case second one.
pub octet2bin_check_value :
    (a b : ℕ) (rest : Bytes)
    → is_xdigit a ≡ true
    → is_xdigit b ≡ true
    → octet2bin_check (a ∷ b ∷ rest)
      ≡ pos (digit_value a * 16 + digit_value b + (lower_excess a * 16 + lower_excess b))
octet2bin_check_value a b rest ha hb =
    octet2bin_check_digits a b rest ha hb
    ∙ ap pos (omega (arith, octet_digit_value a ha, octet_digit_value b hb))

hex_digit_lem :
    (n : ℕ) → n < 16 → (is_xdigit (hex_digit n) ≡ true) × (octet_digit (hex_digit n) ≡ n)
unfolding is_xdigit is_digit hex_digit octet_digit
hex_digit_lem n l = ground arith

pub octet2bin_check-hex02 :
    (c : ℕ) (rest : Bytes) → c < 256 → octet2bin_check (hex02 c ++ rest) ≡ pos c
unfolding hex02
octet2bin_check-hex02 c rest l =
    let high = hex_digit_lem (c / 16) (omega arith) in
    let low = hex_digit_lem (c % 16) (omega arith) in
    octet2bin_check_digits (hex_digit (c / 16)) (hex_digit (c % 16)) rest high.0 low.0
    ∙ ap pos (omega (arith, high.1, low.1))

small : (c : ℕ) → c < 256 → c % 256 ≡ c
small c l = omega arith

data_octets-hex_dump :
    (octets rest : Bytes) (counter : ℕ)
    → All (λ c. c < 256) octets
    → data_octets (length octets) counter (hex_dump octets ++ rest) ≡ all_read octets
unfolding data_octets octet_read add_octet hex_dump hex02
data_octets-hex_dump [] rest counter h = refl
data_octets-hex_dump (c ∷ cs) rest counter (l, h) =
    let more = data_octets-hex_dump cs rest (counter + 1) h in
    let read = octet2bin_check-hex02 c (hex_dump cs ++ rest) l in
    (λ i. octet_read counter (read i) (more i)) ∙ ap (λ v. all_read (v ∷ cs)) (small c l)

-- Without a header the data begin behind their number.
data_behind_plain :
    (octets : ℕ) (pdu : Bytes)
    → data_behind octets (header 0 [] []) pdu
      ≡ data_result octets [] [] (data_octets octets 0 (drop 2 pdu))
unfolding data_behind
data_behind_plain octets pdu =
    rw (le→ltb octets 0 (omega arith))
      (ap (λ n. data_result n [] [] (data_octets n 0 (drop 2 pdu))) (omega arith))

-- Up to 140 bytes behind their number, written as hex digits, are read back by `pdu2binary`
-- without a data header, whatever follows.
pub binary_roundtrip :
    (binary rest : Bytes)
    → All (λ c. c < 256) binary
    → length binary ≤ 140
    → pdu2binary false (hex02 (length binary) ++ (binary2pdu binary ++ rest)) ≡ record {
      ret = pos (length binary);
      errorpos = none;
      bytes = binary;
      udh = [];
      udh_type = [];
    }
unfolding pdu2binary binary_of data_result binary2pdu hex02 read_header
binary_roundtrip binary rest h fits =
    let dump = hex_dump (take 140 binary) ++ rest in
    let pdu = hex02 (length binary) ++ dump in
    let read = octet2bin_check-hex02 (length binary) dump (omega arith) in
    let more =
      subst (λ b. data_octets (length binary) 0 (hex_dump b ++ rest) ≡ all_read binary)
        (sym (take-length 140 binary fits)) (data_octets-hex_dump binary rest 0 h) in
    ap (λ z. binary_of z false pdu) read
    ∙ data_behind_plain (length binary) pdu
    ∙ ap (data_result (length binary) [] []) more
