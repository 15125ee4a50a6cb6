-- ===== src/Pdu/Generate.antt =====
-- `PDU::generate` (pdu.cpp), on the fields that it reads.
use yate_datacard.Libc.Hex.{hex_number}
use yate_datacard.Pdu.Binary.{binary2pdu}
use yate_datacard.Pdu.Octet.{swapchars}
use yate_datacard.Pdu.Parse.{Iconv}
use yate_datacard.Pdu.Text.{text2pdu}
use yate_datacard.Pdu.Udh.{no_blanks}
use yate_datacard.Prelude.{
  Bool, Bytes, Option, [], codes, drop, eq_ℤ, false, get_or, if◌then◌else◌, leb, length, ltb,
  negsuc, none, not, pos, some, take, text_eq, ℕ, ℤ, ◌%◌, ◌&&◌, ◌++◌, ◌+◌, ◌/◌, ◌==◌, ◌||◌, ◌∷◌,
}

pub record Outgoing : Type 0 where
  pub message : Bytes
  pub smsc : Option Bytes
  pub number : Bytes
  pub udh_data : Option Bytes
  pub with_udh : Bool
  pub report : Bool
  pub alphabet : ℤ
  pub flash : Bool
  pub mode : Bytes
  pub validity : ℤ
  pub system_msg : ℕ
  pub replace_msg : ℕ

-- The constructor without a text, behind `setMessage`, `setNumber` and `setAlphabet(UCS2)`.
unfoldable pub ucs2_message : Bytes → Bytes → Outgoing
ucs2_message number message = record {
  message = message;
  smsc = none;
  number = number;
  udh_data = none;
  with_udh = false;
  report = false;
  alphabet = pos 2;
  flash = false;
  mode = codes "new";
  validity = pos 170;
  system_msg = 0;
  replace_msg = 0;
}

abbrev pub is_old : Outgoing → Bool
is_old p = text_eq p.mode (codes "old")

-- A number that starts with `s` goes without it, in no format.
abbrev pub number_digits : Bytes → Bytes
number_digits number = if get_or number 0 0 == b's' then drop 1 number else number

abbrev pub number_format : Bytes → ℕ
number_format number = if get_or number 0 0 == b's' then 129 else 145

-- The digits, with an F where their number is odd, and swapped.
unfoldable pub swapped_number : Bytes → Bytes
swapped_number digits = swapchars (if length digits % 2 == 1 then digits ++ b'F' ∷ [] else digits)

skip_plus : Bytes → Bytes
skip_plus [] = []
skip_plus (c ∷ cs) = if c == b'+' then skip_plus cs else c ∷ cs

-- `tmp_smsc[64]`; a number of 63 digits gets no F.
smsc_swapped : Bytes → Bytes
unfolding skip_plus
smsc_swapped smsc =
    let digits = take 63 (skip_plus smsc) in
    swapchars
      (if length digits % 2 == 1 && ltb (length digits) 63 then digits ++ b'F' ∷ [] else digits)

smsc_octets : Bytes → Bytes
smsc_octets [] = codes "00"
smsc_octets digits =
    hex_number (length digits / 2 + 1)
    ++ ((if get_or digits 1 0 == b'0' then codes "81" else codes "91") ++ digits)

smsc_part : Option Bytes → Bytes
unfolding smsc_swapped smsc_octets
smsc_part none = codes "00"
smsc_part (some smsc) = smsc_octets (smsc_swapped smsc)

abbrev pub flags_of : Outgoing → ℕ
flags_of p =
    1 + (if p.with_udh then 64 else 0) + (if is_old p then 0 else 16) + (if p.report then 32 else 0)

coding_of : Outgoing → ℕ
coding_of p =
    (if eq_ℤ p.alphabet (pos 1) then 4 else if eq_ℤ p.alphabet (pos 2) then 8 else 0)
    + (if p.flash then 0x10 else 0)

-- A system message has a coding of its own.
coding_new : Outgoing → ℕ
unfolding coding_of
coding_new p = if p.system_msg == 0 then coding_of p else if p.system_msg == 2 then 0xF6 else 0xF4

proto_of : Outgoing → ℕ
proto_of p =
    if p.system_msg == 2
    then 0x7F
    else if not (p.system_msg == 0)
    then 0x40
    else if leb 1 p.replace_msg && leb p.replace_msg 7
    then 0x40 + p.replace_msg
    else 0

validity_of : ℤ → ℕ
validity_of (pos n) = if ltb 255 n then 255 else n
validity_of (negsuc n) = 255

-- `m_message_len` and `tmp2`; none is a data header that is not there.
binary_part : Outgoing → Option (ℕ × Bytes)
binary_part p =
    if not p.with_udh then some (length p.message, binary2pdu p.message) else elim p.udh_data [
      | none ↦ none
      | some udh ↦
          some
            (length p.message + length (no_blanks udh) / 2, no_blanks udh ++ binary2pdu p.message)
    ]

unfoldable pub data_of : Outgoing → Option (ℕ × Bytes)
unfolding binary_part
data_of p =
    if eq_ℤ p.alphabet (pos 1) || eq_ℤ p.alphabet (pos 2)
    then binary_part p
    else some (text2pdu p.message p.udh_data)

-- `m_pdu` in front of the data, less the service centre.
unfoldable pub front_part : Outgoing → ℕ → Bytes
unfolding proto_of coding_new coding_of validity_of swapped_number
front_part p message_len =
    let digits = number_digits p.number in
    let address =
      hex_number (length digits)
      ++ (hex_number (number_format p.number) ++ swapped_number digits) in
    let start = hex_number (flags_of p) ++ (codes "00" ++ address) in
    start
    ++ (if is_old p
        then codes "00" ++ (hex_number (coding_of p) ++ hex_number message_len)
        else hex_number (proto_of p)
          ++ (hex_number (coding_new p)
              ++ (hex_number (validity_of p.validity) ++ hex_number message_len)))

-- The PDU and the new `m_message_len`. `m_pdu` has 160 characters; a longer text is written behind
-- it: none.
pdu_of : Outgoing → Option (ℕ × Bytes) → Option (ℕ × Bytes)
unfolding front_part smsc_part
pdu_of p none = none
pdu_of p (some (message_len, user_data)) =
    let centre = if is_old p then [] else smsc_part p.smsc in
    let rest = front_part p message_len ++ user_data in
    let size = length centre + length rest in
    if ltb size 160 then some (length rest / 2, centre ++ rest) else none

-- `convert("UTF16BE", "UTF8")` of a message in UCS-2
outgoing_converted : Option Bytes → Outgoing → Outgoing
outgoing_converted none p = p
outgoing_converted (some out) p = record p { message = out }

unfoldable pub to_utf16 : Iconv → Outgoing → Outgoing
unfolding outgoing_converted
to_utf16 iconv p =
    if eq_ℤ p.alphabet (pos 2)
    then outgoing_converted (iconv.convert (codes "UTF16BE") (codes "UTF8") p.message) p
    else p

unfoldable pub generate : Iconv → Outgoing → Option (ℕ × Bytes)
unfolding pdu_of data_of to_utf16
generate iconv p = let q = to_utf16 iconv p in pdu_of q (data_of q)
