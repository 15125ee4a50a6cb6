-- ===== src/Pdu/Octet.antt =====
-- pdu.cpp: the octets of a PDU as pairs of hex digits. A position in a PDU string is what stands
-- behind it, and its end is the NUL that is read there.
use yate_datacard.Libc.Hex.{is_xdigit}
use yate_datacard.Prelude.{
  Bytes, Option, [], get_or, if◌then◌else◌, ltb, negsuc, not, pos, some, suc, zero, ℕ, ℤ, ◌*◌, ◌+◌,
  ◌-◌, ◌==◌, ◌∷◌,
}

-- A digit of `octet2bin`: a letter counts from `A` on, be it a lower-case one or not.
unfoldable pub octet_digit : ℕ → ℕ
octet_digit c = if ltb 57 c then c - 55 else c - 48

-- On two hex digits; `octet2bin_check` calls it with no others.
unfoldable pub octet2bin : ℕ → ℕ → ℕ
unfolding octet_digit
octet2bin a b = octet_digit a * 16 + octet_digit b

unfoldable pub octet2bin_check : Bytes → ℤ
unfolding octet2bin
octet2bin_check octet =
    let first = get_or octet 0 0 in
    let second = get_or octet 1 0 in
    if first == 0
    then negsuc 0
    else if second == 0
    then negsuc 1
    else if not (is_xdigit first)
    then negsuc 2
    else if not (is_xdigit second)
    then negsuc 3
    else pos (octet2bin first second)

-- An odd last character stays where it is.
unfoldable pub swapchars : Bytes → Bytes
swapchars (a ∷ b ∷ rest) = b ∷ a ∷ swapchars rest
swapchars rest = rest

-- -2 for a PDU that is too short, -1 for a character that is no digit.
abbrev pub short_or_bad : ℤ → ℤ
short_or_bad (pos n) = negsuc 1
short_or_bad (negsuc zero) = negsuc 1
short_or_bad (negsuc (suc zero)) = negsuc 1
short_or_bad _ = negsuc 0

-- `if (i == -2 || i == -4) (*errorpos)++`
abbrev pub second_digit : ℤ → ℕ
second_digit (negsuc (suc zero)) = 1
second_digit (negsuc (suc (suc (suc zero)))) = 1
second_digit _ = 0

-- `-1 * octets - 3`
abbrev pub first_error : ℤ → ℤ
first_error (pos n) = negsuc (n + 2)
first_error (negsuc n) = if ltb n 2 then negsuc (1 - n) else pos (n - 2)

-- What `pdu2text` and `pdu2binary` leave: the result, `*errorpos` where it is set, the data, the
-- data header as a hex dump and what it says. The numbers behind `expected_length` and
-- `text_length` or `data_length` are read nowhere.
pub record UserData : Type 0 where
  pub ret : ℤ
  pub errorpos : Option ℤ
  pub bytes : Bytes
  pub udh : Bytes
  pub udh_type : Bytes

-- Refused, with an error position.
abbrev pub refused_data : ℤ → ℤ → Bytes → UserData
refused_data ret at bytes = record {
  ret = ret;
  errorpos = some at;
  bytes = bytes;
  udh = [];
  udh_type = [];
}
