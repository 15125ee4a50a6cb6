-- ===== src/Pdu/Text.antt =====
-- 7-bit text in a PDU (pdu.cpp): `pdu2text` and `text2pdu`, bit by bit.
use Prim.Native.Nat.{bit_and, bit_or}
use yate_datacard.CharConv.{hex_dump}
use yate_datacard.Device.Laws.{count}
use yate_datacard.Pdu.Octet.{
  UserData, first_error, octet2bin_check, refused_data, second_digit, short_or_bad,
}
use yate_datacard.Pdu.Udh.{Header, bad_header, header, read_header}
use yate_datacard.Prelude.{
  Bool, Bytes, Option, [], drop, get_or, if◌then◌else◌, leb, length, negsuc, none, pos, some, sub_ℕ,
  suc, take, zero, ℕ, ℤ, ◌%◌, ◌*◌, ◌++◌, ◌+◌, ◌-◌, ◌/◌, ◌==◌, ◌^◌, ◌∷◌,
}

-- The loop that reads octets up to a position: the octet counter and the octet read last, or a
-- stop at the result of `octet2bin_check`.
pub data Fetched : Type 0 where
  fetched : ℕ → ℕ → Fetched
  bad_octet : ℕ → ℤ → Fetched

-- `*errorpos`, and the result
abbrev bad_at : ℕ → ℤ → Fetched
bad_at octetcounter i = bad_octet (octetcounter * 2 + 2 + second_digit i) i

unfoldable pub octet_fetched : (ℕ → Fetched) → ℕ → ℤ → Fetched
octet_fetched more octetcounter (pos v) = more (v % 256)
octet_fetched more octetcounter (negsuc n) = bad_at octetcounter (negsuc n)

-- `left` is `octets - octetcounter`.
unfoldable pub fetch : ℕ → Bytes → ℕ → ℕ → ℕ → Fetched
unfolding octet_fetched
fetch zero pdu byteposition octetcounter binary = fetched octetcounter binary
fetch (suc left) pdu byteposition octetcounter binary =
    let read =
      octet_fetched (fetch left pdu byteposition (octetcounter + 1)) octetcounter
        (octet2bin_check (drop (2 + octetcounter * 2) pdu)) in
    if leb octetcounter byteposition then read else fetched octetcounter binary

-- `if (binary & (1 << byteoffset)) c = c | 128; c = (c >> 1) & 127`
abbrev pub shifted_in : ℕ → ℕ → ℕ
shifted_in c bit = (if bit == 1 then c + 128 else c) / 2 % 128

abbrev pub bit_of : ℕ → ℕ → ℕ
bit_of n k = n / 2 ^ k % 2

-- A septet, with the octet counter and the octet behind it.
pub data Septet : Type 0 where
  septet : ℕ → ℕ → ℕ → Septet
  bad_septet : ℕ → ℤ → Septet

unfoldable pub on_fetched : (ℕ → ℕ → Septet) → Fetched → Septet
on_fetched more (fetched octetcounter binary) = more octetcounter binary
on_fetched more (bad_octet at i) = bad_septet at i

-- The loop over the bits, of which so many are to come.
unfoldable pub read_bits : ℕ → ℕ → Bytes → ℕ → ℕ → ℕ → ℕ → Septet
unfolding on_fetched fetch
read_bits zero octets pdu bitposition octetcounter binary c = septet c octetcounter binary
read_bits (suc left) octets pdu bitposition octetcounter binary c =
    on_fetched
      (λ octetcounter binary.
        read_bits left octets pdu (bitposition + 1) octetcounter binary
          (shifted_in c (bit_of binary (bitposition % 8))))
      (fetch (octets - octetcounter) pdu (bitposition / 8) octetcounter binary)

-- The characters, or those in front of a stop.
pub data Chars : Type 0 where
  chars : Bytes → Chars
  bad_chars : ℕ → ℤ → Bytes → Chars

unfoldable pub add_char : ℕ → Chars → Chars
add_char c (chars cs) = chars (c ∷ cs)
add_char c (bad_chars at i cs) = bad_chars at i (c ∷ cs)

unfoldable pub on_septet : (ℕ → ℕ → Chars) → Septet → Chars
unfolding add_char
on_septet more (septet c octetcounter binary) = add_char c (more octetcounter binary)
on_septet more (bad_septet at i) = bad_chars at i []

-- The loop over the characters.
unfoldable pub read_chars : ℕ → ℕ → Bytes → ℕ → ℕ → ℕ → Chars
unfolding on_septet read_bits
read_chars zero octets pdu bitposition octetcounter binary = chars []
read_chars (suc left) octets pdu bitposition octetcounter binary =
    on_septet (read_chars left octets pdu (bitposition + 7))
      (read_bits 7 octets pdu bitposition octetcounter binary 0)

-- The characters that a header takes, filling bits included.
abbrev pub skip_characters : ℕ → ℕ
skip_characters udh_octets = (udh_octets * 8 + 6) / 7

unfoldable pub text_result : ℕ → ℕ → Bytes → Bytes → Chars → UserData
text_result septets skip udh udh_type (chars cs) = record {
  ret = sub_ℕ septets skip;
  errorpos = none;
  bytes = drop skip cs;
  udh = udh;
  udh_type = udh_type;
}
text_result septets skip udh udh_type (bad_chars at i cs) =
    refused_data (short_or_bad i) (pos at) (drop skip cs)

unfoldable pub text_behind : ℕ → Header → Bytes → UserData
unfolding text_result read_chars
text_behind septets (bad_header ret at) pdu = refused_data ret at []
text_behind septets (header udh_octets udh udh_type) pdu =
    text_result septets (skip_characters udh_octets) udh udh_type
      (read_chars septets ((septets * 7 + 7) / 8) pdu 0 0 0)

unfoldable pub text_of_septets : ℤ → Bool → Bytes → UserData
unfolding text_behind read_header
text_of_septets (pos septets) with_udh pdu = text_behind septets (read_header with_udh pdu) pdu
text_of_septets (negsuc n) with_udh pdu =
    refused_data (short_or_bad (negsuc n)) (first_error (negsuc n)) []

unfoldable pub pdu2text : Bool → Bytes → UserData
unfolding text_of_septets
pdu2text with_udh pdu = text_of_septets (octet2bin_check pdu) with_udh pdu

-- `tmp[500]`, as the byte at each position; at most 140 positions are written.
abbrev pub Tmp : Type 0
Tmp = ℕ → ℕ

abbrev pub put_bit : ℕ → ℕ → ℕ → ℕ
put_bit byte k bit = if bit == 1 then bit_or byte (2 ^ k) else bit_and byte (255 - 2 ^ k)

unfoldable pub set_bit : ℕ → ℕ → Tmp → Tmp
set_bit bitnr bit tmp p = if p == bitnr / 8 then put_bit (tmp p) (bitnr % 8) bit else tmp p

-- The bits of a character, the lowest one first, from a bit number on.
unfoldable pub put_bits : ℕ → ℕ → ℕ → ℕ → Tmp → Tmp
unfolding set_bit
put_bits zero bit c bitnr tmp = tmp
put_bits (suc left) bit c bitnr tmp =
    put_bits left (bit + 1) c (bitnr + 1) (set_bit bitnr (bit_of c bit) tmp)

unfoldable pub put_text : Bytes → ℕ → Tmp → Tmp
unfolding put_bits
put_text [] bitnr tmp = tmp
put_text (c ∷ cs) bitnr tmp = put_text cs (bitnr + 7) (put_bits 7 0 c bitnr tmp)

-- Positions from one on, as octets.
unfoldable pub tmp_octets : ℕ → ℕ → Tmp → Bytes
tmp_octets zero p tmp = []
tmp_octets (suc left) p tmp = tmp p ∷ tmp_octets left (p + 1) tmp

-- `pdubyteposition` behind the loop: 0 where there is no character.
abbrev pub last_position : ℕ → ℕ → ℕ
last_position fillbits count = if count == 0 then 0 else (7 * count - 1 + fillbits) / 8

-- `pdu[counter * 2] = udh[counter * 3]` and the next, of a dump with a blank behind each octet
unfoldable pub udh_hex : ℕ → Bytes → Bytes
udh_hex zero udh = []
udh_hex (suc octets) udh = get_or udh 0 0 ∷ get_or udh 1 0 ∷ udh_hex octets (drop 3 udh)

-- The characters of a text behind a header of so many octets, as hex digits.
unfoldable pub text_hex : ℕ → Bytes → Bytes
unfolding put_text tmp_octets
text_hex udh_octets text =
    let rest = udh_octets % 7 in
    let fillbits = if rest == 0 then 0 else 7 - rest in
    hex_dump
      (tmp_octets (last_position fillbits (length text) + 1) 0 (put_text text fillbits (λ p. 0)))

-- The octets of `udh` and their digits; a null pointer has none.
unfoldable pub udh_size : Option Bytes → ℕ
udh_size none = 0
udh_size (some udh) = (length udh + 2) / 3

unfoldable pub udh_digits : Option Bytes → Bytes
unfolding udh_hex
udh_digits none = []
udh_digits (some udh) = udh_hex ((length udh + 2) / 3) udh

-- The count and the digits. A text longer than what is left of 160 characters is cut.
unfoldable pub text2pdu : Bytes → Option Bytes → ℕ × Bytes
unfolding text_hex udh_size udh_digits
text2pdu text udh =
    let septets = skip_characters (udh_size udh) in
    let cut = take (160 - septets) text in
    (length cut + septets, udh_digits udh ++ text_hex (udh_size udh) cut)
