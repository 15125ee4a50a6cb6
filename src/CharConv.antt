-- ===== src/CharConv.antt =====
-- char_conv.cpp: USSD texts between hex digits, UCS-2 and the packed 7-bit alphabet. `iconv` is the
-- environment's; `char` is signed and has 8 bits.
pub mod Hexstr
pub mod Septet
pub mod Unpack
pub mod SevenBit
mod Tests
-- A result of these functions: a negative code, or what was written before the final NUL.
use Prim.Native.Nat.{bit_or}
use yate_datacard.Env.{Env}
use yate_datacard.Libc.Hex.{hex02, is_xdigit}
use yate_datacard.Libc.Scan.{skip_spaces}
use yate_datacard.Prelude.{
  Bytes, Option, [], codes, if◌then◌else◌, leb, length, ltb, negsuc, none, some, text_eq, ℕ, ℤ, ◌%◌,
  ◌*◌, ◌++◌, ◌+◌, ◌-◌, ◌/◌, ◌==◌, ◌^◌, ◌||◌, ◌∷◌,
}

pub data Converted : Type 0 where
  failed : ℤ → Converted
  written : Bytes → Converted

-- A digit of `%x`
unfoldable pub xdigit_value : ℕ → ℕ
xdigit_value c = if leb c 57 then c - 48 else if leb c 70 then c - 55 else c - 87

unfoldable pub scan_xdigits : Bytes → ℕ → ℕ
scan_xdigits [] acc = acc
scan_xdigits (c ∷ cs) acc =
    let rest = scan_xdigits cs (acc * 16 + xdigit_value c) in if is_xdigit c then rest else acc

unfoldable pub scan_unsigned : Bytes → Option ℕ
unfolding scan_xdigits xdigit_value
scan_unsigned [] = none
scan_unsigned (c ∷ cs) = if is_xdigit c then some (scan_xdigits (c ∷ cs) 0) else none

negated : Option ℕ → Option ℕ
negated none = none
negated (some n) = some (256 - n % 256)

-- `sscanf(buf, "%x", &hexval)` on a buffer of two characters; a sign leaves the low byte of the
-- negated value. `0x` with no digit behind it is no number.
unfoldable pub scan_hex : Bytes → Option ℕ
unfolding scan_unsigned negated
scan_hex s = elim (skip_spaces s) [
  | [] ↦ none
  | c ∷ cs ↦
      if c == b'-'
      then negated (scan_unsigned cs)
      else if c == b'+'
      then scan_unsigned cs
      else if text_eq (c ∷ cs) (codes "0x") || text_eq (c ∷ cs) (codes "0X")
      then none
      else scan_unsigned (c ∷ cs)
]

unfoldable pub cons_byte : Option ℕ → Option Bytes → Option Bytes
cons_byte none rest = none
cons_byte (some v) none = none
cons_byte (some v) (some bytes) = some (v % 256 ∷ bytes)

-- The loop of `hexstr_to_ucs2char`, on pairs of characters; an odd last one is left.
unfoldable pub hex_pairs : Bytes → Option Bytes
unfolding cons_byte scan_hex
hex_pairs (a ∷ b ∷ rest) = cons_byte (scan_hex (a ∷ b ∷ [])) (hex_pairs rest)
hex_pairs _ = some []

unfoldable pub or_failed : Option Bytes → Converted
or_failed none = failed (negsuc 0)
or_failed (some out) = written out

unfoldable pub hexstr_to_ucs2char : Bytes → ℕ → Converted
unfolding hex_pairs or_failed
hexstr_to_ucs2char s out_size =
    if ltb (out_size - 1) (length s / 2) then failed (negsuc 0) else or_failed (hex_pairs s)

-- `snprintf(buf, 3, "%.2X", in[i])`: a negative `char` prints as eight digits, of which two fit.
unfoldable pub signed_hex : ℕ → Bytes
unfolding hex02
signed_hex c = if ltb c 128 then hex02 c else codes "FF"

unfoldable pub ucs2_hex : Bytes → Bytes
unfolding signed_hex
ucs2_hex [] = []
ucs2_hex (c ∷ cs) = signed_hex c ++ ucs2_hex cs

unfoldable pub ucs2char_to_hexstr : Bytes → ℕ → Converted
unfolding ucs2_hex
ucs2char_to_hexstr s out_size =
    if ltb (out_size - 1) (length s * 2) then failed (negsuc 0) else written (ucs2_hex s)

-- `convert_string`: -3 where `iconv` fails or the result does not fit.
convert_string : Env → Bytes → Bytes → Bytes → ℕ → Converted
convert_string env from to s out_size = elim (env.iconv from to s) [
  | none ↦ failed (negsuc 2)
  | some out ↦ if ltb (out_size - 1) (length out) then failed (negsuc 2) else written out
]

then_convert : (Bytes → Converted) → Converted → Converted
then_convert k (failed e) = failed e
then_convert k (written bytes) = k bytes

unfoldable pub hexstr_ucs2_to_utf8 : Env → Bytes → ℕ → Converted
unfolding hexstr_to_ucs2char convert_string then_convert
hexstr_ucs2_to_utf8 env s out_size =
    if ltb (out_size - 1) (length s / 2)
    then failed (negsuc 0)
    else then_convert (λ buf. convert_string env (codes "UCS-2BE") (codes "UTF-8") buf out_size)
        (hexstr_to_ucs2char s out_size)

unfoldable pub utf8_to_hexstr_ucs2 : Env → Bytes → ℕ → Converted
unfolding ucs2char_to_hexstr convert_string then_convert
utf8_to_hexstr_ucs2 env s out_size =
    if ltb (out_size - 1) (length s * 2)
    then failed (negsuc 0)
    else then_convert (λ buf. ucs2char_to_hexstr buf out_size)
        (convert_string env (codes "UTF-8") (codes "UCS-2BE") s out_size)

-- `in[i] >> s` of a signed `char`, as the `unsigned char` that it is stored in.
abbrev pub shift_right : ℕ → ℕ → ℕ
shift_right c s = if ltb c 128 then c / 2 ^ s else c / 2 ^ s + (256 - 2 ^ (8 - s))

-- `(in[i] >> s) | (in[i + 1] << (7 - s))` in an `unsigned char`
abbrev pub septet_octet : ℕ → ℕ → ℕ → ℕ
septet_octet s c next = bit_or (shift_right c s) (next * 2 ^ (7 - s) % 256)

-- The octets that `char_to_hexstr_7bit` prints, from a character on with the shift `s`. The last
-- character always gives one more octet.
unfoldable pub pack_7bit : ℕ → ℕ → Bytes → Bytes
pack_7bit s c [] = shift_right c s ∷ []
pack_7bit s c (next ∷ rest) =
    let more = pack_7bit (s + 1) next rest in
    let skipped = pack_7bit 0 next rest in if s == 7 then skipped else septet_octet s c next ∷ more

unfoldable pub hex_dump : Bytes → Bytes
unfolding hex02
hex_dump [] = []
hex_dump (c ∷ cs) = hex02 c ++ hex_dump cs

-- On the empty text `in_length--` wraps, and the loop reads behind it: none.
unfoldable pub char_to_hexstr_7bit : Bytes → ℕ → Option Converted
unfolding pack_7bit hex_dump
char_to_hexstr_7bit [] out_size = none
char_to_hexstr_7bit (c ∷ cs) out_size =
    let len = length (c ∷ cs) in
    some (
      if ltb (out_size - 1) ((len - len / 8) * 2)
      then failed (negsuc 0)
      else written (hex_dump (pack_7bit 0 c cs)))

-- What one octet gives: with the shift `s` and the bits `b` kept from the octet before.
abbrev pub unpacked : ℕ → ℕ → ℕ → ℕ
unpacked s b h = bit_or (h * 2 ^ s % 256 / 2) b

unfoldable pub unpack_7bit : ℕ → ℕ → Bytes → Bytes
unpack_7bit s b [] = []
unpack_7bit s b (h ∷ hs) =
    let kept = h / 2 ^ (8 - s) in
    let more = unpack_7bit (s + 1) kept hs in
    let wrapped = unpack_7bit 1 0 hs in
    if s == 7 then unpacked s b h ∷ kept ∷ wrapped else unpacked s b h ∷ more

unfoldable pub unpack_pairs : Option Bytes → Converted
unfolding unpack_7bit
unpack_pairs none = failed (negsuc 0)
unpack_pairs (some octets) = written (unpack_7bit 1 0 octets)

unfoldable pub hexstr_7bit_to_char : Bytes → ℕ → Converted
unfolding hex_pairs unpack_pairs
hexstr_7bit_to_char s out_size =
    let n = length s / 2 in
    if ltb (out_size - 1) (n + n / 7) then failed (negsuc 0) else unpack_pairs (hex_pairs s)
