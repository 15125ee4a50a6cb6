-- ===== src/CharConv/Tests.antt =====
-- Runs of the conversions.
use yate_datacard.CharConv.{
  char_to_hexstr_7bit, hex_dump, hexstr_7bit_to_char, hexstr_to_ucs2char, pack_7bit, ucs2_hex,
  ucs2char_to_hexstr, written,
}
use yate_datacard.CharConv.Hexstr.{hexstr_roundtrip}
use yate_datacard.CharConv.SevenBit.{seven_bit_roundtrip}
use yate_datacard.Libc.Hex.{hex02, hex_digit}
use yate_datacard.Prelude.{Bytes, [], arith, c_str, codes, length, refl, some, ◌<◌, ◌∷◌, ◌≡◌}

seven_bit_roundtrip_example :
    (hex text : Bytes) × (char_to_hexstr_7bit (codes "*100#") 1024 ≡ some (written hex))
    × (0 < length hex)
    × (c_str hex ≡ hex)
    × (hexstr_7bit_to_char hex 1024 ≡ written text)
    × (c_str text ≡ codes "*100#")
seven_bit_roundtrip_example =
    seven_bit_roundtrip b'*' (codes "100#") 1024 1024 (omega arith) (omega arith) (omega arith)

hexstr_roundtrip_example :
    (ucs2char_to_hexstr (0 ∷ 65 ∷ 4 ∷ 200 ∷ []) 16 ≡ written (ucs2_hex (0 ∷ 65 ∷ 4 ∷ 200 ∷ [])))
    × (length (ucs2_hex (0 ∷ 65 ∷ 4 ∷ 200 ∷ [])) ≡ 8)
    × (hexstr_to_ucs2char (ucs2_hex (0 ∷ 65 ∷ 4 ∷ 200 ∷ [])) 16 ≡ written (0 ∷ 65 ∷ 4 ∷ 255 ∷ []))
hexstr_roundtrip_example = hexstr_roundtrip (0 ∷ 65 ∷ 4 ∷ 200 ∷ []) 16 (omega arith)

packed : char_to_hexstr_7bit (codes "*100#") 1024 ≡ some (written (codes "AA180C3602"))
unfolding char_to_hexstr_7bit pack_7bit hex_dump hex02 hex_digit
packed = refl

-- Eight characters fill seven octets, and one more is printed.
packed_eight :
    char_to_hexstr_7bit (codes "AAAAAAAA") 1024 ≡ some (written (codes "C16030180C068300"))
unfolding char_to_hexstr_7bit pack_7bit hex_dump hex02 hex_digit
packed_eight = refl
