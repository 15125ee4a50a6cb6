-- ===== src/CharConv/Hexstr.antt =====
-- Texts of hex digits: what is written by char_conv.cpp, read back.
use mathlib.Core.Path.{subst}
use yate_datacard.CharConv.{
  cons_byte, hex_dump, hex_pairs, hexstr_to_ucs2char, or_failed, scan_hex, scan_unsigned,
  scan_xdigits, signed_hex, ucs2_hex, ucs2char_to_hexstr, written, xdigit_value,
}
use yate_datacard.Libc.Hex.{hex02, hex_digit, is_xdigit}
use yate_datacard.Libc.Scan.{is_digit, skip_spaces}
use yate_datacard.Prelude.{
  ==_iff, All, Bool, Bool-cases, Bytes, Option, [], ap, arith, below, below-elim, false,
  if◌then◌else◌, inl, inr, length, le→ltb, ltb, map, none, refl, some, suc, sym, true, ℕ, ◌%◌, ◌*◌,
  ◌++◌, ◌-◌, ◌/◌, ◌<◌, ◌==◌, ◌∙◌, ◌∷◌, ◌≡◌,
}

is_read : ℕ → Option ℕ → Bool
is_read c none = false
is_read c (some v) = v == c

is_read-eq : (c : ℕ) (o : Option ℕ) → is_read c o ≡ true → o ≡ some c
unfolding is_read
is_read-eq c none h = ground arith
is_read-eq c (some v) h = ap some ((==_iff v c).0 h)

pub scan_hex-hex02 : (c : ℕ) → c < 256 → scan_hex (hex02 c) ≡ some c
unfolding is_read below scan_hex hex02 scan_unsigned scan_xdigits skip_spaces hex_digit is_xdigit
    xdigit_value is_digit
scan_hex-hex02 c l =
    is_read-eq c (scan_hex (hex02 c))
      (below-elim 256 (λ c. is_read c (scan_hex (hex02 c))) c refl l)

-- A byte as it is read back.
abbrev pub read_back : ℕ → ℕ
read_back c = if ltb c 128 then c else 255

signed_hex-read_back : (c : ℕ) → signed_hex c ≡ hex02 (read_back c)
unfolding signed_hex hex02 hex_digit
signed_hex-read_back c = elim (Bool-cases (ltb c 128)) [ inl h ↦ rw h | inr h ↦ rw h ]

read_back_bound : (c : ℕ) → read_back c < 256
read_back_bound c = ground arith

mod_small : (c : ℕ) → c < 256 → c % 256 ≡ c
mod_small c l = omega arith

pub hex_pairs-hex02 :
    (c : ℕ) (rest out : Bytes)
    → c < 256
    → hex_pairs rest ≡ some out
    → hex_pairs (hex02 c ++ rest) ≡ some (c ∷ out)
unfolding hex_pairs hex02 cons_byte
hex_pairs-hex02 c rest out l e =
    (λ i. cons_byte (scan_hex-hex02 c l i) (e i)) ∙ ap (λ v. some (v ∷ out)) (mod_small c l)

-- The octets of a hex dump are read back as they are.
pub hex_pairs-hex_dump :
    (octets : Bytes) → All (λ c. c < 256) octets → hex_pairs (hex_dump octets) ≡ some octets
unfolding hex_pairs hex_dump
hex_pairs-hex_dump [] h = refl
hex_pairs-hex_dump (c ∷ cs) (l, h) = hex_pairs-hex02 c (hex_dump cs) cs l (hex_pairs-hex_dump cs h)

hex_pairs-ucs2_hex : (s : Bytes) → hex_pairs (ucs2_hex s) ≡ some (map read_back s)
unfolding hex_pairs ucs2_hex
hex_pairs-ucs2_hex [] = refl
hex_pairs-ucs2_hex (c ∷ cs) =
    subst (λ x. hex_pairs (x ++ ucs2_hex cs) ≡ some (read_back c ∷ map read_back cs))
      (sym (signed_hex-read_back c))
      (hex_pairs-hex02 (read_back c) (ucs2_hex cs) (map read_back cs) (read_back_bound c)
        (hex_pairs-ucs2_hex cs))

length-ucs2_hex : (s : Bytes) → length (ucs2_hex s) ≡ length s * 2
unfolding ucs2_hex hex02
length-ucs2_hex [] = refl
length-ucs2_hex (c ∷ cs) =
    subst (λ x. length (x ++ ucs2_hex cs) ≡ suc (length cs) * 2) (sym (signed_hex-read_back c))
      (omega (arith, length-ucs2_hex cs))

-- Where the text and its digits fit, `ucs2char_to_hexstr` gives two digits for each byte, and
-- `hexstr_to_ucs2char` reads every byte below 128 back; any other one is printed as the digits of
-- 255, and read back as 255.
pub hexstr_roundtrip :
    (s : Bytes) (out_size : ℕ)
    → length s * 2 < out_size
    → (ucs2char_to_hexstr s out_size ≡ written (ucs2_hex s))
      × (length (ucs2_hex s) ≡ length s * 2)
      × (hexstr_to_ucs2char (ucs2_hex s) out_size ≡ written (map read_back s))
unfolding ucs2char_to_hexstr hexstr_to_ucs2char or_failed
hexstr_roundtrip s out_size fits = (
  rw (le→ltb (out_size - 1) (length s * 2) (omega arith)),
  length-ucs2_hex s,
  rw (
    le→ltb (out_size - 1) (length (ucs2_hex s) / 2) (omega (arith, length-ucs2_hex s)),
    hex_pairs-ucs2_hex s,
  ),
)
