-- ===== src/CharConv/SevenBit.antt =====
-- The packed 7-bit texts of char_conv.cpp: what `char_to_hexstr_7bit` packs,
-- `hexstr_7bit_to_char` unpacks.
use mathlib.Core.Path.{subst}
use yate_datacard.CharConv.{
  char_to_hexstr_7bit, hex_dump, hexstr_7bit_to_char, pack_7bit, septet_octet, shift_right,
  unpack_7bit, unpack_pairs, written,
}
use yate_datacard.CharConv.Hexstr.{hex_pairs-hex_dump}
use yate_datacard.CharConv.Septet.{octet_sum_zero, septet_octet-octet_sum, sum_parts}
use yate_datacard.CharConv.Unpack.{mod_one, ne_seven, nul_tail, seven_shift, unpack-pack}
use yate_datacard.Libc.Hex.{hex02, hex_digit}
use yate_datacard.Prelude.{
  All, Bool-cases, Bytes, [], ap, arith, c_str, false, inl, inr, length, le→ltb, ltb, lt→ltb, refl,
  some, suc, sym, ℕ, ◌%◌, ◌*◌, ◌++◌, ◌+◌, ◌-◌, ◌/◌, ◌<◌, ◌==◌, ◌∷◌, ◌≡◌, ◌≤◌, ◌⊎◌,
}

seven_cases : (s : ℕ) → s < 8 → (s < 7) ⊎ (s ≡ 7)
seven_cases s l = ground arith

-- Every octet that is packed is one.
octet_bound : (s c next : ℕ) → s < 7 → c < 128 → next < 128 → septet_octet s c next < 256
octet_bound s c next l lc ln =
    subst (λ o. o < 256) (sym (septet_octet-octet_sum s c next l lc ln))
      (sum_parts s l c next lc ln).0

shift_bound : (s c : ℕ) → s < 8 → c < 128 → shift_right c s < 256
shift_bound s c l lc = elim (seven_cases s l) [
  | inl h ↦
      rw (lt→ltb c 128 lc)
        (subst (λ o. o < 256) (octet_sum_zero s c) (sum_parts s h c 0 lc (omega arith)).0)
  | inr h ↦
      subst (λ s. shift_right c s < 256) (sym h)
        (subst (λ o. o < 256) (sym (seven_shift c lc)) (omega arith))
]

pack_7bit_bounds :
    (s c : ℕ) (rest : Bytes)
    → s < 8
    → All (λ c. c < 128) (c ∷ rest)
    → All (λ o. o < 256) (pack_7bit s c rest) × (length (pack_7bit s c rest) ≤ length rest + 1)
unfolding pack_7bit
pack_7bit_bounds s c [] l (lc, lr) = ((shift_bound s c l lc, lr), omega arith)
pack_7bit_bounds s c (next ∷ rest) l (lc, (ln, lr)) = elim (seven_cases s l) [
  | inl h ↦
      let ih = pack_7bit_bounds (s + 1) next rest (omega arith) (ln, lr) in
      rw (ne_seven s h) ((octet_bound s c next h lc ln, ih.0), omega (arith, ih.1))
  | inr h ↦
      let ih = pack_7bit_bounds 0 next rest (omega arith) (ln, lr) in
      rw h (ih.0, omega (arith, ih.1))
]

-- A text of 7-bit characters other than NUL.
abbrev pub IsText : Bytes → Type 0
IsText s = All (λ c. (0 < c) × (c < 128)) s

pub not_zero : (c : ℕ) → 0 < c → (c == 0) ≡ false
not_zero c p = ground arith

pub text_septets : (s : Bytes) → IsText s → All (λ c. c < 128) s
text_septets [] t = t
text_septets (c ∷ cs) ((p, l), t) = (l, text_septets cs t)

pub length-hex_dump : (octets : Bytes) → length (hex_dump octets) ≡ length octets * 2
unfolding hex_dump hex02
length-hex_dump [] = refl
length-hex_dump (c ∷ cs) = omega (arith, length-hex_dump cs)

c_str_text : (s : Bytes) (n : ℕ) → IsText s → c_str (s ++ nul_tail n) ≡ s
unfolding nul_tail
c_str_text [] n t = elim (Bool-cases (ltb (n % 8) 6)) [ inl h ↦ rw h | inr h ↦ rw h ]
c_str_text (c ∷ cs) n ((p, l), t) = rw (not_zero c p) (ap (λ x. c ∷ x) (c_str_text cs n t))

room :
    (hex octets : Bytes) (in_size : ℕ)
    → length hex ≡ length octets * 2
    → length octets * 2 < in_size
    → ltb (in_size - 1) (length hex / 2 + length hex / 2 / 7) ≡ false
room hex octets in_size e l =
    le→ltb (in_size - 1) (length hex / 2 + length hex / 2 / 7) (omega arith)

digit_not_zero : (n : ℕ) → (hex_digit n == 0) ≡ false
unfolding hex_digit
digit_not_zero n = ground arith

c_str-hex_dump : (octets : Bytes) → c_str (hex_dump octets) ≡ hex_dump octets
unfolding hex_dump hex02
c_str-hex_dump [] = refl
c_str-hex_dump (c ∷ cs) =
    rw (digit_not_zero (c / 16), digit_not_zero (c % 16))
      (ap (λ t. hex_digit (c / 16) ∷ hex_digit (c % 16) ∷ t) (c_str-hex_dump cs))

pack_7bit_some : (s c : ℕ) (rest : Bytes) → 0 < length (pack_7bit s c rest)
unfolding pack_7bit
pack_7bit_some s c [] = omega arith
pack_7bit_some s c (next ∷ rest) = elim (Bool-cases (s == 7)) [
  | inl h ↦ rw h (pack_7bit_some 0 next rest)
  | inr h ↦ rw h (omega arith)
]

-- A text that is not empty, of 7-bit characters other than NUL, and shorter than half of both
-- buffers is packed into digits, some and no NUL among them, and these are unpacked to the same
-- text, up to the first NUL.
pub seven_bit_roundtrip :
    (c : ℕ) (cs : Bytes) (out_size in_size : ℕ)
    → IsText (c ∷ cs)
    → length (c ∷ cs) * 2 < out_size
    → length (c ∷ cs) * 2 < in_size
    → (hex text : Bytes) × (char_to_hexstr_7bit (c ∷ cs) out_size ≡ some (written hex))
      × (0 < length hex)
      × (c_str hex ≡ hex)
      × (hexstr_7bit_to_char hex in_size ≡ written text)
      × (c_str text ≡ c ∷ cs)
unfolding char_to_hexstr_7bit hexstr_7bit_to_char unpack_pairs
seven_bit_roundtrip c cs out_size in_size t fits fits' =
    let septets = text_septets (c ∷ cs) t in
    let octets = pack_7bit 0 c cs in
    let bounds = pack_7bit_bounds 0 c cs (omega arith) septets in
    let unpacked_all =
      subst (λ b. unpack_7bit 1 b octets ≡ c ∷ cs ++ nul_tail (0 + length cs)) (mod_one c)
        (unpack-pack 0 c cs (omega arith) septets) in
    (
      hex_dump octets,
      c ∷ cs ++ nul_tail (0 + length cs),
      rw (le→ltb (out_size - 1) ((suc (length cs) - suc (length cs) / 8) * 2) (omega arith)) refl,
      omega (arith, length-hex_dump octets, pack_7bit_some 0 c cs),
      c_str-hex_dump octets,
      rw
          (
            room (hex_dump octets) octets in_size (length-hex_dump octets)
                (omega (arith, bounds.1)),
            hex_pairs-hex_dump octets bounds.0,
          )
          (ap written unpacked_all),
      c_str_text (c ∷ cs) (0 + length cs) t,
    )
