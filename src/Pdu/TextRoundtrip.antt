-- ===== src/Pdu/TextRoundtrip.antt =====
-- 7-bit text: what `text2pdu` packs, `pdu2text` unpacks.
use yate_datacard.CharConv.{hex_dump}
use yate_datacard.Libc.Hex.{hex02, hex_digit}
use yate_datacard.Pdu.Bits.{AllOctets, bit_at, shifted_bits, shifted_bits_lem}
use yate_datacard.Pdu.Laws.{octet2bin_check-hex02}
use yate_datacard.Pdu.Octet.{octet2bin_check}
use yate_datacard.Pdu.Packed.{put_text-AllOctets, put_text_within}
use yate_datacard.Pdu.Text.{
  Tmp, bit_of, chars, last_position, pdu2text, put_text, read_chars, shifted_in, text2pdu,
  text_behind, text_hex, text_of_septets, text_result, tmp_octets, udh_digits, udh_size,
}
use yate_datacard.Pdu.Udh.{read_header}
use yate_datacard.Pdu.Unpacked.{Current, bits_from, chars_from, read_chars_lem}
use yate_datacard.Prelude.{
  All, Bytes, [], ap, arith, drop, false, get_or, inl, length, none, pos, refl, sub_ℕ, suc, sym,
  take-length, zero, ℕ, ◌%◌, ◌*◌, ◌++◌, ◌+◌, ◌/◌, ◌<◌, ◌∙◌, ◌∷◌, ◌≡◌, ◌≤◌,
}

two_more : (n : ℕ) → 2 + n ≡ suc (suc n)
two_more n = omega arith

drop_two : (n a b : ℕ) (s : Bytes) → drop (2 + n) (a ∷ b ∷ s) ≡ drop n s
drop_two n a b s = ap (λ m. drop m (a ∷ b ∷ s)) (two_more n)

plus_zero : (n : ℕ) → n + 0 ≡ n
plus_zero n = omega arith

-- Each octet of the dump is read at its place.
octet_read_at :
    (left p oc : ℕ) (tmp : Tmp) (rest : Bytes)
    → AllOctets tmp
    → oc < left
    → octet2bin_check (drop (oc * 2) (hex_dump (tmp_octets left p tmp) ++ rest))
      ≡ pos (tmp (p + oc))
unfolding tmp_octets hex_dump hex02
octet_read_at zero p oc tmp rest bound l = absurd (omega arith)
octet_read_at (suc left) p zero tmp rest bound l =
    octet2bin_check-hex02 (tmp p) (hex_dump (tmp_octets left (p + 1) tmp) ++ rest) (bound p)
    ∙ ap (λ q. pos (tmp q)) (omega arith)
octet_read_at (suc left) p (suc oc) tmp rest bound l =
    let more = hex_dump (tmp_octets left (p + 1) tmp) ++ rest in
    ap octet2bin_check (
      ap (λ m. drop m (hex02 (tmp p) ++ more)) (omega arith)
      ∙ drop_two (oc * 2) (hex_digit (tmp p / 16)) (hex_digit (tmp p % 16)) more)
    ∙ octet_read_at left (p + 1) oc tmp rest bound (omega arith)
    ∙ ap (λ q. pos (tmp q)) (omega arith)

bits_from_lem :
    (tmp : Tmp) (left p bit c acc : ℕ)
    → ((k : ℕ) → k < left → bit_at tmp (p + k) ≡ bit_of c (bit + k))
    → bits_from tmp left p acc ≡ shifted_bits left bit c acc
unfolding bits_from
bits_from_lem tmp zero p bit c acc h = refl
bits_from_lem tmp (suc left) p bit c acc h =
    let first =
      ap (bit_at tmp) (sym (plus_zero p)) ∙ h 0 (omega arith) ∙ ap (bit_of c) (plus_zero bit) in
    ap (λ v. bits_from tmp left (p + 1) (shifted_in acc v)) first
    ∙ bits_from_lem tmp left (p + 1) (bit + 1) c (shifted_in acc (bit_of c bit)) (λ k l.
      ap (bit_at tmp) (omega arith) ∙ h (suc k) (omega arith) ∙ ap (bit_of c) (omega arith))

-- The array holds the characters of the text, from a bit on.
abbrev Holds : Tmp → Bytes → ℕ → Type 0
Holds tmp cs p =
    (j k : ℕ) → j < length cs → k < 7 → bit_at tmp (p + 7 * j + k) ≡ bit_of (get_or cs j 0) k

Holds-first :
    (tmp : Tmp) (c : ℕ) (cs : Bytes) (p : ℕ)
    → Holds tmp (c ∷ cs) p
    → (k : ℕ) → k < 7
    → bit_at tmp (p + k) ≡ bit_of c (0 + k)
Holds-first tmp c cs p h k l =
    ap (bit_at tmp) (omega arith) ∙ h 0 k (omega arith) l ∙ ap (bit_of c) (omega arith)

Holds-rest : (tmp : Tmp) (c : ℕ) (cs : Bytes) (p : ℕ) → Holds tmp (c ∷ cs) p → Holds tmp cs (p + 7)
Holds-rest tmp c cs p h j k lj lk = ap (bit_at tmp) (omega arith) ∙ h (suc j) k (omega arith) lk

chars_from_lem :
    (tmp : Tmp) (cs : Bytes) (p : ℕ)
    → All (λ c. c < 128) cs
    → Holds tmp cs p
    → chars_from tmp (length cs) p ≡ cs
unfolding chars_from
chars_from_lem tmp [] p s h = refl
chars_from_lem tmp (c ∷ cs) p (lc, s) h =
    let first = bits_from_lem tmp 7 p 0 c 0 (Holds-first tmp c cs p h) ∙ shifted_bits_lem c lc in
    let more = chars_from_lem tmp cs (p + 7) s (Holds-rest tmp c cs p h) in λ i. first i ∷ more i

-- The array of a text, and the PDU of it.
abbrev packed_tmp : Bytes → Tmp
packed_tmp text = put_text text 0 (λ p. 0)

packed_bound : (text : Bytes) → AllOctets (packed_tmp text)
packed_bound text = put_text-AllOctets text 0 (λ p. 0) (λ p. omega arith)

abbrev packed_pdu : Bytes → Bytes → Bytes
packed_pdu text rest =
    hex02 (length text)
    ++ (hex_dump (tmp_octets (last_position 0 (length text) + 1) 0 (packed_tmp text)) ++ rest)

enough_octets : (n oc : ℕ) → oc < (n * 7 + 7) / 8 → oc < last_position 0 n + 1
enough_octets n oc l = ground arith

packed_octet :
    (text rest : Bytes) (oc : ℕ)
    → oc < (length text * 7 + 7) / 8
    → octet2bin_check (drop (2 + oc * 2) (packed_pdu text rest)) ≡ pos (packed_tmp text oc)
unfolding hex02
packed_octet text rest oc l =
    let octets = last_position 0 (length text) + 1 in
    let more = hex_dump (tmp_octets octets 0 (packed_tmp text)) ++ rest in
    ap octet2bin_check
      (drop_two (oc * 2) (hex_digit (length text / 16)) (hex_digit (length text % 16)) more)
    ∙ octet_read_at octets 0 oc (packed_tmp text) rest (packed_bound text)
        (enough_octets (length text) oc l)
    ∙ ap (λ q. pos (packed_tmp text q)) (omega arith)

packed_chars :
    (text rest : Bytes)
    → All (λ c. c < 128) text
    → read_chars (length text) ((length text * 7 + 7) / 8) (packed_pdu text rest) 0 0 0 ≡ chars text
unfolding Current
packed_chars text rest septets =
    let tmp = packed_tmp text in
    read_chars_lem ((length text * 7 + 7) / 8) (packed_pdu text rest) tmp (packed_bound text)
      (packed_octet text rest) (length text) 0 0 0 (omega arith) (inl (refl, refl))
    ∙ ap chars (
        chars_from_lem tmp text 0 septets
          (λ j k lj lk. put_text_within text 0 j k (λ p. 0) (λ p. omega arith) lj lk))

minus_nothing : (n : ℕ) → sub_ℕ n 0 ≡ pos n
minus_nothing n = ground arith

text_unpacked :
    (text rest : Bytes)
    → All (λ c. c < 128) text
    → length text ≤ 160
    → pdu2text false (packed_pdu text rest)
      ≡ record { ret = pos (length text); errorpos = none; bytes = text; udh = []; udh_type = [] }
unfolding pdu2text text_of_septets text_behind read_header text_result
text_unpacked text rest septets fits =
    let octets = last_position 0 (length text) + 1 in
    let more = hex_dump (tmp_octets octets 0 (packed_tmp text)) ++ rest in
    ap (λ z. text_of_septets z false (packed_pdu text rest))
      (octet2bin_check-hex02 (length text) more (omega arith))
    ∙ ap (text_result (length text) 0 [] []) (packed_chars text rest septets)
    ∙ ap (λ n. record { ret = n; errorpos = none; bytes = text; udh = []; udh_type = [] })
        (minus_nothing (length text))

-- Up to 160 characters of 7 bits that `text2pdu` packs without a data header are what `pdu2text`
-- reads behind their number, whatever follows.
pub text_roundtrip :
    (text rest : Bytes)
    → All (λ c. c < 128) text
    → length text ≤ 160
    → let packed = text2pdu text none in
      pdu2text false (hex02 packed.0 ++ (packed.1 ++ rest))
      ≡ record { ret = pos (length text); errorpos = none; bytes = text; udh = []; udh_type = [] }
unfolding text2pdu udh_size udh_digits text_hex pdu2text text_of_septets text_behind read_header
    text_result
text_roundtrip text rest septets fits =
    ap (λ t. pdu2text false (hex02 (length t + 0) ++ (text_hex 0 t ++ rest)))
      (take-length 160 text fits)
    ∙ ap (λ n. pdu2text false (hex02 n ++ (text_hex 0 text ++ rest))) (plus_zero (length text))
    ∙ text_unpacked text rest septets fits
