-- ===== src/CharConv/Unpack.antt =====
-- Unpacking of packed 7-bit text, by induction on the text.
use mathlib.Core.Path.{subst}
use yate_datacard.CharConv.{pack_7bit, shift_right, unpack_7bit}
use yate_datacard.CharConv.Septet.{unpacked_first, unpacked_last}
use yate_datacard.Prelude.{
  All, Bytes, [], ap, arith, false, if◌then◌else◌, inl, inr, length, ltb, lt→ltb, sym, ℕ, ◌%◌, ◌++◌,
  ◌+◌, ◌/◌, ◌<◌, ◌==◌, ◌^◌, ◌∙◌, ◌∷◌, ◌≡◌, ◌⊎◌,
}

-- The NUL that the text is followed by, where its last octet has room for one.
unfoldable pub nul_tail : ℕ → Bytes
nul_tail n = if ltb (n % 8) 6 then [] else 0 ∷ []

nul_tail_eight : (n : ℕ) → nul_tail (8 + n) ≡ nul_tail n
unfolding nul_tail
nul_tail_eight n = ap (λ m. if ltb m 6 then [] else 0 ∷ []) (omega arith)

pub ne_seven : (n : ℕ) → n < 7 → (n == 7) ≡ false
ne_seven n l = ground arith

before_six_last :
    (s c : ℕ)
    → s < 6
    → c < 128
    → unpack_7bit (s + 1) (c % 2 ^ s) (pack_7bit s c []) ≡ c ∷ nul_tail s
unfolding unpack_7bit pack_7bit nul_tail
before_six_last s c l lc =
    rw (ne_seven (s + 1) (omega arith), lt→ltb (s % 8) 6 (omega arith))
      (ap (λ x. x ∷ []) (unpacked_last s c (omega arith) lc))

before_six :
    (s c next : ℕ) (rest text : Bytes)
    → s < 6
    → c < 128
    → next < 128
    → unpack_7bit (s + 1 + 1) (next % 2 ^ (s + 1)) (pack_7bit (s + 1) next rest) ≡ text
    → unpack_7bit (s + 1) (c % 2 ^ s) (pack_7bit s c (next ∷ rest)) ≡ c ∷ text
unfolding unpack_7bit pack_7bit
before_six s c next rest text l lc ln e =
    let both = unpacked_first s c next (omega arith) lc ln in
    let more = ap (λ b. unpack_7bit (s + 1 + 1) b (pack_7bit (s + 1) next rest)) both.1 ∙ e in
    rw (ne_seven s (omega arith), ne_seven (s + 1) (omega arith)) (λ i. both.0 i ∷ more i)

six_none_kept : (c : ℕ) → c < 128 → shift_right c 6 / 2 ≡ 0
six_none_kept c lc = ground arith

at_six_last : (c : ℕ) → c < 128 → unpack_7bit 7 (c % 64) (pack_7bit 6 c []) ≡ c ∷ 0 ∷ []
unfolding unpack_7bit pack_7bit
at_six_last c lc =
    let none_kept = six_none_kept c lc in
    let first = unpacked_last 6 c (omega arith) lc in λ i. first i ∷ none_kept i ∷ []

mod_128 : (c : ℕ) → c < 128 → c % 128 ≡ c
mod_128 c l = omega arith

at_six :
    (c next : ℕ) (rest text : Bytes)
    → c < 128
    → next < 128
    → unpack_7bit 1 0 (pack_7bit 7 next rest) ≡ text
    → unpack_7bit 7 (c % 64) (pack_7bit 6 c (next ∷ rest)) ≡ c ∷ next ∷ text
unfolding unpack_7bit pack_7bit
at_six c next rest text lc ln e =
    let both = unpacked_first 6 c next (omega arith) lc ln in
    let kept = both.1 ∙ mod_128 next ln in λ i. both.0 i ∷ kept i ∷ e i

pub seven_shift : (c : ℕ) → c < 128 → shift_right c 7 ≡ 0
seven_shift c lc = ground arith

at_seven_last : (c : ℕ) → c < 128 → unpack_7bit 1 0 (pack_7bit 7 c []) ≡ 0 ∷ []
unfolding unpack_7bit pack_7bit
at_seven_last c lc = rw (seven_shift c lc)

pub mod_one : (c : ℕ) → c % 1 ≡ 0
mod_one c = omega arith

at_seven :
    (c next : ℕ) (rest text : Bytes)
    → unpack_7bit 1 (next % 1) (pack_7bit 0 next rest) ≡ text
    → unpack_7bit 1 0 (pack_7bit 7 c (next ∷ rest)) ≡ text
unfolding unpack_7bit pack_7bit
at_seven c next rest text e =
    subst (λ b. unpack_7bit 1 b (pack_7bit 0 next rest) ≡ text) (mod_one next) e

-- Unpacking from the shift and the bits that the octets before have left.
abbrev pub Unpacked : ℕ → ℕ → Bytes → Bytes → Type 0
Unpacked s c rest text = unpack_7bit (s + 1) (c % 2 ^ s) (pack_7bit s c rest) ≡ text

abbrev pub Unpacks : ℕ → ℕ → Bytes → Type 0
Unpacks s c rest = Unpacked s c rest (c ∷ rest ++ nul_tail (s + length rest))

shift_cases : (s : ℕ) → s < 7 → (s < 6) ⊎ (s ≡ 6)
shift_cases s l = ground arith

unpack-pack_six_two : (c next : ℕ) → c < 128 → next < 128 → Unpacks 6 c (next ∷ [])
unfolding nul_tail
unpack-pack_six_two c next lc ln = at_six c next [] (0 ∷ []) lc ln (at_seven_last next ln)

unpack-pack_six :
    (c next next' : ℕ) (rest : Bytes)
    → c < 128
    → next < 128
    → Unpacks 0 next' rest
    → Unpacks 6 c (next ∷ next' ∷ rest)
unpack-pack_six c next next' rest lc ln e =
    let text = next' ∷ rest ++ nul_tail (0 + length rest) in
    subst (λ t. Unpacked 6 c (next ∷ next' ∷ rest) (c ∷ next ∷ next' ∷ rest ++ t))
      (sym (nul_tail_eight (0 + length rest)) ∙ ap nul_tail (omega arith))
      (at_six c next (next' ∷ rest) text lc ln (at_seven next next' rest text e))

before_six_step :
    (s c next : ℕ) (rest : Bytes)
    → s < 6
    → c < 128
    → next < 128
    → Unpacks (s + 1) next rest
    → Unpacks s c (next ∷ rest)
before_six_step s c next rest l lc ln e =
    subst (λ n. Unpacked s c (next ∷ rest) (c ∷ next ∷ rest ++ nul_tail n)) (omega arith)
      (before_six s c next rest (next ∷ rest ++ nul_tail (s + 1 + length rest)) l lc ln e)

pub unpack-pack :
    (s c : ℕ) (rest : Bytes) → s < 7 → All (λ c. c < 128) (c ∷ rest) → Unpacks s c rest
unfolding nul_tail
unpack-pack s c [] l (lc, lr) = elim (shift_cases s l) [
  | inl h ↦ before_six_last s c h lc ∙ ap (λ n. c ∷ nul_tail n) (omega arith)
  | inr h ↦ subst (λ s. Unpacks s c []) (sym h) (at_six_last c lc)
]
unpack-pack s c (next ∷ []) l (lc, (ln, lr)) = elim (shift_cases s l) [
  | inl h ↦ before_six_step s c next [] h lc ln (unpack-pack (s + 1) next [] (omega arith) (ln, lr))
  | inr h ↦ subst (λ s. Unpacks s c (next ∷ [])) (sym h) (unpack-pack_six_two c next lc ln)
]
unpack-pack s c (next ∷ next' ∷ rest) l (lc, (ln, (ln', lr))) = elim (shift_cases s l) [
  | inl h ↦
      before_six_step s c next (next' ∷ rest) h lc ln
        (unpack-pack (s + 1) next (next' ∷ rest) (omega arith) (ln, (ln', lr)))
  | inr h ↦
      subst (λ s. Unpacks s c (next ∷ next' ∷ rest)) (sym h)
        (unpack-pack_six c next next' rest lc ln (unpack-pack 0 next' rest (omega arith) (ln', lr)))
]
