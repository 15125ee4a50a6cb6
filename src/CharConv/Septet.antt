-- ===== src/CharConv/Septet.antt =====
-- An octet of packed 7-bit text: the upper bits of a character, and the lower ones of the next.
use Prim.Native.Nat.{bit_or}
use yate_datacard.CharConv.{septet_octet, shift_right, unpacked}
use yate_datacard.Prelude.{
  ==_iff, Bool, and_both, ap, arith, below, below-elim, lt→ltb, refl, suc, sym, true, zero, ℕ, ◌%◌,
  ◌&&◌, ◌*◌, ◌+◌, ◌-◌, ◌/◌, ◌<◌, ◌==◌, ◌^◌, ◌∙◌, ◌≡◌,
}

-- The bits below a power of two, and those from there on, put together again.
or_check : ℕ → ℕ → Bool
or_check k x =
    (bit_or (x % 2 ^ k) (x / 2 ^ k * 2 ^ k) == x) && (bit_or (x / 2 ^ k * 2 ^ k) (x % 2 ^ k) == x)

or_checked : (k : ℕ) → k < 8 → below 256 (or_check k) ≡ true
unfolding below or_check
or_checked k l = below-elim 8 (λ k. below 256 (or_check k)) k refl l

or_parts :
    (k x : ℕ)
    → k < 8
    → x < 256
    → (bit_or (x % 2 ^ k) (x / 2 ^ k * 2 ^ k) ≡ x) × (bit_or (x / 2 ^ k * 2 ^ k) (x % 2 ^ k) ≡ x)
unfolding or_check
or_parts k x lk lx =
    let h =
      and_both (bit_or (x % 2 ^ k) (x / 2 ^ k * 2 ^ k) == x)
        (bit_or (x / 2 ^ k * 2 ^ k) (x % 2 ^ k) == x)
        (below-elim 256 (or_check k) x (or_checked k lk) lx) in
    (
      (==_iff (bit_or (x % 2 ^ k) (x / 2 ^ k * 2 ^ k)) x).0 h.0,
      (==_iff (bit_or (x / 2 ^ k * 2 ^ k) (x % 2 ^ k)) x).0 h.1,
    )

-- The octet of two characters, as a sum.
abbrev pub octet_sum : ℕ → ℕ → ℕ → ℕ
octet_sum s c next = c / 2 ^ s + next * 2 ^ (7 - s) % 256

-- What is read from it: the upper bits of the one, and the lower bits of the other.
abbrev pub SumParts : ℕ → Type 0
SumParts s =
    (c next : ℕ)
    → c < 128
    → next < 128
    → (octet_sum s c next < 256)
      × (octet_sum s c next % 2 ^ (7 - s) ≡ c / 2 ^ s)
      × (octet_sum s c next / 2 ^ (7 - s) * 2 ^ (7 - s) ≡ next * 2 ^ (7 - s) % 256)
      × (octet_sum s c next * 2 ^ (s + 1) % 256 / 2 ≡ c / 2 ^ s * 2 ^ s)
      × (octet_sum s c next / 2 ^ (7 - s) ≡ next % 2 ^ (s + 1))

pub sum_parts : (s : ℕ) → s < 7 → SumParts s
sum_parts zero l c next lc ln = ground arith
sum_parts (suc zero) l c next lc ln = ground arith
sum_parts (suc (suc zero)) l c next lc ln = ground arith
sum_parts (suc (suc (suc zero))) l c next lc ln = ground arith
sum_parts (suc (suc (suc (suc zero)))) l c next lc ln = ground arith
sum_parts (suc (suc (suc (suc (suc zero))))) l c next lc ln = ground arith
sum_parts (suc (suc (suc (suc (suc (suc zero)))))) l c next lc ln = ground arith
sum_parts (suc (suc (suc (suc (suc (suc (suc n))))))) l c next lc ln = absurd (omega arith)

pub septet_octet-octet_sum :
    (s c next : ℕ) → s < 7 → c < 128 → next < 128 → septet_octet s c next ≡ octet_sum s c next
septet_octet-octet_sum s c next l lc ln =
    let parts = sum_parts s l c next lc ln in
    let low = sym parts.1 in
    let high = sym parts.2 in
    rw (lt→ltb c 128 lc) (
      (λ i. bit_or (low i) (high i))
      ∙ (or_parts (7 - s) (octet_sum s c next) (omega arith) parts.0).0)

six_shift : (s : ℕ) → 8 - (s + 1) ≡ 7 - s
six_shift s = omega arith

pub octet_sum_zero : (s c : ℕ) → octet_sum s c 0 ≡ c / 2 ^ s
octet_sum_zero s c = omega arith

-- The first character comes back from its octet, and the lower bits of the next one are kept.
pub unpacked_first :
    (s c next : ℕ)
    → s < 7
    → c < 128
    → next < 128
    → (unpacked (s + 1) (c % 2 ^ s) (septet_octet s c next) ≡ c)
      × (septet_octet s c next / 2 ^ (8 - (s + 1)) ≡ next % 2 ^ (s + 1))
unpacked_first s c next l lc ln =
    let parts = sum_parts s l c next lc ln in
    let whole = septet_octet-octet_sum s c next l lc ln in
    (
      ap (λ o. unpacked (s + 1) (c % 2 ^ s) o) whole
          ∙ ap (λ a. bit_or a (c % 2 ^ s)) parts.3
          ∙ (or_parts s c (omega arith) (omega arith)).1,
      ap (λ o. o / 2 ^ (8 - (s + 1))) whole
          ∙ ap (λ e. octet_sum s c next / 2 ^ e) (six_shift s)
          ∙ parts.4,
    )

-- The last character alone.
pub unpacked_last : (s c : ℕ) → s < 7 → c < 128 → unpacked (s + 1) (c % 2 ^ s) (shift_right c s) ≡ c
unpacked_last s c l lc =
    let parts = sum_parts s l c 0 lc (omega arith) in
    rw (lt→ltb c 128 lc) (
      ap (λ o. unpacked (s + 1) (c % 2 ^ s) o) (sym (octet_sum_zero s c))
      ∙ ap (λ a. bit_or a (c % 2 ^ s)) parts.3
      ∙ (or_parts s c (omega arith) (omega arith)).1)
