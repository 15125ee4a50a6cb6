-- ===== src/Pdu/Numbers.antt =====
-- The number of an address, as `generate` writes it and as `parse` reads it.
use mathlib.Core.Path.{subst}
use yate_datacard.Libc.Scan.{is_digit}
use yate_datacard.Pdu.Address.{all_digits, keep_number, numeric, without_f}
use yate_datacard.Pdu.Generate.{swapped_number}
use yate_datacard.Pdu.Laws.{swapchars-swapchars}
use yate_datacard.Pdu.Octet.{swapchars}
use yate_datacard.Pdu.State.{Parser, parsed, ◌>>=◌}
use yate_datacard.Prelude.{
  Bool, Bool-cases, Bytes, [], and_both, ap, arith, false, get_or, if◌then◌else◌, inl, inr, length,
  length-append, ltb, not, refl, suc, take, take-append, true, zero, ℕ, ◌%◌, ◌&&◌, ◌++◌, ◌+◌, ◌-◌,
  ◌==◌, ◌∙◌, ◌∷◌, ◌≡◌,
}

length-swapchars : (s : Bytes) → length (swapchars s) ≡ length s
unfolding swapchars
length-swapchars [] = refl
length-swapchars (a ∷ []) = refl
length-swapchars (a ∷ b ∷ rest) = omega (arith, length-swapchars rest)

-- The digits with the F that fills the last octet.
abbrev padded : Bytes → Bytes
padded digits = if length digits % 2 == 1 then digits ++ b'F' ∷ [] else digits

length-padded : (digits : Bytes) → length (padded digits) ≡ length digits + length digits % 2
length-padded digits = elim (Bool-cases (length digits % 2 == 1)) [
  | inl e ↦ rw e (ground (arith, length-append digits (b'F' ∷ [])))
  | inr e ↦ rw e (ground arith)
]

last_of : (xs : Bytes) (c : ℕ) → get_or (xs ++ c ∷ []) (length xs) 0 ≡ c
last_of [] c = refl
last_of (x ∷ xs) c = last_of xs c

digit_is_no_f : (xs : Bytes) (n : ℕ) → all_digits xs ≡ true → (get_or xs n 0 == b'F') ≡ false
unfolding is_digit
digit_is_no_f [] n h = refl
digit_is_no_f (x ∷ xs) zero h = ground arith
digit_is_no_f (x ∷ xs) (suc n) h = digit_is_no_f xs n (and_both (is_digit x) (all_digits xs) h).1

-- Behind the swap the F is found where there is one, and dropped.
odd_end : (n : ℕ) → (n % 2 == 1) ≡ true → n + n % 2 - 1 ≡ n
odd_end n h = ground arith

even_end : (n : ℕ) → (n % 2 == 1) ≡ false → n + n % 2 ≡ n
even_end n h = ground arith

is_f_end : (digits : Bytes) → Bool
is_f_end digits = get_or (padded digits) (length digits + length digits % 2 - 1) 0 == b'F'

is_f_end_lem :
    (digits : Bytes) → all_digits digits ≡ true → is_f_end digits ≡ (length digits % 2 == 1)
unfolding is_f_end
is_f_end_lem digits h = elim (Bool-cases (length digits % 2 == 1)) [
  | inl e ↦ rw (e, odd_end (length digits) e, last_of digits b'F') refl
  | inr e ↦ rw (e, digit_is_no_f digits (length digits + length digits % 2 - 1) h) refl
]

without_f-padded :
    (digits : Bytes)
    → all_digits digits ≡ true
    → without_f (length digits + length digits % 2 - 1) (padded digits) ≡ digits
unfolding is_f_end
without_f-padded digits h = elim (Bool-cases (length digits % 2 == 1)) [
  | inl e ↦ rw (e, odd_end (length digits) e, last_of digits b'F') (take-append digits (b'F' ∷ []))
  | inr e ↦ rw (e, digit_is_no_f digits (length digits + length digits % 2 - 1) h) refl
]

pub length-swapped_number :
    (digits : Bytes) → length (swapped_number digits) ≡ length digits + length digits % 2
unfolding swapped_number
length-swapped_number digits = length-swapchars (padded digits) ∙ length-padded digits

swapped_taken :
    (digits rest : Bytes)
    → swapchars (take (length digits + length digits % 2) (swapped_number digits ++ rest))
      ≡ padded digits
unfolding swapped_number
swapped_taken digits rest =
    subst (λ n. swapchars (take n (swapchars (padded digits) ++ rest)) ≡ padded digits)
      (length-swapchars (padded digits) ∙ length-padded digits)
      (ap swapchars (take-append (swapchars (padded digits)) rest)
        ∙ swapchars-swapchars (padded digits))

keep_number_quiet :
    (size padding : ℕ) (is_f : Bool) (digits : Bytes) (p : Parser)
    → (padding == 1 && not is_f) ≡ false
    → (padding == 0 && is_f) ≡ false
    → all_digits digits ≡ true
    → ltb (size + padding) 64 ≡ true
    → keep_number size padding is_f digits p ≡ parsed tt (record p { number = digits })
unfolding keep_number ◌>>=◌
keep_number_quiet size padding is_f digits p odd even h l = rw (odd, even, h, l) refl

odd_f : (n : ℕ) → (n % 2 == 1 && not (n % 2 == 1)) ≡ false
odd_f n = ground arith

even_f : (n : ℕ) → (n % 2 == 0 && n % 2 == 1) ≡ false
even_f n = ground arith

numeric_padded :
    (digits : Bytes) (p : Parser)
    → all_digits digits ≡ true
    → ltb (length digits + length digits % 2) 64 ≡ true
    → keep_number
        (length digits)
        (length digits % 2)
        (is_f_end digits)
        (without_f (length digits + length digits % 2 - 1) (padded digits))
        p
      ≡ parsed tt (record p { number = digits })
numeric_padded digits p h l =
    rw (is_f_end_lem digits h, without_f-padded digits h)
      (keep_number_quiet (length digits) (length digits % 2) (length digits % 2 == 1) digits p
        (odd_f (length digits)) (even_f (length digits)) h l)

-- The number that `generate` writes in front of anything is the number that `parse` reads there,
-- without a warning, where the octets of it have less than 64 digits.
pub numeric-swapped_number :
    (digits rest : Bytes) (p : Parser)
    → all_digits digits ≡ true
    → ltb (length digits + length digits % 2) 64 ≡ true
    → p.pdu_ptr ≡ swapped_number digits ++ rest
    → numeric (length digits) (length digits % 2) p ≡ parsed tt (record p { number = digits })
unfolding numeric is_f_end ◌>>=◌
numeric-swapped_number digits rest p h l e =
    ap
      (λ text.
        keep_number (length digits) (length digits % 2)
          (get_or text (length digits + length digits % 2 - 1) 0 == b'F')
          (without_f (length digits + length digits % 2 - 1) text) p)
      (ap (λ s. swapchars (take (length digits + length digits % 2) s)) e
        ∙ swapped_taken digits rest)
    ∙ numeric_padded digits p h l
