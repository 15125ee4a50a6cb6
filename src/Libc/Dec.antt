-- ===== src/Libc/Dec.antt =====
-- `printf("%d", n)` for a number from 0 on.
use yate_datacard.Prelude.{
  Bool-cases, Bytes, [], arith, if◌then◌else◌, inl, inr, length, ltb, suc, zero, ℕ, ◌%◌, ◌+◌, ◌/◌,
  ◌∷◌, ◌≤◌,
}

-- The digits in front of `acc`; an `int` has ten of them at most.
dec_digits : ℕ → ℕ → Bytes → Bytes
dec_digits zero n acc = acc
dec_digits (suc places) n acc =
    let more = dec_digits places (n / 10) ((48 + n % 10) ∷ acc) in
    if ltb n 10 then (48 + n) ∷ acc else more

unfoldable pub dec : ℕ → Bytes
unfolding dec_digits
dec n = dec_digits 10 n []

length-dec_digits :
    (places n : ℕ) (acc : Bytes) → length (dec_digits places n acc) ≤ places + length acc
unfolding dec_digits
length-dec_digits zero n acc = omega arith
length-dec_digits (suc places) n acc = elim (Bool-cases (ltb n 10)) [
  | inl e ↦ rw e (omega arith)
  | inr e ↦ rw e (omega (arith, length-dec_digits places (n / 10) ((48 + n % 10) ∷ acc)))
]

pub length-dec : (n : ℕ) → length (dec n) ≤ 10
unfolding dec
length-dec n = omega (arith, length-dec_digits 10 n [])
