-- ===== src/Pdu/Bits.antt =====
-- The bits of an octet.
use yate_datacard.Pdu.Text.{Tmp, bit_of, put_bit, set_bit, shifted_in}
use yate_datacard.Prelude.{
  ==_iff, Bool, Bool-cases, and_both, ap, arith, below, below-elim, false, if◌then◌else◌, inl, inr,
  ltb, refl, suc, true, zero, ℕ, ◌%◌, ◌&&◌, ◌+◌, ◌/◌, ◌<◌, ◌==◌, ◌∙◌, ◌≡◌, ◌≢◌,
}

-- One bit is set to `v`, and the others stay.
put_check : ℕ → ℕ → ℕ → ℕ → Bool
put_check k j v byte =
    bit_of (put_bit byte k v) j == (if j == k then v else bit_of byte j)
    && ltb (put_bit byte k v) 256

put_checked : below 8 (λ k. below 8 (λ j. below 2 (λ v. below 256 (put_check k j v)))) ≡ true
unfolding below put_check
put_checked = refl

pub put_bit_lem :
    (k j v byte : ℕ)
    → k < 8
    → j < 8
    → v < 2
    → byte < 256
    → (bit_of (put_bit byte k v) j ≡ (if j == k then v else bit_of byte j))
      × (put_bit byte k v < 256)
unfolding put_check
put_bit_lem k j v byte lk lj lv lb =
    let at_k =
      below-elim 8 (λ k. below 8 (λ j. below 2 (λ v. below 256 (put_check k j v)))) k put_checked
        lk in
    let at_j = below-elim 8 (λ j. below 2 (λ v. below 256 (put_check k j v))) j at_k lj in
    let at_v = below-elim 2 (λ v. below 256 (put_check k j v)) v at_j lv in
    let both =
      and_both (bit_of (put_bit byte k v) j == (if j == k then v else bit_of byte j))
        (ltb (put_bit byte k v) 256) (below-elim 256 (put_check k j v) byte at_v lb) in
    (
      (==_iff (bit_of (put_bit byte k v) j) (if j == k then v else bit_of byte j)).0 both.0,
      ground arith,
    )

-- Seven bits, the lowest one first, make the character again.
shift_check : ℕ → Bool
shift_check c =
    shifted_in
      (shifted_in
        (shifted_in
          (shifted_in
            (shifted_in (shifted_in (shifted_in 0 (bit_of c 0)) (bit_of c 1)) (bit_of c 2))
            (bit_of c 3))
          (bit_of c 4))
        (bit_of c 5))
      (bit_of c 6)
    == c

shift_checked : below 128 shift_check ≡ true
unfolding below shift_check
shift_checked = refl

-- The first `n` bits of a character, shifted in.
abbrev pub shifted_bits : ℕ → ℕ → ℕ → ℕ → ℕ
shifted_bits zero bit c acc = acc
shifted_bits (suc n) bit c acc = shifted_bits n (bit + 1) c (shifted_in acc (bit_of c bit))

pub shifted_bits_lem : (c : ℕ) → c < 128 → shifted_bits 7 0 c 0 ≡ c
unfolding shift_check
shifted_bits_lem c l =
    (==_iff (shifted_bits 7 0 c 0) c).0 (below-elim 128 shift_check c shift_checked l)

-- A bit of an array of octets.
abbrev pub bit_at : Tmp → ℕ → ℕ
bit_at tmp b = bit_of (tmp (b / 8)) (b % 8)

abbrev pub AllOctets : Tmp → Type 0
AllOctets tmp = (p : ℕ) → tmp p < 256

bit_bound : (n k : ℕ) → bit_of n k < 2
bit_bound n k = omega arith

same_position : (q b : ℕ) → b / 8 ≡ q / 8 → ((b % 8) == (q % 8)) ≡ (b == q)
same_position q b e = ground arith

other_position : (q b : ℕ) → b / 8 ≢ q / 8 → (b == q) ≡ false
other_position q b e = ground arith

pub set_bit-AllOctets : (q v : ℕ) (tmp : Tmp) → v < 2 → AllOctets tmp → AllOctets (set_bit q v tmp)
unfolding set_bit
set_bit-AllOctets q v tmp lv h p = elim (Bool-cases (p == q / 8)) [
  | inl e ↦ rw e (put_bit_lem (q % 8) 0 v (tmp p) (omega arith) (omega arith) lv (h p)).1
  | inr e ↦ rw e (h p)
]

pub bit_at-set_bit :
    (q v b : ℕ) (tmp : Tmp)
    → v < 2
    → AllOctets tmp
    → bit_at (set_bit q v tmp) b ≡ (if b == q then v else bit_at tmp b)
unfolding set_bit
bit_at-set_bit q v b tmp lv h = elim (Bool-cases ((b / 8) == (q / 8))) [
  | inl e ↦ rw e (
      (put_bit_lem (q % 8) (b % 8) v (tmp (b / 8)) (omega arith) (omega arith) lv (h (b / 8))).0
      ∙ ap (λ t. if t then v else bit_at tmp b) (same_position q b ((==_iff (b / 8) (q / 8)).0 e)))
  | inr e ↦ rw (e, other_position q b (ground arith))
]
