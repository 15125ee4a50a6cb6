-- ===== src/Pdu/Packed.antt =====
-- What `text2pdu` puts where: bit `k` of character `j` is bit 7 j + k of the array.
use yate_datacard.Pdu.Bits.{AllOctets, bit_at, bit_at-set_bit, set_bit-AllOctets}
use yate_datacard.Pdu.Text.{Tmp, bit_of, put_bits, put_text, set_bit}
use yate_datacard.Prelude.{
  Bytes, [], ap, arith, get_or, length, refl, suc, true, zero, ℕ, ◌*◌, ◌+◌, ◌<◌, ◌==◌, ◌∙◌, ◌∷◌,
  ◌≡◌,
}

put_bits-AllOctets :
    (left bit c q : ℕ) (tmp : Tmp) → AllOctets tmp → AllOctets (put_bits left bit c q tmp)
unfolding put_bits
put_bits-AllOctets zero bit c q tmp h = h
put_bits-AllOctets (suc left) bit c q tmp h =
    put_bits-AllOctets left (bit + 1) c (q + 1) (set_bit q (bit_of c bit) tmp)
      (set_bit-AllOctets q (bit_of c bit) tmp (omega arith) h)

pub put_text-AllOctets :
    (cs : Bytes) (q : ℕ) (tmp : Tmp) → AllOctets tmp → AllOctets (put_text cs q tmp)
unfolding put_text
put_text-AllOctets [] q tmp h = h
put_text-AllOctets (c ∷ cs) q tmp h =
    put_text-AllOctets cs (q + 7) (put_bits 7 0 c q tmp) (put_bits-AllOctets 7 0 c q tmp h)

-- The bits in front stay.
put_bits_before :
    (left bit c q b : ℕ) (tmp : Tmp)
    → AllOctets tmp
    → b < q
    → bit_at (put_bits left bit c q tmp) b ≡ bit_at tmp b
unfolding put_bits
put_bits_before zero bit c q b tmp h l = refl
put_bits_before (suc left) bit c q b tmp h l =
    let set = set_bit-AllOctets q (bit_of c bit) tmp (omega arith) h in
    put_bits_before left (bit + 1) c (q + 1) b (set_bit q (bit_of c bit) tmp) set (omega arith)
    ∙ bit_at-set_bit q (bit_of c bit) b tmp (omega arith) h
    ∙ ground arith

same_bit : (q : ℕ) → ((q + 0) == q) ≡ true
same_bit q = ground arith

put_bits_within :
    (left bit c q k : ℕ) (tmp : Tmp)
    → AllOctets tmp
    → k < left
    → bit_at (put_bits left bit c q tmp) (q + k) ≡ bit_of c (bit + k)
unfolding put_bits
put_bits_within zero bit c q k tmp h l = absurd (omega arith)
put_bits_within (suc left) bit c q zero tmp h l =
    let set = set_bit-AllOctets q (bit_of c bit) tmp (omega arith) h in
    put_bits_before left (bit + 1) c (q + 1) (q + 0) (set_bit q (bit_of c bit) tmp) set
      (omega arith)
    ∙ bit_at-set_bit q (bit_of c bit) (q + 0) tmp (omega arith) h
    ∙ rw (same_bit q) (ap (bit_of c) (omega arith))
put_bits_within (suc left) bit c q (suc k) tmp h l =
    let set = set_bit-AllOctets q (bit_of c bit) tmp (omega arith) h in
    ap (bit_at (put_bits left (bit + 1) c (q + 1) (set_bit q (bit_of c bit) tmp))) (omega arith)
    ∙ put_bits_within left (bit + 1) c (q + 1) k (set_bit q (bit_of c bit) tmp) set (omega arith)
    ∙ ap (bit_of c) (omega arith)

put_text_before :
    (cs : Bytes) (q b : ℕ) (tmp : Tmp)
    → AllOctets tmp
    → b < q
    → bit_at (put_text cs q tmp) b ≡ bit_at tmp b
unfolding put_text
put_text_before [] q b tmp h l = refl
put_text_before (c ∷ cs) q b tmp h l =
    put_text_before cs (q + 7) b (put_bits 7 0 c q tmp) (put_bits-AllOctets 7 0 c q tmp h)
      (omega arith)
    ∙ put_bits_before 7 0 c q b tmp h l

pub put_text_within :
    (cs : Bytes) (q j k : ℕ) (tmp : Tmp)
    → AllOctets tmp
    → j < length cs
    → k < 7
    → bit_at (put_text cs q tmp) (q + 7 * j + k) ≡ bit_of (get_or cs j 0) k
unfolding put_text
put_text_within [] q j k tmp h l lk = absurd (omega arith)
put_text_within (c ∷ cs) q zero k tmp h l lk =
    let first = put_bits 7 0 c q tmp in
    ap (bit_at (put_text cs (q + 7) first)) (omega arith)
    ∙ put_text_before cs (q + 7) (q + k) first (put_bits-AllOctets 7 0 c q tmp h) (omega arith)
    ∙ put_bits_within 7 0 c q k tmp h lk
    ∙ ap (bit_of c) (omega arith)
put_text_within (c ∷ cs) q (suc j) k tmp h l lk =
    let first = put_bits 7 0 c q tmp in
    ap (bit_at (put_text cs (q + 7) first)) (omega arith)
    ∙ put_text_within cs (q + 7) j k first (put_bits-AllOctets 7 0 c q tmp h) (omega arith) lk
