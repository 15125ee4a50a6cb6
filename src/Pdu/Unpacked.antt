-- ===== src/Pdu/Unpacked.antt =====
-- What `pdu2text` reads where: the characters are the bits of the octets, seven by seven.
use mathlib.Core.Path.{subst}
use yate_datacard.Pdu.Bits.{AllOctets, bit_at}
use yate_datacard.Pdu.Octet.{octet2bin_check}
use yate_datacard.Pdu.Text.{
  Tmp, add_char, chars, fetch, fetched, octet_fetched, on_fetched, on_septet, read_bits, read_chars,
  septet, shifted_in,
}
use yate_datacard.Prelude.{
  Bool-cases, Bytes, [], ap, arith, drop, false, inl, inr, leb, pos, refl, suc, true, zero, ℕ, ◌%◌,
  ◌*◌, ◌+◌, ◌-◌, ◌/◌, ◌<◌, ◌==◌, ◌∷◌, ◌≡◌, ◌≤◌, ◌⊎◌,
}

not_behind : (oc position : ℕ) → position < oc → leb oc position ≡ false
not_behind oc position l = ground arith

leb_self : (n : ℕ) → leb n n ≡ true
leb_self n = ground arith

mod_octet : (n : ℕ) → n < 256 → n % 256 ≡ n
mod_octet n l = omega arith

minus_suc : (a b : ℕ) → b < a → a - b ≡ suc (a - b - 1)
minus_suc a b l = omega arith

-- The bits of an array from a position on, shifted in.
unfoldable pub bits_from : Tmp → ℕ → ℕ → ℕ → ℕ
bits_from tmp zero p c = c
bits_from tmp (suc left) p c = bits_from tmp left (p + 1) (shifted_in c (bit_at tmp p))

-- The characters from a position on.
unfoldable pub chars_from : Tmp → ℕ → ℕ → Bytes
unfolding bits_from
chars_from tmp zero p = []
chars_from tmp (suc left) p = bits_from tmp 7 p 0 ∷ chars_from tmp left (p + 7)

-- Reading a PDU whose octets, behind the first one, are those of an array.
module _ (octets : ℕ) (pdu : Bytes) (tmp : Tmp) (bound : AllOctets tmp)
    (reads : (oc : ℕ) → oc < octets → octet2bin_check (drop (2 + oc * 2) pdu) ≡ pos (tmp oc)) where
  -- The octet of a bit position is the one read last, or the next one, at its first bit.
  unfoldable pub Current : ℕ → ℕ → ℕ → Type 0
  Current p oc binary = ((oc ≡ p / 8) × (p % 8 ≡ 0)) ⊎ ((oc ≡ p / 8 + 1) × (binary ≡ tmp (p / 8)))

  fetch_done :
      (left position oc binary : ℕ)
      → position < oc
      → fetch left pdu position oc binary ≡ fetched oc binary
  unfolding fetch
  fetch_done zero position oc binary l = refl
  fetch_done (suc left) position oc binary l = rw (not_behind oc position l)

  fetch_next :
      (left position binary : ℕ)
      → position < octets
      → fetch (suc left) pdu position position binary ≡ fetched (position + 1) (tmp position)
  unfolding fetch octet_fetched
  fetch_next left position binary l =
      rw (leb_self position, reads position l, mod_octet (tmp position) (bound position))
        (fetch_done left position (position + 1) (tmp position) (omega arith))

  fetch_lem :
      (p oc binary : ℕ)
      → p / 8 < octets
      → Current p oc binary
      → fetch (octets - oc) pdu (p / 8) oc binary ≡ fetched (p / 8 + 1) (tmp (p / 8))
  unfolding Current
  fetch_lem p oc binary l (inl (e, z)) =
      rw (e, minus_suc octets (p / 8) l) (fetch_next (octets - p / 8 - 1) (p / 8) binary l)
  fetch_lem p oc binary l (inr (e, b)) =
      rw (e, b) (fetch_done (octets - (p / 8 + 1)) (p / 8) (p / 8 + 1) (tmp (p / 8)) (omega arith))

  Current-next : (p : ℕ) → Current (p + 1) (p / 8 + 1) (tmp (p / 8))
  unfolding Current
  Current-next p = elim (Bool-cases ((p + 1) % 8 == 0)) [
    | inl e ↦ inl (ground arith, ground arith)
    | inr e ↦ inr (ground arith, ap tmp (ground arith))
  ]

  read_bits_lem :
      (left p oc binary c : ℕ)
      → p + left ≤ octets * 8
      → Current p oc binary
      → (oc' binary' : ℕ) × (read_bits left octets pdu p oc binary c
          ≡ septet (bits_from tmp left p c) oc' binary')
        × Current (p + left) oc' binary'
  unfolding read_bits on_fetched bits_from
  read_bits_lem zero p oc binary c l h =
      (oc, binary, refl, subst (λ x. Current x oc binary) (omega arith) h)
  read_bits_lem (suc left) p oc binary c l h =
      let (oc', binary', e, h') =
        read_bits_lem left (p + 1) (p / 8 + 1) (tmp (p / 8)) (shifted_in c (bit_at tmp p))
          (omega arith) (Current-next p) in
      (
        oc',
        binary',
        rw (fetch_lem p oc binary (omega arith) h) e,
        subst (λ x. Current x oc' binary') (omega arith) h',
      )

  pub read_chars_lem :
      (left p oc binary : ℕ)
      → p + 7 * left ≤ octets * 8
      → Current p oc binary
      → read_chars left octets pdu p oc binary ≡ chars (chars_from tmp left p)
  unfolding read_chars on_septet add_char chars_from
  read_chars_lem zero p oc binary l h = refl
  read_chars_lem (suc left) p oc binary l h =
      let (oc', binary', e, h') = read_bits_lem 7 p oc binary 0 (omega arith) h in
      rw (e, read_chars_lem left (p + 7) oc' binary' (omega arith) h')
