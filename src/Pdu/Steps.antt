-- ===== src/Pdu/Steps.antt =====
-- What a single step of the parser does on octets that are there.
use mathlib.Core.Path.{subst}
use yate_datacard.Libc.Hex.{hex02}
use yate_datacard.Pdu.Laws.{octet2bin_check-hex02}
use yate_datacard.Pdu.State.{
  Action, Outcome, Parser, octet, overrun, parsed, refuse_if, refused, skip, too_short, warn_if,
  ◌>>=◌,
}
use yate_datacard.Prelude.{
  Bool, Bytes, ap, arith, drop, drop-append, false, if◌then◌else◌, leb, length, length-append,
  le→ltb, negsuc, pos, refl, true, ℕ, ◌++◌, ◌<◌, ◌∙◌, ◌≡◌, ◌≤◌,
}

-- The parser in front of another text.
abbrev pub in_front : Parser → Bytes → Parser
in_front p rest = record p { pdu_ptr = rest }

-- A step that succeeds is followed by what comes behind it.
pub then_step :
    {A B : Type 0} (m : Action A) (k : A → Action B) (p : Parser) {q : Parser} {a : A}
    {r : Outcome B}
    → m p ≡ parsed a q
    → k a q ≡ r
    → (m >>= k) p ≡ r
unfolding ◌>>=◌
then_step m k p here behind =
    ap
      (λ (o : Outcome _). elim o [ parsed b s ↦ k b s | refused e ↦ refused e | overrun ↦ overrun ])
      here
    ∙ behind

le→leb : (a b : ℕ) → a ≤ b → leb a b ≡ true
le→leb a b l = ground arith

skip_enough :
    (n : ℕ) (p : Parser)
    → n ≤ length p.pdu_ptr
    → skip n p ≡ parsed tt (record p { pdu_ptr = drop n p.pdu_ptr })
skip_enough n p l =
    ap (λ b. if b then parsed tt (record p { pdu_ptr = drop n p.pdu_ptr }) else overrun)
      (le→leb n (length p.pdu_ptr) l)

pub skip_front :
    (n : ℕ) (s rest : Bytes) (p : Parser)
    → length s ≡ n
    → skip n (in_front p (s ++ rest)) ≡ parsed tt (in_front p rest)
skip_front n s rest p e =
    subst (λ m. skip m (in_front p (s ++ rest)) ≡ parsed tt (in_front p rest)) e
      (skip_enough (length s) (in_front p (s ++ rest)) (omega (arith, length-append s rest))
        ∙ ap (λ r. parsed tt (in_front p r)) (drop-append s rest))

pub octet_front :
    (e : Bytes) (c : ℕ) (rest : Bytes) (p : Parser)
    → c < 256
    → octet e (in_front p (hex02 c ++ rest)) ≡ parsed c (in_front p (hex02 c ++ rest))
octet_front e c rest p l =
    ap (λ z. elim z [ pos n ↦ parsed n (in_front p (hex02 c ++ rest)) | negsuc n ↦ refused e ])
      (octet2bin_check-hex02 c rest l)

pub too_short_not :
    (n : ℕ) (e : Bytes) (p : Parser) → n ≤ length p.pdu_ptr → too_short n e p ≡ parsed tt p
too_short_not n e p l = rw (le→ltb (length p.pdu_ptr) n l) refl

pub skip_octet :
    (c : ℕ) (rest : Bytes) (p : Parser)
    → skip 2 (in_front p (hex02 c ++ rest)) ≡ parsed tt (in_front p rest)
unfolding hex02
skip_octet c rest p = skip_front 2 (hex02 c) rest p refl

pub refuse_if_not : (b : Bool) (e : Bytes) (p : Parser) → b ≡ false → refuse_if b e p ≡ parsed tt p
refuse_if_not b e p h = rw h refl

pub warn_if_not : (b : Bool) (e : Bytes) (p : Parser) → b ≡ false → warn_if b e p ≡ parsed tt p
warn_if_not b e p h = rw h refl
