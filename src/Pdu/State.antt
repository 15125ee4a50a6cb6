-- ===== src/Pdu/State.antt =====
-- `PDU` (pdu.h, pdu.cpp) while it parses: its fields, and the ends that a method has.
use yate_datacard.Pdu.Octet.{octet2bin_check}
use yate_datacard.Prelude.{
  Bool, Bytes, [], drop, false, if◌then◌else◌, leb, length, ltb, negsuc, pos, ℕ, ℤ,
}

-- The fields that `parse` writes. `m_pdu_ptr` is what stands behind it; a text is what stands in
-- front of its NUL.
pub record Parser : Type 0 where
  pub pdu_ptr : Bytes
  pub number : Bytes
  pub number_type : Bytes
  pub smsc : Bytes
  pub message : Bytes
  pub date : Bytes
  pub time : Bytes
  pub udh_type : Bytes
  pub udh_data : Bytes
  pub err : Bytes
  pub with_udh : Bool
  pub report : Bool
  pub is_statusreport : Bool
  pub replace : ℕ
  pub alphabet : ℤ
  pub flash : Bool

-- The constructor on a text, and `reset`.
abbrev pub reset_parser : Bytes → Parser
reset_parser pdu = record {
  pdu_ptr = pdu;
  number = [];
  number_type = [];
  smsc = [];
  message = [];
  date = [];
  time = [];
  udh_type = [];
  udh_data = [];
  err = [];
  with_udh = false;
  report = false;
  is_statusreport = false;
  replace = 0;
  alphabet = negsuc 0;
  flash = false;
}

-- A method goes on; it returns false with `m_err`; or it leaves the memory of a text, and nothing
-- is known of what follows.
pub data Outcome {ℓ} (A : Type ℓ) : Type ℓ where
  parsed : A → Parser → Outcome A
  refused : Bytes → Outcome A
  overrun : Outcome A

abbrev pub Action {ℓ} : Type ℓ → Type ℓ
Action A = Parser → Outcome A

infixl 5 ◌>>=◌ ◌>>◌
unfoldable pub ◌>>=◌ : {A B : Type 0} → Action A → (A → Action B) → Action B
◌>>=◌ m f p = elim (m p) [ parsed a p' ↦ f a p' | refused e ↦ refused e | overrun ↦ overrun ]

abbrev pub ◌>>◌ : {A B : Type 0} → Action A → Action B → Action B
m >> k = m >>= λ _. k

abbrev pub pure : {A : Type 0} → A → Action A
pure a p = parsed a p

abbrev pub gets : {A : Type 0} → (Parser → A) → Action A
gets f p = parsed (f p) p

abbrev pub modify : (Parser → Parser) → Action (Unit {0})
modify f p = parsed tt (f p)

abbrev pub refuse : {A : Type 0} → Bytes → Action A
refuse e p = refused e

abbrev pub refuse_if : Bool → Bytes → Action (Unit {0})
refuse_if b e p = if b then refused e else parsed tt p

-- A warning in `m_err`, or the error of a test that goes on all the same.
abbrev pub warn_if : Bool → Bytes → Action (Unit {0})
warn_if b e p = parsed tt (if b then record p { err = e } else p)

abbrev pub when : Bool → Action (Unit {0}) → Action (Unit {0})
when b m p = if b then m p else parsed tt p

-- `m_pdu_ptr += n`: behind the final NUL it points outside.
abbrev pub skip : ℕ → Action (Unit {0})
skip n p =
    if leb n (length p.pdu_ptr)
    then parsed tt (record p { pdu_ptr = drop n p.pdu_ptr })
    else overrun

-- `octet2bin_check(m_pdu_ptr)`, refused where it is negative.
abbrev pub octet : Bytes → Action ℕ
octet e p = elim (octet2bin_check p.pdu_ptr) [ pos n ↦ parsed n p | negsuc n ↦ refused e ]

abbrev pub too_short : ℕ → Bytes → Action (Unit {0})
too_short n e p = if ltb (length p.pdu_ptr) n then refused e else parsed tt p
