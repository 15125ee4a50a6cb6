-- ===== src/Pdu/Address.antt =====
-- The addresses in a PDU: `parseSMSC`, `explainAddressType`, and the sender's or recipient's address
-- in `parseDeliver` and `parseStatusReport` (pdu.cpp).
use Prim.Native.Nat.{bit_and}
use yate_datacard.Libc.Hex.{hex02, is_xdigit}
use yate_datacard.Libc.Scan.{is_digit}
use yate_datacard.Pdu.Octet.{swapchars}
use yate_datacard.Pdu.State.{
  Action, gets, modify, octet, overrun, parsed, refuse_if, skip, too_short, warn_if, ◌>>=◌, ◌>>◌,
}
use yate_datacard.Pdu.Status.{text_at}
use yate_datacard.Pdu.Text.{pdu2text}
use yate_datacard.Prelude.{
  Bool, Bytes, [], all, c_str, codes, false, get_or, if◌then◌else◌, is_neg, ltb, none, not, some,
  take, ℕ, ◌%◌, ◌&&◌, ◌*◌, ◌++◌, ◌+◌, ◌-◌, ◌/◌, ◌==◌, ◌||◌, ◌∷◌,
}

abbrev pub all_digits : Bytes → Bool
all_digits s = all is_digit s

-- `m_smsc[length - 1] == 'F'`: the last character is dropped.
abbrev pub without_f : ℕ → Bytes → Bytes
without_f end s = if get_or s end 0 == b'F' then take end s else s

-- `(addr_type & 112) == 80`
abbrev pub is_alphanumeric : ℕ → Bool
is_alphanumeric addr_type = bit_and addr_type 112 == 80

-- The address of the service centre behind its type: so many digits, two of an octet swapped.
unfoldable pub read_smsc : ℕ → ℕ → Action (Unit {0})
read_smsc addr_type digits = do
  text ← gets (λ p. swapchars (take digits p.pdu_ptr))
  let number = without_f (digits - 1) text
  refuse_if (is_alphanumeric addr_type && not (all is_xdigit text))
      (codes "Invalid character(s) in alphanumeric SMSC address")
  refuse_if (not (is_alphanumeric addr_type) && not (all_digits number))
      (codes "Invalid character(s) in numeric SMSC address")
  modify (λ p. record p { smsc = if is_alphanumeric addr_type then text else number })
  skip digits

-- `m_smsc` holds 64 characters, and what does not fit is written behind it.
unfoldable pub smsc_behind : ℕ → Action (Unit {0})
unfolding read_smsc
smsc_behind size = do
  refuse_if (ltb size 2 || ltb 64 size) (codes "Invalid sender SMSC address length")
  let digits = size * 2 - 2
  too_short (digits + 4) (codes "Reading SMSC address: PDU is too short")
  skip 2
  addr_type ← octet (codes "Invalid sender SMSC address type")
  refuse_if (ltb addr_type 0x80) (codes "Missing bit 7 in sender SMSC address type")
  skip 2
  (λ p. if ltb digits 64 then read_smsc addr_type digits p else overrun)

unfoldable pub parse_smsc : Action (Unit {0})
unfolding smsc_behind
parse_smsc = do
  size ← octet (codes "Invalid character(s) in first octet")
  (λ p. if size == 0 then skip 2 p else smsc_behind size p)

-- The two switches of `explainAddressType`.
type_of_number : ℕ → Bytes
type_of_number n =
    elim (text_at n (
      (0, codes "unknown")
      ∷ (1, codes "international")
      ∷ (2, codes "national")
      ∷ (3, codes "network specific")
      ∷ (4, codes "subsciber")
      ∷ (5, codes "alphanumeric")
      ∷ (6, codes "abbreviated")
      ∷ [])) [ none ↦ codes "reserved" | some text ↦ text ]

-- Without a case, `p` keeps the text of the first switch.
numbering_plan : ℕ → Bytes → Bytes
numbering_plan n before =
    elim (text_at n (
      (0, codes "unknown")
      ∷ (1, codes "ISDN/telephone")
      ∷ (3, codes "data")
      ∷ (4, codes "telex")
      ∷ (8, codes "national")
      ∷ (9, codes "private")
      ∷ (10, codes "ERMES")
      ∷ [])) [ none ↦ before | some text ↦ text ]

-- On an octet; on a negative result the caller refuses, and the text is not used.
unfoldable pub explain_address_type : ℕ → Bytes
unfolding type_of_number numbering_plan
explain_address_type result =
    let p = type_of_number (bit_and result 0x70 / 16) in
    p ++ (codes ", " ++ numbering_plan (bit_and result 0x0F) p)

-- `pdu2text0` on the length in septets and the digits, cut by `snprintf`; the text ends at its NUL.
unfoldable pub alphanumeric : ℕ → ℕ → Action (Unit {0})
alphanumeric size padding = do
  too_short (size + padding) (codes "Reading sender address (alphanumeric): PDU is too short")
  sender ← gets (λ p. pdu2text false (hex02 (size * 4 / 7) ++ take (size + padding) p.pdu_ptr))
  refuse_if (is_neg sender.ret) (codes "Reading alphanumeric sender address: Invalid character(s)")
  modify (λ p. record p { number = c_str sender.bytes })

-- A wrong end and other characters than digits are only warned of. `m_number` holds 64 characters:
-- the NUL of 64 digits is written behind it.
unfoldable pub keep_number : ℕ → ℕ → Bool → Bytes → Action (Unit {0})
keep_number size padding is_f digits = do
  warn_if (padding == 1 && not is_f)
      (codes "Length of numeric sender address is odd, but not terminated with 'F'.\n")
  warn_if (padding == 0 && is_f)
      (codes "Length of numeric sender address is even, but still was terminated with 'F'.\n")
  warn_if (not (all_digits digits)) (codes "Invalid character(s) in sender address.\n")
  (λ p. if ltb (size + padding) 64 then parsed tt (record p { number = digits }) else overrun)

unfoldable pub numeric : ℕ → ℕ → Action (Unit {0})
unfolding keep_number
numeric size padding = do
  let end = size + padding - 1
  text ← gets (λ p. swapchars (take (size + padding) p.pdu_ptr))
  keep_number size padding (get_or text end 0 == b'F') (without_f end text)

-- From the type of an address of so many digits on.
unfoldable pub parse_address : ℕ → Bytes → Bytes → Action (Unit {0})
unfolding alphanumeric numeric explain_address_type
parse_address size invalid missing = do
  let padding = size % 2
  skip 2
  addr_type ← octet invalid
  modify (λ p. record p { number_type = explain_address_type addr_type })
  refuse_if (ltb addr_type 0x80) missing
  skip 2
  (λ p. if is_alphanumeric addr_type then alphanumeric size padding p else numeric size padding p)
  skip (size + padding)
