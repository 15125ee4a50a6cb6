-- ===== src/Pdu/UdhEnds.antt =====
-- `explain_udh` ends, and its text fits its buffer.
use yate_datacard.Libc.Dec.{dec, length-dec}
use yate_datacard.Pdu.Octet.{octet2bin_check}
use yate_datacard.Pdu.Udh.{
  Explained, explain_buffer, explain_ies, explain_udh, explained_type, ie_data, ie_text, no_blanks,
  with_error,
}
use yate_datacard.Prelude.{
  Bool-cases, Bytes, Option, arith, codes, drop, eq_ℤ, false, inl, inr, leb, length, length-append,
  ltb, negsuc, none, not, pos, some, suc, take, true, zero, ℕ, ℤ, ◌*◌, ◌++◌, ◌+◌, ◌<◌, ◌==◌, ◌≡◌,
  ◌≢◌, ◌≤◌,
}

-- A result, whose text is shorter than `max_udh_type`.
abbrev pub Fits : Option Explained → Type 0
Fits none = ⊥
Fits (some (found, udh_type)) = length udh_type < 512

ie_data-Fits :
    (more : ℕ → Option Explained) (udh_length idx : ℕ) (i : ℤ) (behind : ℕ) (udh_type : Bytes)
    → length udh_type < 512
    → ((n : ℕ) → idx + n + 2 ≤ udh_length → Fits (more n))
    → Fits (ie_data more udh_length idx i behind udh_type)
unfolding ie_data
ie_data-Fits more udh_length idx (negsuc n) behind udh_type l h = l
ie_data-Fits more udh_length idx (pos i) behind udh_type l h =
    elim (Bool-cases (ltb behind (i * 2))) [
      | inl e ↦ rw e l
      | inr e ↦ elim (Bool-cases (ltb udh_length (idx + i + 2))) [
        | inl x ↦ rw (e, x) l
        | inr x ↦ rw (e, x) (h i (ground arith))
      ]
    ]

all_done : (udh_length idx : ℕ) → udh_length ≤ idx + 0 → ltb idx udh_length ≡ false
all_done udh_length idx l = ground arith

longer_type : (t tmp : Bytes) → leb 512 (length t + length tmp) ≡ false → length (t ++ tmp) < 512
longer_type t tmp e = ground (arith, length-append t tmp)

explain_ies-Fits :
    (fuel udh_length idx : ℕ) (before : Option Bytes) (buffer udh_type : Bytes)
    → udh_length ≤ idx + fuel
    → length udh_type < 512
    → Fits (explain_ies fuel udh_length idx before buffer udh_type)
unfolding explain_ies
explain_ies-Fits zero udh_length idx before buffer udh_type f l = rw (all_done udh_length idx f) l
explain_ies-Fits (suc fuel) udh_length idx before buffer udh_type f l =
    let i = octet2bin_check buffer in
    let text = ie_text before i in
    let tmp = codes ", [" ++ (take 2 buffer ++ (codes "]" ++ text)) in
    elim (Bool-cases (not (ltb idx udh_length))) [
      | inl e ↦ rw e l
      | inr e ↦ elim (Bool-cases (eq_ℤ i (negsuc 0))) [
        | inl x ↦ rw (e, x) l
        | inr x ↦ elim (Bool-cases (leb 512 (length udh_type + length tmp))) [
          | inl y ↦ rw (e, x, y) l
          | inr y ↦
              let grown = longer_type udh_type tmp y in
              rw (e, x, y)
                (ie_data-Fits
                  (λ n.
                    explain_ies fuel udh_length (idx + n + 2) (some text) (drop (4 + n * 2) buffer)
                      (udh_type ++ tmp))
                  udh_length idx (octet2bin_check (drop 2 buffer)) (length (drop 4 buffer))
                  (udh_type ++ tmp) grown
                  (λ n room.
                    explain_ies-Fits fuel udh_length (idx + n + 2) (some text)
                      (drop (4 + n * 2) buffer) (udh_type ++ tmp) (omega arith) grown))
        ]
      ]
    ]

explain_buffer-Fits : (buffer : Bytes) (i : ℤ) → Fits (explain_buffer buffer i)
unfolding explain_buffer
explain_buffer-Fits buffer (negsuc n) = omega arith
explain_buffer-Fits buffer (pos size) = elim (Bool-cases (ltb (length buffer) ((size + 1) * 2))) [
  | inl e ↦ rw e (omega arith)
  | inr e ↦ rw e (
      explain_ies-Fits (size + 1) (size + 1) 1 none (drop 2 buffer)
        (codes "Length=" ++ dec (size + 1)) (omega arith) (omega (arith, length-dec (size + 1))))
]

explain_udh-Fits : (pdu : Bytes) → Fits (explain_udh pdu)
unfolding explain_udh
explain_udh-Fits pdu = elim (Bool-cases (leb 1024 (length pdu))) [
  | inl e ↦ rw e (omega arith)
  | inr e ↦ rw e (explain_buffer-Fits (no_blanks pdu) (octet2bin_check (no_blanks pdu)))
]

with_error-bound : (t : Bytes) → length t < 512 → length (with_error t) < 512
unfolding with_error
with_error-bound t l = elim (Bool-cases (ltb (length t + 7) 512)) [
  | inl e ↦ rw e (elim (Bool-cases (length t == 0)) [
    | inl z ↦ rw z (ground (arith, length-append t (codes "ERROR")))
    | inr z ↦ rw z (ground (arith, length-append t (codes ", ERROR")))
  ])
  | inr e ↦ rw e l
]

explained_type-bound : (o : Option Explained) → Fits o → length (explained_type o) < 512
unfolding explained_type
explained_type-bound none l = absurd l
explained_type-bound (some (true, t)) l = l
explained_type-bound (some (false, t)) l = with_error-bound t l

Fits-some : (o : Option Explained) → Fits o → o ≢ none
Fits-some none f e = f
Fits-some (some x) f e = cc

-- For every data header `explain_udh` ends: its loop has fuel enough; and what it says of the
-- header, with an error noted behind it, is shorter than its buffer.
pub explain_udh_lem :
    (pdu : Bytes) → (explain_udh pdu ≢ none) × (length (explained_type (explain_udh pdu)) < 512)
explain_udh_lem pdu = (
  Fits-some (explain_udh pdu) (explain_udh-Fits pdu),
  explained_type-bound (explain_udh pdu) (explain_udh-Fits pdu),
)
