-- ===== src/Pdu/Status.antt =====
-- `explain_status` (pdu.cpp): the text of the status in a status report.
use yate_datacard.Prelude.{
  Bool, Bytes, List, Option, [], codes, if◌then◌else◌, leb, none, some, ℕ, ◌&&◌, ◌==◌, ◌||◌, ◌∷◌,
}

-- The text of the first entry with this number, or the default.
abbrev pub text_at : ℕ → List (ℕ × Bytes) → Option Bytes
text_at n [] = none
text_at n (entry ∷ entries) = if entry.0 == n then some entry.1 else text_at n entries

-- The cases of the switch.
abbrev pub status_texts : List (ℕ × Bytes)
status_texts =
    (0, codes "Ok, short message received by the SME")
    ∷ (
      1,
      codes
          "Ok, short message forwarded by the SC to the SME but the SC is unable to confirm delivery",
    )
    ∷ (2, codes "Ok, short message replaced by the SC")
    ∷ (32, codes "Still trying, congestion")
    ∷ (33, codes "Still trying, SME busy")
    ∷ (34, codes "Still trying, no response sendr SME")
    ∷ (35, codes "Still trying, service rejected")
    ∷ (36, codes "Still trying, quality of service not available")
    ∷ (37, codes "Still trying, error in SME")
    ∷ (64, codes "Error, remote procedure error")
    ∷ (65, codes "Error, incompatible destination")
    ∷ (66, codes "Error, connection rejected by SME")
    ∷ (67, codes "Error, not obtainable")
    ∷ (68, codes "Error, quality of service not available")
    ∷ (69, codes "Error, no interworking available")
    ∷ (70, codes "Error, SM validity period expired")
    ∷ (71, codes "Error, SM deleted by originating SME")
    ∷ (72, codes "Error, SM deleted by SC administration")
    ∷ (73, codes "Error, SM does not exist")
    ∷ (96, codes "Error, congestion")
    ∷ (97, codes "Error, SME busy")
    ∷ (98, codes "Error, no response sendr SME")
    ∷ (99, codes "Error, service rejected")
    ∷ (100, codes "Error, quality of service not available")
    ∷ (101, codes "Error, error in SME")
    ∷ []

abbrev pub between : ℕ → ℕ → ℕ → Bool
between low high n = leb low n && leb n high

status_default : ℕ → Bytes
status_default status =
    if between 48 63 status
    then codes "Temporary error, SC specific, unknown"
    else if between 80 95 status || between 112 127 status
    then codes "Permanent error, SC specific, unknown"
    else codes "unknown"

or_text : Option Bytes → Bytes → Bytes
or_text none default = default
or_text (some text) default = text

-- Every text is shorter than the buffer of its caller, so that `snprintf` cuts nothing.
unfoldable pub explain_status : ℕ → Bytes
unfolding status_default or_text
explain_status status = or_text (text_at status status_texts) (status_default status)
