-- ===== src/Device/Reasons.antt =====
-- The ends of a call: the reasons of `getReason` and the table `dict_errors` of datacard.cpp; a
-- hangup by the user, and the digits of `Connection::sendDTMF`.
use yate_datacard.Device.{Device}
use yate_datacard.Device.Calls.{
  datacard_busy, datacard_congestion, datacard_failure, datacard_forbidden, datacard_noanswer,
  datacard_normal, datacard_noroute, datacard_rejected, hangup, is_dtmf_valid, pointer_into,
  queue_dtmf, send_dtmf, send_hangup,
}
use yate_datacard.Device.EndReason.{
  cause_reason, congestion_causes, forbidden_ends, get_reason, member, rejected_causes,
}
use yate_datacard.Prelude.{
  Bool, Bytes, List, [], arith, codes, false, if◌then◌else◌, none, true, ℕ, ℤ, ◌==◌, ◌||◌, ◌∷◌, ◌≡◌,
  ◌⊎◌,
}

-- `dict_errors`
abbrev pub dict_errors : List (Bytes × ℕ)
dict_errors =
    (codes "incomplete", 1)
    ∷ (codes "noroute", datacard_noroute)
    ∷ (codes "noconn", 3)
    ∷ (codes "nomedia", 4)
    ∷ (codes "nocall", 5)
    ∷ (codes "busy", datacard_busy)
    ∷ (codes "noanswer", datacard_noanswer)
    ∷ (codes "rejected", datacard_rejected)
    ∷ (codes "forbidden", datacard_forbidden)
    ∷ (codes "offline", 10)
    ∷ (codes "congestion", datacard_congestion)
    ∷ (codes "failure", datacard_failure)
    ∷ []

-- The table has an entry for a reason.
abbrev pub has_text : ℕ → List (Bytes × ℕ) → Bool
has_text reason [] = false
has_text reason (entry ∷ entries) = entry.1 == reason || has_text reason entries

IsKnown : ℕ → Type 0
IsKnown reason = (reason ≡ datacard_normal) ⊎ (has_text reason dict_errors ≡ true)

cause_IsKnown :
    (a b c d e f : Bool)
    → IsKnown (
        if a
        then datacard_normal
        else if b
        then datacard_noroute
        else if c
        then datacard_busy
        else if d
        then datacard_noanswer
        else if e
        then datacard_rejected
        else if f
        then datacard_congestion
        else datacard_failure)
unfolding IsKnown
cause_IsKnown a b c d e f = ground arith

end_IsKnown :
    (a b c : Bool) (reason : ℕ)
    → IsKnown reason
    → IsKnown (
        if a
        then datacard_forbidden
        else if b
        then datacard_rejected
        else if c
        then datacard_normal
        else reason)
unfolding IsKnown
end_IsKnown a b c reason h = ground arith

-- The reason of the end of a call, whatever the two causes that the modem sends, is the normal one
-- or has a text in `dict_errors`.
pub get_reason-has_text :
    (end_status cc_cause : ℤ)
    → (get_reason end_status cc_cause ≡ datacard_normal)
      ⊎ (has_text (get_reason end_status cc_cause) dict_errors ≡ true)
unfolding get_reason cause_reason IsKnown
get_reason-has_text end_status cc_cause =
    end_IsKnown (member end_status forbidden_ends) (member end_status (26 ∷ 102 ∷ 103 ∷ 105 ∷ []))
      (member end_status (25 ∷ 29 ∷ 22 ∷ [])) (cause_reason cc_cause)
      (cause_IsKnown (member cc_cause (16 ∷ 31 ∷ [])) (member cc_cause (3 ∷ 27 ∷ []))
        (member cc_cause (17 ∷ [])) (member cc_cause (18 ∷ 19 ∷ []))
        (member cc_cause rejected_causes) (member cc_cause congestion_causes))

-- When the user has hung up, the end of the call that the modem reports has no effect any more.
pub send_hangup-hangup :
    (reason : ℕ) (d : Device) → hangup reason (send_hangup d) ≡ (send_hangup d, false)
unfolding hangup send_hangup
send_hangup-hangup reason d = ground arith

-- Every digit that `isDTMFValid` accepts makes `sendDTMF` read outside of its literal.
pub send_dtmf_outside :
    (digit : ℕ) (d : Device) → is_dtmf_valid digit ≡ true → send_dtmf digit d ≡ none
unfolding send_dtmf is_dtmf_valid pointer_into queue_dtmf
send_dtmf_outside digit d v = ground arith
