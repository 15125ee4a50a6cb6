-- ===== src/Device/EndReason.antt =====
-- `CardDevice::getReason` (datacarddevice.cpp), with the numbers of endreasons.h.
use yate_datacard.Device.Calls.{
  datacard_busy, datacard_congestion, datacard_failure, datacard_forbidden, datacard_noanswer,
  datacard_normal, datacard_noroute, datacard_rejected,
}
use yate_datacard.Prelude.{Bool, List, [], eq_ℤ, false, if◌then◌else◌, pos, ℕ, ℤ, ◌||◌, ◌∷◌}

abbrev pub member : ℤ → List ℕ → Bool
member z [] = false
member z (n ∷ ns) = eq_ℤ z (pos n) || member z ns

-- The cases of the source that share an answer.
abbrev pub rejected_causes : List ℕ
rejected_causes =
    21 ∷ 29 ∷ 160 ∷ 161 ∷ 162 ∷ 163 ∷ 164 ∷ 165 ∷ 166 ∷ 167 ∷ 168 ∷ 169 ∷ 170 ∷ 171 ∷ 172 ∷ 173
    ∷ 176 ∷ 177 ∷ []

abbrev pub congestion_causes : List ℕ
congestion_causes = 6 ∷ 38 ∷ 34 ∷ 44 ∷ 47 ∷ 63 ∷ 70 ∷ 49 ∷ 42 ∷ []

abbrev pub forbidden_ends : List ℕ
forbidden_ends = 0 ∷ 21 ∷ 23 ∷ 24 ∷ 28 ∷ 30 ∷ 31 ∷ 34 ∷ 99 ∷ 101 ∷ 106 ∷ 27 ∷ []

-- The inner switch, on the call control cause.
unfoldable pub cause_reason : ℤ → ℕ
cause_reason cc_cause =
    if member cc_cause (16 ∷ 31 ∷ [])
    then datacard_normal
    else if member cc_cause (3 ∷ 27 ∷ [])
    then datacard_noroute
    else if member cc_cause (17 ∷ [])
    then datacard_busy
    else if member cc_cause (18 ∷ 19 ∷ [])
    then datacard_noanswer
    else if member cc_cause rejected_causes
    then datacard_rejected
    else if member cc_cause congestion_causes
    then datacard_congestion
    else datacard_failure

unfoldable pub get_reason : ℤ → ℤ → ℕ
unfolding cause_reason
get_reason end_status cc_cause =
    if member end_status forbidden_ends
    then datacard_forbidden
    else if member end_status (26 ∷ 102 ∷ 103 ∷ 105 ∷ [])
    then datacard_rejected
    else if member end_status (25 ∷ 29 ∷ 22 ∷ [])
    then datacard_normal
    else cause_reason cc_cause
