-- ===== src/Response/CallEnd.antt =====
-- The end of a call that the modem reports.
use yate_datacard.Device.{Device, on_hangup}
use yate_datacard.Device.Calls.{at_chup, chup_if_needed, datacard_busy, datacard_congestion, hangup}
use yate_datacard.Device.EndReason.{get_reason}
use yate_datacard.Prelude.{
  Bytes, [], append-nil, arith, false, if◌then◌else◌, pos, true, ℕ, ◌++◌, ◌∷◌, ◌≡◌,
}
use yate_datacard.Response.Call.{
  at_response_busy, at_response_cend, at_response_no_carrier, at_response_no_dialtone, clear_call,
}
use yate_datacard.Response.Parse.{scan_cend}

-- ^CEND, whatever its numbers, ends the call without a failure: no call is in progress or announced
-- and AT+CHUP is not needed, the owner is gone and was told the reason of the two causes once, and
-- nothing is queued; a hangup after it has no effect.
pub at_response_cend_lem :
    (str : Bytes) (again : ℕ) (d : Device)
    → let d' = (at_response_cend str d).0 in
      let reason = get_reason (scan_cend str).0 (scan_cend str).1 in
      ((at_response_cend str d).1 ≡ pos 0)
      × (d'.incoming ≡ false)
      × (d'.outgoing ≡ false)
      × (d'.needring ≡ false)
      × (d'.needchup ≡ false)
      × (d'.has_conn ≡ false)
      × (d'.calls ≡ d.calls ++ (if d.has_conn then on_hangup reason ∷ [] else []))
      × (d'.command_queue ≡ d.command_queue)
      × (hangup again d' ≡ (d', false))
unfolding at_response_cend hangup clear_call
at_response_cend_lem str again d = ground (arith, append-nil d.calls)

-- The owner was told a reason, is gone, and AT+CHUP was put behind the commands that wait.
abbrev pub Dropped : ℕ → Device → Device → Type 0
Dropped reason d d' =
    (d'.has_conn ≡ false)
    × (d'.needchup ≡ false)
    × (d'.calls ≡ d.calls ++ on_hangup reason ∷ [])
    × (d'.command_queue ≡ d.command_queue ++ at_chup ∷ [])

-- BUSY, NO DIALTONE and NO CARRIER drop the call of an owner with AT+CHUP queued once, whether it
-- was needed or not: the first one as busy, the others as congestion.
pub lost_call-Dropped :
    (d : Device)
    → d.has_conn ≡ true
    → Dropped datacard_busy d (at_response_busy d).0
      × Dropped datacard_congestion d (at_response_no_dialtone d).0
      × Dropped datacard_congestion d (at_response_no_carrier d).0
unfolding at_response_busy at_response_no_dialtone at_response_no_carrier hangup chup_if_needed
lost_call-Dropped d owned = ground arith
