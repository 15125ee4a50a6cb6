-- ===== src/Device/Laws.antt =====
-- Laws of the calls and of the connection.
use yate_datacard.At.{AtCommand}
use yate_datacard.Device.{Device, on_hangup}
use yate_datacard.Device.Calls.{chup_if_needed, datacard_failure, hangup}
use yate_datacard.Device.Connect.{disconnect}
use yate_datacard.Prelude.{
  Bool, List, [], append-nil, arith, false, if◌then◌else◌, negsuc, none, true, ℕ, ◌++◌, ◌+◌, ◌∷◌,
  ◌≡◌,
}

-- How many commands of a list satisfy a test.
abbrev pub count : (AtCommand → Bool) → List AtCommand → ℕ
count p [] = 0
count p (c ∷ cs) = (if p c then 1 else 0) + count p cs

pub count-append :
    (p : AtCommand → Bool) (xs ys : List AtCommand) → count p (xs ++ ys) ≡ count p xs + count p ys
count-append p [] ys = omega arith
count-append p (x ∷ xs) ys = omega (arith, count-append p xs ys)

-- What `disconnect` leaves of a connected device: no owner, no call, no command, no answer
-- that is awaited, and nothing of the modem; a device that is not connected is left alone.
pub record IsDown (d : Device) : Type 0 where
  pub no_owner : d.has_conn ≡ false
  pub no_connection : d.connected ≡ false
  pub not_running : d.running ≡ false
  pub not_initialized : d.initialized ≡ false
  pub not_registered : d.gsm_registered ≡ false
  pub no_call :
      (d.incoming ≡ false) × (d.outgoing ≡ false) × (d.needchup ≡ false) × (d.needring ≡ false)
  pub no_command : (d.command_queue ≡ []) × (d.lastcmd ≡ none)
  pub no_pin : (d.pincount ≡ 0) × (d.simstatus ≡ negsuc 0)

-- `disconnect` of a connected device leaves it down, and tells an owner that the call failed.
pub disconnect_lem :
    (d : Device)
    → d.connected ≡ true
    → IsDown (disconnect d)
      × ((disconnect d).calls
          ≡ d.calls ++ (if d.has_conn then on_hangup datacard_failure ∷ [] else []))
unfolding disconnect hangup chup_if_needed
disconnect_lem d c = ground (arith, append-nil d.calls)
