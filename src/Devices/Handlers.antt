-- ===== src/Devices/Handlers.antt =====
-- The handlers of messages of the engine (datacard.cpp): SMS, USSD and calls to a device.
use mathlib.Core.Option
use yate_datacard.Device.{Device, is_busy}
use yate_datacard.Device.Calls.{new_call, send_hangup}
use yate_datacard.Devices.{CardDevice, NamedList, find_device}
use yate_datacard.Env.{Env}
use yate_datacard.Messages.{send_sms, send_ussd}
use yate_datacard.Pdu.Parse.{Iconv}
use yate_datacard.Prelude.{
  Bool, Bytes, List, Option, [], codes, false, if◌then◌else◌, length, negsuc, none, not, some, suc,
  text_eq, true, zero, ℕ, ℤ, ◌&&◌, ◌==◌, ◌||◌, ◌∷◌,
}

-- `m_devices[name]` of Yate's `ObjList`: the place of the device with a name.
pub record ObjList : Type 0 where
  pub at_name : List CardDevice → Bytes → Option ℕ

-- By the name, and else by its numbers.
unfoldable pub chosen : ObjList → Bytes → NamedList → List CardDevice → Option ℕ
unfolding find_device
chosen objs name msg devices = elim (objs.at_name devices name) [
  | some place ↦ some place
  | none ↦ find_device msg devices
]

-- The device at a place does something with a result; none where it leaves its memory.
unfoldable pub with_device :
    ℕ → (Device → Option (Device × Bool)) → List CardDevice → Option (List CardDevice × Bool)
with_device place act [] = some ([], false)
with_device zero act (dev ∷ devices) =
    Option.map (λ done. (record dev { device = done.0 } ∷ devices, done.1)) (act dev.device)
with_device (suc place) act (dev ∷ devices) =
    Option.map (λ done. (dev ∷ done.0, done.1)) (with_device place act devices)

unfoldable pub by_place :
    Option ℕ → (Device → Option (Device × Bool)) → List CardDevice → Option (List CardDevice × Bool)
unfolding with_device
by_place none act devices = some (devices, false)
by_place (some place) act devices = with_device place act devices

abbrev pub is_outgoing : NamedList → Bool
is_outgoing msg =
    text_eq (msg.get_value (codes "type")) (codes "outgoing")
    && text_eq (msg.get_value (codes "protocol")) (codes "datacard")

-- `SMSHandler::received`
unfoldable pub sms_received :
    Env → Iconv → ObjList → NamedList → List CardDevice → Option (List CardDevice × Bool)
unfolding chosen by_place
sms_received env iconv objs msg devices =
    let sent =
      by_place (chosen objs (msg.get_value (codes "device")) msg devices)
        (send_sms env iconv (msg.get_value (codes "called")) (msg.get_value (codes "text")))
        devices in
    if is_outgoing msg then sent else some (devices, false)

-- `USSDHandler::received`
unfoldable pub ussd_received :
    Env → ObjList → NamedList → List CardDevice → Option (List CardDevice × Bool)
unfolding chosen by_place
ussd_received env objs msg devices =
    let sent =
      by_place (chosen objs (msg.get_value (codes "device")) msg devices)
        (send_ussd env (msg.get_value (codes "text"))) devices in
    if is_outgoing msg then sent else some (devices, false)

-- `msgExecute` on its device: the channel takes it, and where Yate does not connect the channel to
-- the caller it is destroyed again, which hangs up.
unfoldable pub call_out : Env → Bytes → ℤ → Bool → Device → Device × Bool
call_out env dest callingpres connects d =
    let taken = record d { has_conn = true } in
    if is_busy d
    then (d, false)
    else if connects
    then (new_call env dest callingpres taken, true)
    else (send_hangup taken, false)

unfoldable pub msg_execute :
    Env
    → ObjList
    → Bool
    → Bool
    → NamedList
    → Bytes
    → List CardDevice
    → Option (List CardDevice × Bool)
unfolding chosen by_place call_out
msg_execute env objs user_data connects msg dest devices =
    let called =
      by_place (chosen objs (msg.get_value (codes "device")) msg devices)
        (λ d.
          some (call_out env dest (msg.get_int_value (codes "callingpres") (negsuc 0)) connects d))
        devices in
    if length dest == 0 || not user_data then some (devices, false) else called
