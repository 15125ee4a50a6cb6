-- ===== src/Devices/Search.antt =====
-- Which device a message of the engine reaches.
use mathlib.Core.Option
use yate_datacard.Device.{Device}
use yate_datacard.Devices.{CardDevice, NamedList, find_device, is_asked_for}
use yate_datacard.Devices.Handlers.{
  ObjList, by_place, chosen, is_outgoing, sms_received, with_device,
}
use yate_datacard.Env.{Env}
use yate_datacard.Messages.{send_sms}
use yate_datacard.Pdu.Parse.{Iconv}
use yate_datacard.Prelude.{
  All, Bool, Bool-cases, Bytes, List, Option, [], ap, codes, false, inl, inr, length, none, refl,
  some, true, ◌++◌, ◌∙◌, ◌∷◌, ◌≡◌, ◌⊎◌,
}

find_device_first :
    (list : NamedList) (before after : List CardDevice) (dev : CardDevice)
    → All (λ other. is_asked_for list other.device ≡ false) before
    → is_asked_for list dev.device ≡ true
    → find_device list (before ++ dev ∷ after) ≡ some (length before)
unfolding find_device
find_device_first list [] after dev others asked = rw asked refl
find_device_first list (other ∷ before) after dev (isnt, others) asked =
    rw (isnt, find_device_first list before after dev others asked) refl

-- The device at a place, put back among the others.
abbrev pub put_back :
    List CardDevice
    → CardDevice
    → List CardDevice
    → Option (Device × Bool)
    → Option (List CardDevice × Bool)
put_back before dev after done =
    Option.map (λ r. (before ++ record dev { device = r.0 } ∷ after, r.1)) done

map_twice :
    (before after : List CardDevice) (other dev : CardDevice) (done : Option (Device × Bool))
    → Option.map (λ r. (other ∷ r.0, r.1)) (put_back before dev after done)
      ≡ put_back (other ∷ before) dev after done
map_twice before after other dev none = refl
map_twice before after other dev (some r) = refl

pub with_device-put_back :
    (act : Device → Option (Device × Bool)) (before after : List CardDevice) (dev : CardDevice)
    → with_device (length before) act (before ++ dev ∷ after)
      ≡ put_back before dev after (act dev.device)
unfolding with_device
with_device-put_back act [] after dev = refl
with_device-put_back act (other ∷ before) after dev =
    ap (Option.map (λ r. (other ∷ r.0, r.1))) (with_device-put_back act before after dev)
    ∙ map_twice before after other dev (act dev.device)

chosen_by_ids :
    (objs : ObjList) (msg : NamedList) (name : Bytes) (devices : List CardDevice)
    → objs.at_name devices name ≡ none
    → chosen objs name msg devices ≡ find_device msg devices
unfolding chosen
chosen_by_ids objs msg name devices unnamed =
    ap (λ o. elim o [ some place ↦ some place | none ↦ find_device msg devices ]) unnamed

-- A device that no name gives is the first one with the IMEI or the IMSI of the message.
by_place-put_back :
    (objs : ObjList) (msg : NamedList) (name : Bytes) (act : Device → Option (Device × Bool))
    (before after : List CardDevice) (dev : CardDevice)
    → objs.at_name (before ++ dev ∷ after) name ≡ none
    → All (λ other. is_asked_for msg other.device ≡ false) before
    → is_asked_for msg dev.device ≡ true
    → by_place (chosen objs name msg (before ++ dev ∷ after)) act (before ++ dev ∷ after)
      ≡ put_back before dev after (act dev.device)
unfolding chosen by_place
by_place-put_back objs msg name act before after dev unnamed others asked =
    ap (λ o. by_place o act (before ++ dev ∷ after))
      (chosen_by_ids objs msg name (before ++ dev ∷ after) unnamed
        ∙ find_device_first msg before after dev others asked)
    ∙ with_device-put_back act before after dev

-- A datacard.sms message that is outgoing and of the protocol datacard, whose name no device has:
-- the first device with its IMEI or its IMSI sends the text to the number, its result is the
-- result, and no other device changes.
pub sms_received-send_sms :
    (env : Env) (iconv : Iconv) (objs : ObjList) (msg : NamedList) (before after : List CardDevice)
    (dev : CardDevice)
    → is_outgoing msg ≡ true
    → objs.at_name (before ++ dev ∷ after) (msg.get_value (codes "device")) ≡ none
    → All (λ other. is_asked_for msg other.device ≡ false) before
    → is_asked_for msg dev.device ≡ true
    → sms_received env iconv objs msg (before ++ dev ∷ after)
      ≡ put_back before dev after (
          send_sms env iconv
            (msg.get_value (codes "called"))
            (msg.get_value (codes "text"))
            dev.device)
unfolding sms_received
sms_received-send_sms env iconv objs msg before after dev outgoing unnamed others asked =
    rw outgoing (
      by_place-put_back objs msg (msg.get_value (codes "device")) _ before after dev unnamed others
        asked)

-- No device is asked for, or one is and none in front of it.
abbrev pub Found : NamedList → List CardDevice → Type 0
Found list devices =
    ((find_device list devices ≡ none) × All (λ dev. is_asked_for list dev.device ≡ false) devices)
    ⊎ ((before : List CardDevice) × (dev : CardDevice) × (after : List CardDevice) × (devices
          ≡ before ++ dev ∷ after)
        × (find_device list devices ≡ some (length before))
        × All (λ other. is_asked_for list other.device ≡ false) before
        × (is_asked_for list dev.device ≡ true))

-- The other way round: a place that `findDevice` gives is that of a device that is asked for, with
-- none in front of it; without a place no device is asked for.
pub find_device-Finds : (list : NamedList) (devices : List CardDevice) → Found list devices
unfolding find_device
find_device-Finds list [] = inl (refl, tt)
find_device-Finds list (dev ∷ devices) = elim (Bool-cases (is_asked_for list dev.device)) [
  | inl is ↦ inr ([], dev, devices, refl, rw is refl, tt, is)
  | inr isnt ↦ elim (find_device-Finds list devices) [
    | inl (e, others) ↦ inl (rw (isnt, e) refl, (isnt, others))
    | inr (before, found, after, parts, e, others, is) ↦
        inr (
          dev ∷ before,
          found,
          after,
          ap (λ d. dev ∷ d) parts,
          rw (isnt, e) refl,
          (isnt, others),
          is,
        )
  ]
]
