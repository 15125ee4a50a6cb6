-- ===== src/Devices/Tests.antt =====
-- Runs of the list of devices.
use yate_datacard.Device.Connect.{Opened}
use yate_datacard.Devices.{
  CardDevice, NamedList, append_device, connect_round, find_device, is_asked_for,
}
use yate_datacard.Devices.Configured.{Section}
use yate_datacard.Devices.Connected.{IsOpen, Reachable-IsOpen, appends, connects, goes_on, starts}
use yate_datacard.Devices.Handlers.{ObjList, sms_received}
use yate_datacard.Devices.Search.{sms_received-send_sms}
use yate_datacard.Messages.{send_sms}
use yate_datacard.Pdu.Parse.{Iconv}
use yate_datacard.Prelude.{
  Bytes, [], codes, false, if◌then◌else◌, none, pos, refl, some, text_eq, true, ◌∷◌, ◌≡◌,
}
use yate_datacard.Samples.{env, up_device}

-- A message to the device with an IMEI, and to the one with an IMSI.
abbrev to_imei : NamedList
to_imei = record {
  get_value = λ key.
      if text_eq key (codes "imei")
      then codes "354"
      else if text_eq key (codes "imsi")
      then codes "250"
      else if text_eq key (codes "type")
      then codes "outgoing"
      else if text_eq key (codes "protocol")
      then codes "datacard"
      else [];
  get_bool_value = λ key b. b;
  get_int_value = λ key z. z;
}

abbrev first_card : CardDevice
first_card = record {
  name = codes "a";
  device = record up_device { imei = codes "1"; imsi = codes "2" };
}

abbrev second_card : CardDevice
second_card = record {
  name = codes "b";
  device = record up_device { imei = codes "354"; imsi = codes "3" };
}

abbrev no_names : ObjList
no_names = record { at_name = λ devices name. none }

abbrev iconv : Iconv
iconv = record { convert = λ to from message. none }

sms_received-send_sms_example :
    sms_received env iconv no_names to_imei (first_card ∷ second_card ∷ [])
    ≡ some (first_card ∷ second_card ∷ [], false)
unfolding is_asked_for send_sms
sms_received-send_sms_example =
    sms_received-send_sms env iconv no_names to_imei (first_card ∷ []) [] second_card refl refl
      (refl, tt) refl

abbrev section : Section
section = record { name = codes "dongle0"; list = to_imei }

abbrev general : Section
general = record { name = codes "general"; list = to_imei }

abbrev opened : Bytes → Opened
opened name = record { data_tty_fd = pos 4; audio_tty_fd = pos 5; threads_start = true }

Reachable-IsOpen_example :
    IsOpen (connect_round opened (append_device (codes "dongle0") to_imei up_device []))
Reachable-IsOpen_example =
    Reachable-IsOpen (connect_round opened (append_device (codes "dongle0") to_imei up_device [])) (
      goes_on (append_device (codes "dongle0") to_imei up_device []) _
        (goes_on [] _ starts (appends (codes "dongle0") to_imei up_device []))
        (connects opened (append_device (codes "dongle0") to_imei up_device [])))

-- A device that is not connected has no IMEI, and a message without one reaches it.
abbrev fresh_card : CardDevice
fresh_card = record { name = codes "c"; device = record up_device { imei = []; imsi = [] } }

abbrev by_imsi : NamedList
by_imsi = record to_imei { get_value = λ key. if text_eq key (codes "imsi") then codes "3" else [] }

empty_imei_found : find_device by_imsi (fresh_card ∷ second_card ∷ []) ≡ some 0
unfolding find_device is_asked_for
empty_imei_found = refl
