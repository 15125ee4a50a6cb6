-- ===== src/Devices.antt =====
-- `DevicesEndPoint` (datacarddevice.cpp): the list of devices, and the status of a device.
pub mod Handlers
pub mod Search
pub mod Connected
pub mod Configured
mod Tests
use mathlib.Core.Option
use yate_datacard.Device.{Config, Device, card_device}
use yate_datacard.Device.Connect.{Opened, try_connect}
use yate_datacard.Env.{Env}
use yate_datacard.Prelude.{
  Bool, Bytes, List, Option, [], codes, eq_ℤ, false, if◌then◌else◌, negsuc, none, pos, some, suc,
  text_eq, true, ℕ, ℤ, ◌++◌, ◌==◌, ◌||◌, ◌∷◌,
}

-- A device is a `String`, its name.
pub record CardDevice : Type 0 where
  pub name : Bytes
  pub device : Device

-- Yate's `NamedList`: the values of its parameters, each with the default of the call, and the
-- empty text where the parameter is missing.
pub record NamedList : Type 0 where
  pub get_value : Bytes → Bytes
  pub get_bool_value : Bytes → Bool → Bool
  pub get_int_value : Bytes → ℤ → ℤ

-- `if (dev->m_u2diag == 0) dev->m_u2diag = -1`
u2diag_of : ℤ → ℤ
u2diag_of z = if eq_ℤ z (pos 0) then negsuc 0 else z

unfoldable pub config_of : NamedList → Config
unfolding u2diag_of
config_of list = record {
  sim_pin = list.get_value (codes "pin");
  audio_tty = list.get_value (codes "audio");
  data_tty = list.get_value (codes "data");
  u2diag = u2diag_of (list.get_int_value (codes "u2diag") (negsuc 0));
  callingpres = list.get_int_value (codes "callingpres") (negsuc 0);
  auto_delete_sms = list.get_bool_value (codes "autodeletesms") true;
  reset_datacard = list.get_bool_value (codes "resetdatacard") true;
  disablesms = list.get_bool_value (codes "disablesms") false;
}

-- On what the memory of the new device holds.
unfoldable pub append_device : Bytes → NamedList → Device → List CardDevice → List CardDevice
unfolding config_of card_device
append_device name list memory devices =
    devices ++ record { name = name; device = card_device (config_of list) memory } ∷ []

-- The IMEI or the IMSI of the list, which are empty where it has none.
unfoldable pub is_asked_for : NamedList → Device → Bool
is_asked_for list d =
    text_eq d.imei (list.get_value (codes "imei")) || text_eq d.imsi (list.get_value (codes "imsi"))

-- `findDevice(const NamedList&)`: the place of the first one.
unfoldable pub find_device : NamedList → List CardDevice → Option ℕ
unfolding is_asked_for
find_device list [] = none
find_device list (dev ∷ devices) =
    let behind = Option.map suc (find_device list devices) in
    if is_asked_for list dev.device then some 0 else behind

-- A round of `run`, with what the operating system answers for each device.
unfoldable pub connect_round : (Bytes → Opened) → List CardDevice → List CardDevice
unfolding try_connect
connect_round opened [] = []
connect_round opened (dev ∷ devices) =
    record dev { device = (try_connect (opened dev.name) dev.device).0 }
    ∷ connect_round opened devices

unfoldable pub decode_reg_status : ℤ → Bytes
decode_reg_status (pos n) =
    if n == 0
    then codes "not registered, not searching"
    else if n == 1
    then codes "registered, home network"
    else if n == 2
    then codes "not registered, but searching"
    else if n == 3
    then codes "registration denied"
    else if n == 5
    then codes "registered, roaming"
    else codes "unknown"
decode_reg_status (negsuc n) = codes "unknown"

-- `getParams`: the parameters added, in their order.
unfoldable pub get_params : Env → CardDevice → List (Bytes × Bytes)
unfolding decode_reg_status
get_params env dev =
    (codes "device", dev.name)
    ∷ (codes "gsm_reg_status", decode_reg_status dev.device.gsm_reg_status)
    ∷ (codes "rssi", env.string_of_int dev.device.rssi)
    ∷ (codes "providername", dev.device.provider_name)
    ∷ (codes "manufacturer", dev.device.manufacturer)
    ∷ (codes "model", dev.device.model)
    ∷ (codes "firmware", dev.device.firmware)
    ∷ (codes "imei", dev.device.imei)
    ∷ (codes "imsi", dev.device.imsi)
    ∷ (codes "number", dev.device.number)
    ∷ (codes "lar", dev.device.location_area_code)
    ∷ (codes "cellid", dev.device.cell_id)
    ∷ []

unfoldable pub get_network_status : Env → CardDevice → List (Bytes × Bytes)
unfolding decode_reg_status
get_network_status env dev =
    (codes "device", dev.name)
    ∷ (codes "gsm_reg_status", decode_reg_status dev.device.gsm_reg_status)
    ∷ (codes "rssi", env.string_of_int dev.device.rssi)
    ∷ (codes "provider_name", dev.device.provider_name)
    ∷ (codes "lar", dev.device.location_area_code)
    ∷ (codes "cellid", dev.device.cell_id)
    ∷ []

-- `ret << "|"` between the texts
unfoldable pub barred : List Bytes → Bytes
barred [] = []
barred (text ∷ []) = text
barred (text ∷ more ∷ texts) = text ++ (b'|' ∷ barred (more ∷ texts))

unfoldable pub get_status : Env → CardDevice → Bytes
unfolding decode_reg_status barred
get_status env dev =
    let d = dev.device in
    barred (
      dev.name
      ∷ decode_reg_status d.gsm_reg_status
      ∷ env.string_of_int d.rssi
      ∷ d.provider_name
      ∷ d.manufacturer
      ∷ d.model
      ∷ d.firmware
      ∷ d.imei
      ∷ d.imsi
      ∷ d.number
      ∷ [])

unfoldable pub devices_status : Env → List CardDevice → Bytes
unfolding get_status
devices_status env [] = []
devices_status env (dev ∷ devices) = get_status env dev ++ (b';' ∷ devices_status env devices)
