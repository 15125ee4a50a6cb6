-- ===== src/Devices/Configured.antt =====
-- The devices of the configuration: the loop of `DatacardDriver::initialize` (datacard.cpp).
use yate_datacard.Device.{Device}
use yate_datacard.Devices.{CardDevice, NamedList, append_device}
use yate_datacard.Devices.Connected.{Reachable, appends, goes_on, starts}
use yate_datacard.Prelude.{
  Bool, Bool-cases, Bytes, List, [], ap, append-nil, append_assoc, codes, if◌then◌else◌, inl, inr,
  length, not, refl, sym, text_eq, true, ◌&&◌, ◌++◌, ◌==◌, ◌||◌, ◌∙◌, ◌∷◌, ◌≡◌,
}

-- A section of `datacard.conf`, with its name.
pub record Section : Type 0 where
  pub name : Bytes
  pub list : NamedList

abbrev pub is_device : Section → Bool
is_device sect =
    not (length sect.name == 0 || text_eq sect.name (codes "general"))
    && sect.list.get_bool_value (codes "enabled") true

add_section : (Bytes → Device) → Section → List CardDevice → List CardDevice
unfolding append_device
add_section memory sect devices =
    if is_device sect then append_device sect.name sect.list (memory sect.name) devices else devices

-- On what the memory of each device holds, from a section on, with the devices of those in front of it.
unfoldable pub configure_devices :
    (Bytes → Device) → List Section → List CardDevice → List CardDevice
unfolding add_section
configure_devices memory [] devices = devices
configure_devices memory (sect ∷ sects) devices =
    configure_devices memory sects (add_section memory sect devices)

abbrev pub names : List CardDevice → List Bytes
names [] = []
names (dev ∷ devices) = dev.name ∷ names devices

-- The names of the sections that are devices, in their order.
abbrev pub device_sections : List Section → List Bytes
device_sections [] = []
device_sections (sect ∷ sects) =
    if is_device sect then sect.name ∷ device_sections sects else device_sections sects

names-append :
    (devices : List CardDevice) (dev : CardDevice)
    → names (devices ++ dev ∷ []) ≡ names devices ++ dev.name ∷ []
names-append [] dev = refl
names-append (other ∷ devices) dev = ap (λ n. other.name ∷ n) (names-append devices dev)

device_names :
    (memory : Bytes → Device) (sect : Section) (sects : List Section) (devices : List CardDevice)
    → ((others : List CardDevice)
        → names (configure_devices memory sects others) ≡ names others ++ device_sections sects)
    → names (
        configure_devices memory sects
          (append_device sect.name sect.list (memory sect.name) devices))
      ≡ names devices ++ sect.name ∷ device_sections sects
unfolding append_device
device_names memory sect sects devices behind =
    behind (append_device sect.name sect.list (memory sect.name) devices)
    ∙ ap (λ n. n ++ device_sections sects) (names-append devices _)
    ∙ append_assoc (names devices) (sect.name ∷ []) (device_sections sects)

names-configure_devices :
    (memory : Bytes → Device) (sects : List Section) (devices : List CardDevice)
    → names (configure_devices memory sects devices) ≡ names devices ++ device_sections sects
unfolding configure_devices add_section append_device
names-configure_devices memory [] devices = sym (append-nil (names devices))
names-configure_devices memory (sect ∷ sects) devices = elim (Bool-cases (is_device sect)) [
  | inl e ↦ rw e (device_names memory sect sects devices (names-configure_devices memory sects))
  | inr e ↦ rw e (names-configure_devices memory sects devices)
]

add_section-Reachable :
    (memory : Bytes → Device) (sect : Section) (devices : List CardDevice)
    → Reachable devices
    → Reachable (add_section memory sect devices)
unfolding add_section
add_section-Reachable memory sect devices r = elim (Bool-cases (is_device sect)) [
  | inl e ↦ rw e (goes_on devices _ r (appends sect.name sect.list (memory sect.name) devices))
  | inr e ↦ rw e r
]

configure_devices-Reachable :
    (memory : Bytes → Device) (sects : List Section) (devices : List CardDevice)
    → Reachable devices
    → Reachable (configure_devices memory sects devices)
unfolding configure_devices
configure_devices-Reachable memory [] devices r = r
configure_devices-Reachable memory (sect ∷ sects) devices r =
    configure_devices-Reachable memory sects (add_section memory sect devices)
      (add_section-Reachable memory sect devices r)

-- The configuration makes one device for each enabled section with a name other than general, in
-- the order of the sections, and a list of devices that is reachable.
pub configure_devices_lem :
    (memory : Bytes → Device) (sects : List Section)
    → (names (configure_devices memory sects []) ≡ device_sections sects)
      × Reachable (configure_devices memory sects [])
configure_devices_lem memory sects =
    (names-configure_devices memory sects [], configure_devices-Reachable memory sects [] starts)
