-- ===== src/Device.antt =====
-- `CardDevice` (datacarddevice.h, datacarddevice.cpp): its fields, its constructor, the command
-- queue. Outside of it the driver is seen by its callbacks, which are kept as a list.
pub mod Calls
pub mod EndReason
pub mod Connect
pub mod Opentty
pub mod Laws
pub mod Ends
pub mod Reasons
mod Tests
-- `blt_state_t`
use yate_datacard.At.{AtCommand}
use yate_datacard.Prelude.{
  Bool, Bytes, List, Option, [], codes, false, negsuc, none, not, true, ℕ, ℤ, ◌*◌, ◌++◌, ◌||◌, ◌∷◌,
}

pub data BltState : Type 0 where
  blt_state_want_control blt_state_want_cmd : BltState

-- What `DevicesEndPoint::appendDevice` takes from the configuration.
pub record Config : Type 0 where
  pub sim_pin : Bytes
  pub audio_tty : Bytes
  pub data_tty : Bytes
  pub u2diag : ℤ
  pub callingpres : ℤ
  pub auto_delete_sms : Bool
  pub reset_datacard : Bool
  pub disablesms : Bool

-- The calls that the device makes of its endpoint and of its connection.
pub data Callback : Type 0 where
  on_update_network_status on_progress on_answered : Callback
  on_receive_ussd : Bytes → Callback
  on_receive_sms : Bytes → Bytes → Bytes → Callback
  on_incoming : Bytes → Callback
  on_hangup : ℕ → Callback

-- The fields, without their `m_`. `has_conn` says that `m_conn` is set, `sent` is what was written
-- to the data tty, `calls` are the callbacks made, the last one at the end.
pub record Device : Type 0 where
  pub config : Config
  pub open config use *
  pub has_conn : Bool
  pub audio_fd : ℤ
  pub data_fd : ℤ
  pub audio_buf : Bytes
  pub has_sms : Bool
  pub has_voice : Bool
  pub use_ucs2_encoding : Bool
  pub cusd_use_7bit_encoding : Bool
  pub cusd_use_ucs2_decoding : Bool
  pub gsm_reg_status : ℤ
  pub rssi : ℤ
  pub cpms : ℤ
  pub linkmode : ℤ
  pub linksubmode : ℤ
  pub provider_name : Bytes
  pub manufacturer : Bytes
  pub model : Bytes
  pub firmware : Bytes
  pub imei : Bytes
  pub imsi : Bytes
  pub number : Bytes
  pub location_area_code : Bytes
  pub cell_id : Bytes
  pub pincount : ℕ
  pub simstatus : ℤ
  pub connected : Bool
  pub initialized : Bool
  pub gsm_registered : Bool
  pub outgoing : Bool
  pub incoming : Bool
  pub needchup : Bool
  pub needring : Bool
  pub volume_synchronized : Bool
  pub running : Bool
  pub state : BltState
  pub rd_buff : Bytes
  pub incoming_pdu : Bool
  pub lastcmd : Option AtCommand
  pub command_queue : List AtCommand
  pub sent : Bytes
  pub calls : List Callback

-- `m_commandQueue.append(cmd)`
abbrev pub append_command : Device → AtCommand → Device
append_command d c = record d { command_queue = d.command_queue ++ c ∷ [] }

-- The constructor, and the configuration that `appendDevice` sets. The constructor leaves
-- `has_sms`, `has_voice`, `use_ucs2_encoding`, `cusd_use_7bit_encoding`, `volume_synchronized`,
-- `rssi`, `cpms`, the link modes, the read buffer and `running` as the memory has them: they are
-- taken from `memory`.
unfoldable pub card_device : Config → Device → Device
card_device c memory = record memory {
  config = c;
  has_conn = false;
  connected = false;
  data_fd = negsuc 0;
  audio_fd = negsuc 0;
  audio_buf = [];
  incoming_pdu = false;
  state = blt_state_want_control;
  cusd_use_ucs2_decoding = true;
  gsm_reg_status = negsuc 0;
  manufacturer = [];
  model = [];
  firmware = [];
  imei = [];
  imsi = [];
  provider_name = codes "NONE";
  number = codes "Unknown";
  location_area_code = [];
  cell_id = [];
  initialized = false;
  gsm_registered = false;
  incoming = false;
  outgoing = false;
  needring = false;
  needchup = false;
  simstatus = negsuc 0;
  pincount = 0;
  command_queue = [];
  lastcmd = none;
  sent = [];
  calls = [];
}

-- `isBusy`
unfoldable pub is_busy : Device → Bool
is_busy d = not d.initialized || d.incoming || d.outgoing
