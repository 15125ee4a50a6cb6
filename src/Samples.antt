-- ===== src/Samples.antt =====
-- A configuration, a device and an environment, for the runs.
use yate_datacard.At.{at_command, cmd_at_cmgf}
use yate_datacard.Device.{Config, Device, blt_state_want_control}
use yate_datacard.Env.{Env, WritesSome}
use yate_datacard.Libc.Scan.{skip_spaces}
use yate_datacard.Pdu.Parse.{Iconv}
use yate_datacard.Pdu.StampRead.{Stamp, ValidStamp}
use yate_datacard.Prelude.{
  Bytes, [], arith, codes, drop, false, if◌then◌else◌, leb, length, negsuc, none, pos, refl, some,
  starts_with, true, ℕ, ◌<◌, ◌∷◌, ◌≡◌, ◌≢◌, ◌≤◌,
}
use yate_datacard.Response.Sms.{PduReader}

abbrev pub config : Config
config = record {
  sim_pin = codes "1234";
  audio_tty = codes "/dev/ttyUSB1";
  data_tty = codes "/dev/ttyUSB2";
  u2diag = negsuc 0;
  callingpres = negsuc 0;
  auto_delete_sms = true;
  reset_datacard = true;
  disablesms = false;
}

-- A device that is connected, with its modem not initialised yet.
abbrev pub device : Device
device = record {
  config = config;
  has_conn = false;
  audio_fd = pos 5;
  data_fd = pos 4;
  audio_buf = [];
  has_sms = false;
  has_voice = false;
  use_ucs2_encoding = false;
  cusd_use_7bit_encoding = false;
  cusd_use_ucs2_decoding = true;
  gsm_reg_status = negsuc 0;
  rssi = pos 0;
  cpms = pos 0;
  linkmode = pos 0;
  linksubmode = pos 0;
  provider_name = codes "NONE";
  manufacturer = [];
  model = [];
  firmware = [];
  imei = [];
  imsi = [];
  number = codes "Unknown";
  location_area_code = [];
  cell_id = [];
  pincount = 0;
  simstatus = negsuc 0;
  connected = true;
  initialized = false;
  gsm_registered = false;
  outgoing = false;
  incoming = false;
  needchup = false;
  needring = false;
  volume_synchronized = false;
  running = true;
  state = blt_state_want_control;
  rd_buff = [];
  incoming_pdu = false;
  lastcmd = none;
  command_queue = [];
  sent = [];
  calls = [];
}

-- A device in a call that an owner has, with AT+CMGF out.
abbrev pub busy_device : Device
busy_device = record device {
  has_conn = true;
  needchup = true;
  outgoing = true;
  lastcmd = some (at_command (codes "AT+CMGF=0") cmd_at_cmgf);
}

-- An initialised device.
abbrev pub up_device : Device
up_device = record device { initialized = true; has_voice = true }

-- An environment whose tty takes two characters at a time, and which routes no call.
abbrev pub env : Env
env = record {
  trim_spaces = skip_spaces;
  start_skip = λ word s. if starts_with word s then drop (length word) s else s;
  string_of_int = λ z. codes "3";
  to_integer = λ s. pos 0;
  matches = λ s pattern. none;
  iconv = λ from to s. some s;
  write = λ p. some (if leb 2 (length p) then 2 else length p);
  start_router = λ caller. false;
  behind_buffer = [];
  sets_einval = false;
}

-- No text is a PDU.
abbrev pub no_pdu : PduReader
no_pdu = record { parse = λ s. none }

-- iconv that widens every character.
abbrev pub widened : Bytes → Bytes
widened [] = []
widened (c ∷ cs) = 0 ∷ c ∷ widened cs

abbrev pub iconv : Iconv
iconv = record { convert = λ to from octets. some (widened octets) }

abbrev pub stamp : Stamp
stamp = record { year = 11; month = 4; day = 9; hour = 22; minute = 30; second = 59; zone = 8 }

pub stamp-ValidStamp : ValidStamp stamp
stamp-ValidStamp = record {
  year_valid = omega arith;
  month_valid = omega arith;
  day_valid = omega arith;
  hour_valid = omega arith;
  minute_valid = omega arith;
  second_valid = omega arith;
  zone_valid = omega arith;
}

-- The tty of `env` takes some of what it is given.
takes_some : (p : Bytes) (n : ℕ) → env.write p ≡ some n → p ≢ [] → 0 < n
takes_some [] n e ne = absurd (ne refl)
takes_some (c ∷ p) n e ne = ground arith

takes_within : (p : Bytes) (n : ℕ) → env.write p ≡ some n → n ≤ length p
takes_within p n e = ground arith

pub two_at_a_time : WritesSome env
two_at_a_time = record { some_taken = takes_some; within = takes_within }

-- Its writes do not fail.
pub never_fails : (p : Bytes) → env.write p ≢ none
never_fails p e = cc
