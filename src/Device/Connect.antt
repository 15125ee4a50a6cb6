-- ===== src/Device/Connect.antt =====
-- `CardDevice::tryConnect`, `startMonitor` and `disconnect` (datacarddevice.cpp).
use yate_datacard.Device.{Device}
use yate_datacard.Device.Calls.{datacard_failure, hangup}
use yate_datacard.Prelude.{Bool, [], codes, false, if◌then◌else◌, is_neg, negsuc, none, true, ℤ}

-- What the operating system answers to the two `opentty` and to the start of the two threads.
pub record Opened : Type 0 where
  pub data_tty_fd : ℤ
  pub audio_tty_fd : ℤ
  pub threads_start : Bool

-- `startMonitor`
start_monitor : Opened → Device → Device × Bool
start_monitor o d = (record d { running = true }, o.threads_start)

-- The audio tty is opened only where the data tty could be, and the threads only where both could.
unfoldable pub try_connect : Opened → Device → Device × Bool
unfolding start_monitor
try_connect o d =
    if d.connected
    then (d, true)
    else if is_neg o.data_tty_fd
    then (record d { data_fd = o.data_tty_fd }, false)
    else if is_neg o.audio_tty_fd
    then (record d { data_fd = o.data_tty_fd; audio_fd = o.audio_tty_fd }, false)
    else let (started, up) =
        start_monitor o (record d { data_fd = o.data_tty_fd; audio_fd = o.audio_tty_fd }) in
      if up then (record started { connected = true }, true) else (started, false)

-- `if(m_conn) { m_needchup = 0; Hangup(DATACARD_FAILURE); }`
drop_owner : Device → Device
unfolding hangup
drop_owner d = if d.has_conn then (hangup datacard_failure (record d { needchup = false })).0 else d

unfoldable pub disconnect : Device → Device
unfolding drop_owner
disconnect d =
    if d.connected
    then record (drop_owner (record d { running = false })) {
      data_fd = negsuc 0;
      audio_fd = negsuc 0;
      connected = false;
      initialized = false;
      gsm_registered = false;
      incoming = false;
      outgoing = false;
      needring = false;
      needchup = false;
      gsm_reg_status = negsuc 0;
      manufacturer = [];
      model = [];
      firmware = [];
      imei = [];
      imsi = [];
      provider_name = codes "NONE";
      number = codes "Unknown";
      incoming_pdu = false;
      simstatus = negsuc 0;
      pincount = 0;
      command_queue = [];
      lastcmd = none;
    }
    else d
