-- ===== src/Device/Calls.antt =====
-- Calls: `CardDevice::Hangup`, `incomingCall`, `newCall` and `isDTMFValid`, and `Connection`'s
-- `sendAnswer`, `sendHangup`, `sendDTMF` (datacarddevice.cpp).
use yate_datacard.At.{
  AtCommand, at_command, at_command_with, cmd_at_a, cmd_at_chup, cmd_at_clir, cmd_at_d, cmd_at_dtmf,
}
use yate_datacard.Device.{Callback, Device, append_command, on_hangup, on_incoming}
use yate_datacard.Env.{Env}
use yate_datacard.Prelude.{
  Bool, Bytes, Option, [], codes, drop, false, if◌then◌else◌, leb, length, negsuc, none, pos, some,
  true, ℕ, ℤ, ◌&&◌, ◌++◌, ◌==◌, ◌||◌, ◌∷◌,
}

abbrev pub at_chup : AtCommand
at_chup = at_command (codes "AT+CHUP") cmd_at_chup

-- The reasons of endreasons.h.
abbrev pub datacard_normal : ℕ
datacard_normal = 0

abbrev pub datacard_noroute : ℕ
datacard_noroute = 2

abbrev pub datacard_busy : ℕ
datacard_busy = 6

abbrev pub datacard_noanswer : ℕ
datacard_noanswer = 7

abbrev pub datacard_rejected : ℕ
datacard_rejected = 8

abbrev pub datacard_forbidden : ℕ
datacard_forbidden = 9

abbrev pub datacard_congestion : ℕ
datacard_congestion = 11

abbrev pub datacard_failure : ℕ
datacard_failure = 12

abbrev pub callback : Device → Callback → Device
callback d c = record d { calls = d.calls ++ c ∷ [] }

-- `if(m_needchup) { append AT+CHUP; m_needchup = 0; }`
unfoldable pub chup_if_needed : Device → Device
chup_if_needed d =
    if d.needchup
    then record d { command_queue = d.command_queue ++ at_chup ∷ []; needchup = false }
    else d

-- `Hangup`: `onHangup` returns true, in `Connection` and in `DatacardChannel`.
unfoldable pub hangup : ℕ → Device → Device × Bool
unfolding chup_if_needed
hangup reason d =
    if d.has_conn
    then (callback (chup_if_needed (record d { has_conn = false })) (on_hangup reason), true)
    else (d, false)

-- `incomingCall`: `YDevEndPoint::onIncamingCall` makes a channel, connects it and returns true;
-- then `onIncoming` starts the routing.
unfoldable pub incoming_call : Env → Bytes → Device → Device × Bool
incoming_call env caller d = (
  callback (record d { has_conn = true; audio_buf = [] }) (on_incoming caller),
  env.start_router caller,
)

abbrev pub valid_pres : ℤ → Bool
valid_pres (pos n) = leb n 2
valid_pres (negsuc n) = false

-- The presentation that is asked for, if it is one, and else that of the configuration.
abbrev pub pres_tmp : ℤ → ℤ → ℤ
pres_tmp configured asked = if valid_pres asked then asked else configured

unfoldable pub new_call : Env → Bytes → ℤ → Device → Device
new_call env called callingpres d =
    let pres = pres_tmp d.callingpres callingpres in
    let first =
      if valid_pres pres
      then at_command_with (codes "AT+CLIR=" ++ env.string_of_int pres) cmd_at_clir called
      else at_command (codes "ATD" ++ (called ++ codes ";")) cmd_at_d in
    record d {
      command_queue = d.command_queue ++ first ∷ [];
      audio_buf = [];
      outgoing = true;
      needchup = true;
    }

unfoldable pub send_answer : Device → Device
send_answer d = if d.incoming then append_command d (at_command (codes "ATA") cmd_at_a) else d

-- On a connection that has its device; it loses it.
unfoldable pub send_hangup : Device → Device
unfolding chup_if_needed
send_hangup d = record (chup_if_needed d) { has_conn = false; needring = false }

-- `Connection::sendHangup`, with whether the connection has its device still.
unfoldable pub connection_hangup : Device × Bool → (Device × Bool) × Bool
unfolding send_hangup
connection_hangup (d, true) = ((send_hangup d, false), true)
connection_hangup (d, false) = ((d, false), false)

unfoldable pub is_dtmf_valid : ℕ → Bool
is_dtmf_valid digit = (leb 48 digit && leb digit 57) || (digit == b'*' || digit == b'#')

-- `literal + digit` on the pointers of the source: none where it points behind the final NUL.
unfoldable pub pointer_into : Bytes → ℕ → Option Bytes
pointer_into text offset = if leb offset (length text) then some (drop offset text) else none

unfoldable pub queue_dtmf : Option Bytes → Device → Option Device
queue_dtmf none d = none
queue_dtmf (some text) d = some (append_command d (at_command text cmd_at_dtmf))

-- `sendDTMF`; none is a read outside of the literal `"AT^DTMF=1,"`.
unfoldable pub send_dtmf : ℕ → Device → Option Device
unfolding pointer_into queue_dtmf is_dtmf_valid
send_dtmf digit d =
    if is_dtmf_valid digit then queue_dtmf (pointer_into (codes "AT^DTMF=1,") digit) d else some d
