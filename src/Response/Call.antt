-- ===== src/Response/Call.antt =====
-- at_response.cpp: the handlers of lines about calls.
use yate_datacard.At.{AtCmd, AtCommand, at_command, cmd_at_a, cmd_at_chup, cmd_at_clvl}
use yate_datacard.Device.{Callback, Device, append_command, on_answered, on_progress}
use yate_datacard.Device.Calls.{callback, datacard_busy, datacard_congestion, hangup, incoming_call}
use yate_datacard.Device.EndReason.{get_reason}
use yate_datacard.Env.{Env}
use yate_datacard.Prelude.{
  Bool, Bytes, Option, [], codes, false, if◌then◌else◌, negsuc, none, not, pos, some, true, ℤ, ◌&&◌,
  ◌++◌, ◌∷◌,
}
use yate_datacard.Response.Parse.{at_parse_clip, scan_cend, scans_two}

abbrev sync_volume : Device → Device
sync_volume d = record d {
  command_queue = d.command_queue ++ at_command (codes "AT+CLVL=1") cmd_at_clvl ∷ [];
  volume_synchronized = false;
}

abbrev tell : Device → Callback → Device
tell d c = if d.has_conn then callback d c else d

unfoldable pub at_response_orig : Bytes → Device → Device × ℤ
at_response_orig str d =
    if scans_two (codes "^ORIG:") str
    then (sync_volume (tell d on_progress), pos 0)
    else (d, negsuc 0)

unfoldable pub clear_call : Device × Bool → Device × ℤ
clear_call (d, true) = (record d { incoming = false; outgoing = false; needring = false }, pos 0)
clear_call (d, false) = (d, negsuc 0)

-- `^CEND`: where no number could be read the end status and the cause are 0.
unfoldable pub at_response_cend : Bytes → Device → Device × ℤ
unfolding clear_call hangup
at_response_cend str d =
    let (end_status, cc_cause) = scan_cend str in
    let quiet = record d { needchup = false } in
    clear_call (if d.has_conn then hangup (get_reason end_status cc_cause) quiet else (quiet, true))

unfoldable pub at_response_conn : Bytes → Device → Device × ℤ
at_response_conn str d =
    if scans_two (codes "^CONN:") str
    then (if d.outgoing then tell (record d { audio_buf = [] }) on_answered else d, pos 0)
    else (d, negsuc 0)

ring_taken : Device × Bool → Device × ℤ
ring_taken (d, true) = (record d { needchup = true; needring = true }, pos 0)
ring_taken (d, false) = (append_command d (at_command (codes "AT+CHUP") cmd_at_chup), negsuc 0)

unfoldable pub at_response_clip : Env → Bytes → Device → Device × ℤ
unfolding ring_taken incoming_call
at_response_clip env str d =
    if d.initialized && not d.needring
    then ring_taken (incoming_call env (at_parse_clip env str) (record d { incoming = true }))
    else (d, pos 0)

unfoldable pub at_response_ring : Device → Device × ℤ
at_response_ring d =
    if d.initialized
    then (record (if d.incoming then d else sync_volume d) { incoming = true }, pos 0)
    else (d, pos 0)

unfoldable pub at_response_busy : Device → Device × ℤ
unfolding hangup
at_response_busy d = ((hangup datacard_busy (record d { needchup = true })).0, pos 0)

unfoldable pub at_response_no_dialtone : Device → Device × ℤ
unfolding hangup
at_response_no_dialtone d = ((hangup datacard_congestion (record d { needchup = true })).0, pos 0)

unfoldable pub is_cmd_at_a : AtCmd → Bool
is_cmd_at_a cmd_at_a = true
is_cmd_at_a _ = false

-- `if(m_lastcmd && m_lastcmd->m_cmd == CMD_AT_A)` the answer is over.
unfoldable pub answer_over : Option AtCommand → Option AtCommand
unfolding is_cmd_at_a
answer_over none = none
answer_over (some last) = if is_cmd_at_a last.cmd then none else some last

unfoldable pub at_response_no_carrier : Device → Device × ℤ
unfolding answer_over hangup
at_response_no_carrier d = (
  (hangup datacard_congestion (record d { lastcmd = answer_over d.lastcmd; needchup = true })).0,
  pos 0,
)
