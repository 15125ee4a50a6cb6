-- ===== src/Loop/Tests.antt =====
-- Runs of the monitor thread.
use yate_datacard.At.{
  at_command, at_command_with, cmd_at_clvl, cmd_at_cmgd, cmd_at_cmgf, cmd_at_cmgr,
}
use yate_datacard.At.Classify.{at_read_result_classification}
use yate_datacard.Device.{Device, blt_state_want_control}
use yate_datacard.Device.Calls.{new_call, valid_pres}
use yate_datacard.Device.Connect.{disconnect}
use yate_datacard.Device.Laws.{IsDown}
use yate_datacard.Libc.Scan.{
  ended, is_digit, scan, scan_digits, scan_int, scan_number, scan_signed, skip_field, skip_spaces,
  sscanf, until_comma,
}
use yate_datacard.Loop.{
  Event, continues, ends, loop, readable, round, start_events, timed_out, writable,
}
use yate_datacard.Loop.Chunks.{commands_of, transcript, wire}
use yate_datacard.Loop.Failures.{bad_pdu_ends, no_sms_ends, refused_call_ends, round_line}
use yate_datacard.Loop.Flows.{
  AsksFirst, Dials, clir_command, message_read_deleted, new_call-Dials, refusal,
}
use yate_datacard.Loop.Init.{IsUp, exchange, exchanges, initialize-IsUp}
use yate_datacard.Loop.Kept.{device_of}
use yate_datacard.Loop.Order.{Follows, gathered, loop_refines, queued_commands, written_commands}
use yate_datacard.Loop.Pin.{pin_writes, pin_written_once}
use yate_datacard.Loop.Sent.{loop_sends_in_order}
use yate_datacard.Prelude.{
  List, [], arith, codes, false, map, negsuc, pos, refl, some, true, ◌++◌, ◌∷◌, ◌≡◌, ◌≤◌, ◌⊎◌,
}
use yate_datacard.Reader.{handle_rd_data}
use yate_datacard.Response.Call.{at_response_ring}
use yate_datacard.Response.Dispatch.{at_response}
use yate_datacard.Response.Ok.{at_response_ok}
use yate_datacard.Response.Parse.{at_parse_cmti, at_parse_cpin}
use yate_datacard.Response.Sms.{at_response_cmti}
use yate_datacard.Samples.{busy_device, device, env, never_fails, no_pdu, two_at_a_time, up_device}
use yate_datacard.Tty.{at_write_full}

initialize-IsUp_example : IsUp (exchanges 20 env (start_events device))
unfolding at_parse_cpin skip_spaces
initialize-IsUp_example = initialize-IsUp env device refl refl

-- A start, and whatever a modem may answer.
pin_written_once_example :
    pin_writes env no_pdu
      (writable ∷ readable (codes "OK\r") (negsuc 0) ∷ timed_out ∷ [])
      (start_events device)
    ≤ 1
pin_written_once_example =
    pin_written_once env no_pdu (writable ∷ readable (codes "OK\r") (negsuc 0) ∷ timed_out ∷ [])
      device

new_call-Dials_example :
    let d' = new_call env (codes "123") (pos 1) up_device in
    ((valid_pres (pos 1) ≡ true)
      × AsksFirst env (clir_command env (codes "123") (pos 1)) up_device d'
      × Dials (codes "123") (exchange env d')
      × Dials (codes "123") (refusal env d'))
    ⊎ ((valid_pres (pos 1) ≡ false) × Dials (codes "123") d')
new_call-Dials_example = new_call-Dials env (codes "123") (pos 1) up_device (refl, refl)

message_read_deleted_example :
    let d' = (at_response_cmti env (codes "+CMTI: \"ME\",3") up_device).0 in
    (d'.command_queue ≡ at_command_with (codes "AT+CMGR=3") cmd_at_cmgr (codes "3") ∷ [])
    × ((exchange env d').command_queue ≡ at_command (codes "AT+CMGD=3") cmd_at_cmgd ∷ [])
unfolding at_parse_cmti sscanf scan skip_field until_comma scan_int scan_number skip_spaces
    scan_digits scan_signed is_digit ended
message_read_deleted_example =
    message_read_deleted env (codes "+CMTI: \"ME\",3") 3 up_device (refl, refl) refl refl

round_line_example :
    round env no_pdu (readable (codes "RING\r") (negsuc 0)) up_device
    ≡ continues (record up_device {
      incoming = true;
      command_queue = at_command (codes "AT+CLVL=1") cmd_at_clvl ∷ [];
    })
unfolding at_response at_response_ring at_read_result_classification
round_line_example =
    round_line env no_pdu b'R' (codes "ING") (negsuc 0) up_device (refl, refl) (omega arith)
      (omega arith)

no_sms_ends_example :
    (d' : Device) × (round env no_pdu
        (readable (codes "ERROR\r") (negsuc 0))
        (record busy_device { has_voice = true })
      ≡ ends (disconnect d'))
    × (d'.initialized ≡ true)
no_sms_ends_example =
    no_sms_ends env no_pdu (at_command (codes "AT+CMGF=0") cmd_at_cmgf) (negsuc 0)
      (record busy_device { has_voice = true }) (refl, refl) refl refl refl refl

-- AT+CMGR is out, and its answer has begun.
abbrev reading_sms : Device
reading_sms = record up_device {
  incoming_pdu = true;
  lastcmd = some (at_command_with (codes "AT+CMGR=3") cmd_at_cmgr (codes "3"));
}

bad_pdu_ends_example :
    round env no_pdu (readable (codes "07G1\r") (negsuc 0)) reading_sms
    ≡ ends (
        disconnect (record reading_sms {
          state = blt_state_want_control;
          rd_buff = [];
          incoming_pdu = false;
        }))
unfolding at_read_result_classification
bad_pdu_ends_example =
    bad_pdu_ends env no_pdu b'0' (codes "7G1")
      (at_command_with (codes "AT+CMGR=3") cmd_at_cmgr (codes "3")) (negsuc 0) reading_sms
      (refl, refl) (omega arith) (omega arith) refl refl refl refl refl

refused_call_ends_example :
    (d' : Device) × (round env no_pdu (readable (codes "+CLIP: \"123\",145\r") (negsuc 0)) up_device
      ≡ ends d')
    × IsDown d'
refused_call_ends_example =
    refused_call_ends env no_pdu (codes " \"123\",145") (negsuc 0) up_device (refl, refl)
      (omega arith) (omega arith) refl refl refl refl

loop_refines_example :
    let es = writable ∷ readable (codes "OK\r") (negsuc 0) ∷ writable ∷ [] in
    Follows
      (start_events device)
      (written_commands env no_pdu es (start_events device))
      (queued_commands env no_pdu es (start_events device))
      (loop env no_pdu es (start_events device))
loop_refines_example =
    loop_refines env no_pdu (writable ∷ readable (codes "OK\r") (negsuc 0) ∷ writable ∷ [])
      (start_events device)

-- A command that is written, its answer, and a message that arrives.
abbrev message_events : List Event
message_events =
    writable ∷ readable (codes "OK\r") (pos 0) ∷ readable (codes "+CMTI: \"ME\",3\r") (pos 0) ∷ []

written_commands_example :
    map
      (λ c. c.command)
      (written_commands env no_pdu
        (writable ∷ writable ∷ readable (codes "OK\r") (negsuc 0) ∷ [])
        (start_events device))
    ≡ codes "AT" ∷ []
unfolding gathered loop start_events at_write_full handle_rd_data at_response
    at_read_result_classification at_response_ok
written_commands_example = refl

loop_sends_in_order_example :
    let d' = device_of (loop env no_pdu message_events (start_events device)) in
    (d'.sent
      ≡ (start_events device).sent
        ++ wire (transcript env no_pdu message_events (start_events device)))
    × (commands_of (transcript env no_pdu message_events (start_events device)) ++ d'.command_queue
        ≡ (start_events device).command_queue
          ++ queued_commands env no_pdu message_events (start_events device))
unfolding loop start_events at_write_full handle_rd_data at_response at_read_result_classification
    at_response_ok at_response_cmti at_parse_cmti
loop_sends_in_order_example =
    loop_sends_in_order env no_pdu two_at_a_time never_fails message_events (start_events device)
      (device_of (loop env no_pdu message_events (start_events device))) refl
