-- ===== src/Device/Tests.antt =====
-- Runs of calls and of the connection.
use Prim.Native.Nat.{bit_or}
use yate_datacard.At.{at_command, cmd_at_a}
use yate_datacard.Device.{card_device, on_hangup}
use yate_datacard.Device.Calls.{
  datacard_busy, datacard_failure, is_dtmf_valid, send_answer, send_dtmf,
}
use yate_datacard.Device.Connect.{disconnect, try_connect}
use yate_datacard.Device.Ends.{IsOver, by_channel, by_device, chups, end_calls, end_calls-IsOver}
use yate_datacard.Device.Laws.{IsDown, disconnect_lem}
use yate_datacard.Device.Opentty.{TermiosNames, Tty, dev_status, disconnect_ttys}
use yate_datacard.Device.Opentty.Leaks.{failed_tries_leak, tries}
use yate_datacard.Device.Reasons.{send_dtmf_outside}
use yate_datacard.Prelude.{
  [], codes, false, length, negsuc, none, pos, refl, true, ℕ, ◌++◌, ◌∷◌, ◌≡◌,
}
use yate_datacard.Samples.{busy_device, config, device, up_device}

-- The device ends the call as busy, the channel that is destroyed then ends it again, and the modem
-- goes away.
end_calls-IsOver_example :
    let s =
      end_calls
        (by_device datacard_busy ∷ by_channel ∷ by_device datacard_failure ∷ [])
        (busy_device, true) in
    IsOver
      (busy_device.command_queue ++ chups busy_device.needchup)
      (busy_device.calls ++ on_hangup datacard_busy ∷ [])
      s.0
    × (s.1 ≡ false)
end_calls-IsOver_example =
    end_calls-IsOver (by_device datacard_busy) (by_channel ∷ by_device datacard_failure ∷ [])
      busy_device refl

disconnect_lem_example :
    IsDown (disconnect busy_device)
    × ((disconnect busy_device).calls ≡ on_hangup datacard_failure ∷ [])
disconnect_lem_example = disconnect_lem busy_device refl

send_dtmf_outside_example : send_dtmf b'5' busy_device ≡ none
unfolding is_dtmf_valid
send_dtmf_outside_example = send_dtmf_outside b'5' busy_device refl

answers_incoming :
    (send_answer (record up_device { incoming = true })).command_queue
    ≡ at_command (codes "ATA") cmd_at_a ∷ []
unfolding send_answer
answers_incoming = refl

stays_down :
    (try_connect
      (record { data_tty_fd = pos 4; audio_tty_fd = negsuc 0; threads_start = true })
      (card_device config device)).1
    ≡ false
unfolding try_connect card_device
stays_down = refl

-- Names of termios.h with some numbers, and ttys with these descriptors.
abbrev tios : TermiosNames
tios = record {
  b115200 = 4098;
  csize = 48;
  cs8 = 48;
  clocal = 2048;
  cread = 128;
  crtscts = 2147483648;
  ignbrk = 1;
  bit_or = bit_or;
  bit_and_not = λ a b. a;
}

abbrev tty_of : ℕ → Tty
tty_of fd = record {
  fd = fd;
  attributes = record {
    ospeed = 0;
    ispeed = 0;
    iflag = 0;
    oflag = 0;
    cflag = 0;
    lflag = 0;
    vmin = 0;
    vtime = 0;
  };
}

failed_tries_leak_example :
    let (d', after) =
      tries tios
        ((tty_of 4, true) ∷ (tty_of 5, false) ∷ [])
        (record up_device { connected = false })
        (tty_of 3 ∷ []) in
    (d'.connected ≡ false) × (length after ≡ 3)
failed_tries_leak_example =
    failed_tries_leak tios ((tty_of 4, true) ∷ (tty_of 5, false) ∷ [])
      (record up_device { connected = false }) (tty_of 3 ∷ []) refl

connect_disconnect_runs :
    (disconnect_ttys
      (record up_device { data_fd = pos 4; audio_fd = pos 5 })
      (tty_of 5 ∷ tty_of 4 ∷ tty_of 3 ∷ [])).1
    ≡ tty_of 3 ∷ []
unfolding disconnect_ttys
connect_disconnect_runs = refl

no_tty : dev_status (λ fd. pos 0) (negsuc 0) ≡ negsuc 0
unfolding dev_status
no_tty = refl
