-- ===== src/Device/Opentty/Leaks.antt =====
-- The descriptors that a device opens and closes.
use yate_datacard.Device.{Device}
use yate_datacard.Device.Connect.{try_connect}
use yate_datacard.Device.Opentty.{
  TermiosNames, TryAnswers, Tty, close_tty, connect_ttys, disconnect_ttys, not_opened, opens,
  opentty,
}
use yate_datacard.Prelude.{
  ==_refl, Bool, List, [], arith, false, length, refl, suc, true, ◌+◌, ◌==◌, ◌∷◌, ◌≡◌,
}

-- A try where the data tty opens and the audio tty does not.
abbrev pub no_audio : Tty → Bool → TryAnswers
no_audio tty set_ok = record {
  data_answer = opens tty true set_ok;
  audio_answer = not_opened;
  both_start = false;
}

-- Such tries, one after the other.
abbrev pub tries : TermiosNames → List (Tty × Bool) → Device → List Tty → Device × List Tty
tries tios [] d ttys = (d, ttys)
tries tios (t ∷ more) d ttys =
    let (d', _, after) = connect_ttys tios (no_audio t.0 t.1) d ttys in tries tios more d' after

failed_try :
    (tios : TermiosNames) (tty : Tty) (set_ok : Bool) (d : Device) (ttys : List Tty)
    → d.connected ≡ false
    → let (d', up, after) = connect_ttys tios (no_audio tty set_ok) d ttys in
      (d'.connected ≡ false) × (up ≡ false) × (length after ≡ suc (length ttys))
unfolding connect_ttys opentty try_connect
failed_try tios tty set_ok d ttys c = rw c (refl, refl, refl)

-- While the audio tty cannot be opened, every try to connect leaves one more descriptor of the
-- data tty open, and the device not connected.
pub failed_tries_leak :
    (tios : TermiosNames) (no_audios : List (Tty × Bool)) (d : Device) (ttys : List Tty)
    → d.connected ≡ false
    → let (d', after) = tries tios no_audios d ttys in
      (d'.connected ≡ false) × (length after ≡ length no_audios + length ttys)
failed_tries_leak tios [] d ttys c = (c, omega arith)
failed_tries_leak tios (t ∷ more) d ttys c =
    let (down, _, one) = failed_try tios t.0 t.1 d ttys c in
    let (stays_down, sum) = failed_tries_leak tios more _ _ down in
    (stays_down, omega (arith, one, sum))

-- A try that connects the device and the disconnect of it behind that, where the operating system
-- gave two different descriptors: the descriptors that were open before are open, and no other.
pub connect_disconnect :
    (tios : TermiosNames) (data_tty audio_tty : Tty) (s t : Bool) (d : Device) (ttys : List Tty)
    → d.connected ≡ false
    → (data_tty.fd == audio_tty.fd) ≡ false
    → let (d', up, after) =
        connect_ttys tios
          (record {
            data_answer = opens data_tty true s;
            audio_answer = opens audio_tty true t;
            both_start = true;
          })
          d
          ttys in
      (up ≡ true) × ((disconnect_ttys d' after).1 ≡ ttys)
unfolding connect_ttys opentty try_connect disconnect_ttys close_tty
connect_disconnect tios data_tty audio_tty s t d ttys c differ =
    rw (c, differ, ==_refl data_tty.fd, ==_refl audio_tty.fd) (refl, refl)
