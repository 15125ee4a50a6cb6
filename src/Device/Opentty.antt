-- ===== src/Device/Opentty.antt =====
-- The ttys of a device (datacarddevice.cpp): `opentty`, the openings of `tryConnect`, the closings of
-- `disconnect`, and `devStatus`. The descriptors that the process holds are a list of open ttys.
pub mod Leaks
use Prim.Native.Nat.{bit_or}
use yate_datacard.Device.{Device}
use yate_datacard.Device.Connect.{disconnect, try_connect}
use yate_datacard.Prelude.{
  Bool, List, [], eq_ℤ, false, if◌then◌else◌, is_neg, negsuc, pos, true, ℕ, ℤ, ◌∷◌,
}

-- The attributes of a tty that the source sets.
pub record Termios : Type 0 where
  pub ospeed : ℕ
  pub ispeed : ℕ
  pub iflag : ℕ
  pub oflag : ℕ
  pub cflag : ℕ
  pub lflag : ℕ
  pub vmin : ℕ
  pub vtime : ℕ

-- The constants of termios.h, and the operations on bits.
pub record TermiosNames : Type 0 where
  pub b115200 : ℕ
  pub csize : ℕ
  pub cs8 : ℕ
  pub clocal : ℕ
  pub cread : ℕ
  pub crtscts : ℕ
  pub ignbrk : ℕ
  pub bit_or : ℕ → ℕ → ℕ
  pub bit_and_not : ℕ → ℕ → ℕ

-- The attributes that `opentty` asks for.
pub tty_attributes : TermiosNames → Termios → Termios
tty_attributes tios attr =
    let sized = tios.bit_or (tios.bit_and_not attr.cflag tios.csize) tios.cs8 in
    let receiving = tios.bit_or sized (tios.bit_or tios.clocal tios.cread) in
    record attr {
      ospeed = tios.b115200;
      ispeed = tios.b115200;
      cflag = tios.bit_or receiving tios.crtscts;
      iflag = tios.ignbrk;
      lflag = 0;
      oflag = 0;
      vmin = 1;
      vtime = 0;
    }

-- An open descriptor and the attributes of its tty.
pub record Tty : Type 0 where
  pub fd : ℕ
  pub attributes : Termios

-- `tcsetattr`; a failure is only logged.
abbrev pub set_up : TermiosNames → Tty → Bool → Tty
set_up tios tty set_ok = record tty {
  attributes = if set_ok then tty_attributes tios tty.attributes else tty.attributes;
}

-- What the operating system answers to an opening: an error, or a descriptor of a tty, and whether
-- `tcgetattr` and `tcsetattr` succeed on it.
pub data OpenAnswer : Type 0 where
  not_opened : OpenAnswer
  opens : Tty → Bool → Bool → OpenAnswer

-- A descriptor whose attributes cannot be read stays open.
unfoldable pub opentty : TermiosNames → OpenAnswer → List Tty → ℤ × List Tty
opentty tios not_opened ttys = (negsuc 0, ttys)
opentty tios (opens tty false set_ok) ttys = (negsuc 0, tty ∷ ttys)
opentty tios (opens tty true set_ok) ttys = (pos tty.fd, set_up tios tty set_ok ∷ ttys)

-- The answers to a try: for the data tty, for the audio tty, and whether both threads start.
pub record TryAnswers : Type 0 where
  pub data_answer : OpenAnswer
  pub audio_answer : OpenAnswer
  pub both_start : Bool

-- `tryConnect` with its openings; a device that is connected opens nothing.
unfoldable pub connect_ttys :
    TermiosNames → TryAnswers → Device → List Tty → Device × Bool × List Tty
unfolding opentty try_connect
connect_ttys tios ans d ttys =
    let (data_fd, with_data) = opentty tios ans.data_answer ttys in
    let (audio_fd, with_audio) = opentty tios ans.audio_answer with_data in
    let (d', up) =
      try_connect
        (record { data_tty_fd = data_fd; audio_tty_fd = audio_fd; threads_start = ans.both_start })
        d in
    (d', up, if d.connected then ttys else if is_neg data_fd then with_data else with_audio)

-- `close`
unfoldable pub close_tty : ℤ → List Tty → List Tty
close_tty fd [] = []
close_tty fd (tty ∷ ttys) =
    let behind = close_tty fd ttys in if eq_ℤ fd (pos tty.fd) then ttys else tty ∷ behind

-- `disconnect` with its closings.
unfoldable pub disconnect_ttys : Device → List Tty → Device × List Tty
unfolding close_tty disconnect
disconnect_ttys d ttys =
    (disconnect d, if d.connected then close_tty d.audio_fd (close_tty d.data_fd ttys) else ttys)

-- `devStatus`, with what `tcgetattr` gives for a descriptor.
unfoldable pub dev_status : (ℕ → ℤ) → ℤ → ℤ
dev_status tcgetattr (pos fd) = tcgetattr fd
dev_status tcgetattr (negsuc n) = negsuc 0
