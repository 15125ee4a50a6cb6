-- ===== src/Media.antt =====
-- The audio of a device (datacarddevice.cpp): the thread `MediaThread::run`, `sendAudio`,
-- `forwardAudio` and `DatacardConsumer::Consume`. One round of the thread's loop is a step; what
-- `poll` and `read` answer is the round's event. The buffer is the `m_audio_buf` of the device.
pub mod Order
pub mod Drain
pub mod Frames
mod Tests
use yate_datacard.Device.{Device}
use yate_datacard.Device.Connect.{disconnect}
use yate_datacard.Prelude.{
  Bool, Bytes, List, Option, [], drop, false, if◌then◌else◌, leb, length, ltb, negsuc, none, pos,
  some, take, true, unsigned_of, ℕ, ℤ, ◌++◌, ◌∷◌,
}

-- FRAME_SIZE
abbrev pub frame_size : ℕ
frame_size = 320

-- The events that `poll` leaves in `revents`.
pub data Revents : Type 0 where
  no_events : Revents
  pollin : Revents
  other_events : Revents

-- What `read` gives: bytes, none of them at the end of the file, or -1.
pub data ReadAnswer : Type 0 where
  gives : Bytes → ReadAnswer
  fails : ReadAnswer

-- What `poll` answers: -1, with whether errno is EINTR and what `revents` holds then; 0; or events.
-- Behind it, what a `read` of this round gives.
pub data PollAnswer : Type 0 where
  poll_error : Bool → Revents → ReadAnswer → PollAnswer
  poll_timeout : PollAnswer
  poll_events : Revents → ReadAnswer → PollAnswer

-- A buffer that is handed to `write`: bytes of the audio buffer, or the frame of silence.
pub data Frame : Type 0 where
  audio : Bytes → Frame
  silence : Frame

-- A block for the source of the call: what was read, and the length that the block is given.
pub record Block : Type 0 where
  pub data_read : Bytes
  pub block_length : ℕ

-- The thread: its device, whether this has a valid source, what it handed to `write` and to the
-- source, and whether it is over.
pub record Media : Type 0 where
  pub device : Device
  pub source_valid : Bool
  pub frames : List Frame
  pub blocks : List Block
  pub over : Bool

unfoldable pub send_audio : Bytes → Device → Device
send_audio bytes d = record d { audio_buf = d.audio_buf ++ bytes }

-- `Consume`: the invalid stamp is none.
unfoldable pub consume : Bytes → Option Device → Option (Device × ℕ)
unfolding send_audio
consume bytes none = none
consume bytes (some d) = some (send_audio bytes d, 0)

-- The length is an int that the block takes as an unsigned one.
unfoldable pub forward_audio : Bytes → ℤ → Media → Media
forward_audio bytes len m =
    if m.source_valid
    then record m {
      blocks = m.blocks ++ record { data_read = bytes; block_length = unsigned_of len } ∷ [];
    }
    else m

-- `if (len) forwardAudio(buf, len)`
forward_read : ReadAnswer → Media → Media
unfolding forward_audio
forward_read (gives []) m = m
forward_read (gives (b ∷ bs)) m = forward_audio (b ∷ bs) (pos (length (b ∷ bs))) m
forward_read fails m = forward_audio [] (negsuc 0) m

-- A frame of what waits, the rest of it, or silence; what `write` takes of it is not looked at.
unfoldable pub play : Media → Media
play m =
    let waiting = m.device.audio_buf in
    if leb frame_size (length waiting)
    then record m {
      device = record m.device { audio_buf = drop frame_size waiting };
      frames = m.frames ++ audio (take frame_size waiting) ∷ [];
    }
    else if ltb 0 (length waiting)
    then record m {
      device = record m.device { audio_buf = drop (length waiting) waiting };
      frames = m.frames ++ audio waiting ∷ [];
    }
    else record m { frames = m.frames ++ silence ∷ [] }

media_disconnect : Media → Media
media_disconnect m = record m { device = disconnect m.device; over = true }

-- Behind the tests on the result of `poll`, the tests on `revents`.
by_revents : Revents → ReadAnswer → Media → Media
unfolding forward_read play media_disconnect
by_revents pollin answer m = play (forward_read answer m)
by_revents other_events answer m = media_disconnect m
by_revents no_events answer m = m

-- A round of the main loop.
polled : PollAnswer → Media → Media
unfolding by_revents
polled (poll_error true events answer) m = by_revents events answer m
polled (poll_error false _ _) m = media_disconnect m
polled poll_timeout m = m
polled (poll_events events answer) m = by_revents events answer m

unfoldable pub media_round : PollAnswer → Media → Media
unfolding polled
media_round p m =
    if m.over then m else if m.device.running then polled p m else record m { over = true }

-- In front of the loop.
unfoldable pub start_media : Media → Media
start_media m = record m { device = record m.device { audio_buf = [] } }

-- What happens to the audio of a device: rounds of its thread, blocks from the call, and a
-- `disconnect` by another thread.
pub data Act : Type 0 where
  polls : PollAnswer → Act
  sends : Bytes → Act
  disconnects : Act

unfoldable pub act : Act → Media → Media
unfolding media_round send_audio
act (polls p) m = media_round p m
act (sends bytes) m = record m { device = send_audio bytes m.device }
act disconnects m = record m { device = disconnect m.device }

unfoldable pub acts : List Act → Media → Media
unfolding act
acts [] m = m
acts (a ∷ more) m = acts more (act a m)
