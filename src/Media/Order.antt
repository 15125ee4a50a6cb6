-- ===== src/Media/Order.antt =====
-- What the audio tty of a device gets, against what the call sends.
use yate_datacard.Device.{Device}
use yate_datacard.Device.Calls.{hangup}
use yate_datacard.Device.Connect.{disconnect}
use yate_datacard.Media.{
  Act, Frame, Media, PollAnswer, ReadAnswer, Revents, act, acts, audio, by_revents, disconnects,
  fails, forward_audio, forward_read, frame_size, gives, media_disconnect, media_round, no_events,
  other_events, play, poll_error, poll_events, poll_timeout, polled, pollin, polls, send_audio,
  sends, silence,
}
use yate_datacard.Prelude.{
  Bool, Bool-cases, Bytes, List, [], ap, append-nil, append_assoc, drop, drop-length, false,
  if◌then◌else◌, inl, inr, leb, length, ltb, negsuc, pos, refl, sym, take, take-drop, true, ℤ, ◌++◌,
  ◌∙◌, ◌∷◌, ◌≡◌,
}

-- The audio in the frames of a run.
abbrev pub audio_of : List Frame → Bytes
audio_of [] = []
audio_of (audio bytes ∷ fs) = bytes ++ audio_of fs
audio_of (silence ∷ fs) = audio_of fs

-- What a run of acts sends.
abbrev pub sent_in : List Act → Bytes
sent_in [] = []
sent_in (sends bytes ∷ more) = bytes ++ sent_in more
sent_in (polls p ∷ more) = sent_in more
sent_in (disconnects ∷ more) = sent_in more

-- What was played, with what waits behind it.
abbrev pub carried : Media → Bytes
carried m = audio_of m.frames ++ m.device.audio_buf

audio_of-append : (fs gs : List Frame) → audio_of (fs ++ gs) ≡ audio_of fs ++ audio_of gs
audio_of-append [] gs = refl
audio_of-append (audio bytes ∷ fs) gs =
    ap (λ bs. bytes ++ bs) (audio_of-append fs gs)
    ∙ sym (append_assoc bytes (audio_of fs) (audio_of gs))
audio_of-append (silence ∷ fs) gs = audio_of-append fs gs

-- A frame of the first bytes that wait.
played :
    (fs : List Frame) (bytes rest waiting : Bytes)
    → bytes ++ rest ≡ waiting
    → audio_of (fs ++ audio bytes ∷ []) ++ rest ≡ audio_of fs ++ waiting
played fs bytes rest waiting e =
    rw (audio_of-append fs (audio bytes ∷ []), append-nil bytes, append_assoc)
      (ap (λ bs. audio_of fs ++ bs) e)

pub play-carried : (m : Media) → carried (play m) ≡ carried m
unfolding play
play-carried m =
    let waiting = m.device.audio_buf in
    elim (Bool-cases (leb frame_size (length waiting))) [
      | inl e ↦ rw e (
          played m.frames (take frame_size waiting) (drop frame_size waiting) waiting
            (take-drop frame_size waiting))
      | inr e ↦ elim (Bool-cases (ltb 0 (length waiting))) [
        | inl w ↦
            rw (e, w)
              (played m.frames waiting (drop (length waiting) waiting) waiting
                (rw drop-length (append-nil waiting)))
        | inr w ↦ rw (e, w) (rw (audio_of-append m.frames (silence ∷ []), append-nil) refl)
      ]
    ]

forward_audio-carried :
    (bytes : Bytes) (len : ℤ) (m : Media) → carried (forward_audio bytes len m) ≡ carried m
unfolding forward_audio
forward_audio-carried bytes len m = elim (Bool-cases m.source_valid) [
  | inl e ↦ rw e refl
  | inr e ↦ rw e refl
]

pub disconnect-audio_buf : (d : Device) → (disconnect d).audio_buf ≡ d.audio_buf
unfolding disconnect hangup
disconnect-audio_buf d = elim (Bool-cases d.connected) [
  | inl e ↦ elim (Bool-cases d.has_conn) [ inl h ↦ rw (e, h) refl | inr h ↦ rw (e, h) refl ]
  | inr e ↦ rw e refl
]

media_disconnect-carried : (m : Media) → carried (media_disconnect m) ≡ carried m
unfolding media_disconnect
media_disconnect-carried m = ap (λ bs. audio_of m.frames ++ bs) (disconnect-audio_buf m.device)

forward_read-carried :
    (answer : ReadAnswer) (m : Media) → carried (forward_read answer m) ≡ carried m
unfolding forward_read
forward_read-carried (gives []) m = refl
forward_read-carried (gives (b ∷ bs)) m = forward_audio-carried (b ∷ bs) (pos (length (b ∷ bs))) m
forward_read-carried fails m = forward_audio-carried [] (negsuc 0) m

by_revents-carried :
    (events : Revents) (answer : ReadAnswer) (m : Media)
    → carried (by_revents events answer m) ≡ carried m
unfolding by_revents
by_revents-carried pollin answer m =
    play-carried (forward_read answer m) ∙ forward_read-carried answer m
by_revents-carried other_events answer m = media_disconnect-carried m
by_revents-carried no_events answer m = refl

polled-carried : (p : PollAnswer) (m : Media) → carried (polled p m) ≡ carried m
unfolding polled
polled-carried (poll_error true events answer) m = by_revents-carried events answer m
polled-carried (poll_error false _ _) m = media_disconnect-carried m
polled-carried poll_timeout m = refl
polled-carried (poll_events events answer) m = by_revents-carried events answer m

either :
    (b : Bool) (r s m : Media)
    → carried r ≡ carried m
    → carried s ≡ carried m
    → carried (if b then r else s) ≡ carried m
either true r s m h k = h
either false r s m h k = k

pub media_round-carried : (p : PollAnswer) (m : Media) → carried (media_round p m) ≡ carried m
unfolding media_round
media_round-carried p m =
    either m.over m _ m refl
      (either m.device.running (polled p m) (record m { over = true }) m (polled-carried p m) refl)

-- In every run of rounds of the audio thread, of blocks from the call and of disconnects by the
-- monitor thread: what was played of audio, with what waits behind it, is what was played and
-- waited before, with what the call sent behind it, so that no byte is lost, played twice or out
-- of order.
pub media_in_order : (run : List Act) (m : Media) → carried (acts run m) ≡ carried m ++ sent_in run
unfolding acts act send_audio
media_in_order [] m = sym (append-nil (carried m))
media_in_order (polls p ∷ more) m =
    media_in_order more (media_round p m) ∙ ap (λ bs. bs ++ sent_in more) (media_round-carried p m)
media_in_order (sends bytes ∷ more) m =
    media_in_order more (act (sends bytes) m)
    ∙ ap (λ bs. bs ++ sent_in more)
        (sym (append_assoc (audio_of m.frames) m.device.audio_buf bytes))
    ∙ append_assoc (carried m) bytes (sent_in more)
media_in_order (disconnects ∷ more) m =
    media_in_order more (act disconnects m)
    ∙ ap (λ bs. (audio_of m.frames ++ bs) ++ sent_in more) (disconnect-audio_buf m.device)
