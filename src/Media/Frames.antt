-- ===== src/Media/Frames.antt =====
-- The frames that the audio tty of a device gets.
use yate_datacard.Media.{
  Act, Frame, Media, PollAnswer, ReadAnswer, Revents, act, acts, audio, by_revents, disconnects,
  fails, forward_audio, forward_read, frame_size, gives, media_disconnect, media_round, no_events,
  other_events, play, poll_error, poll_events, poll_timeout, polled, pollin, polls, send_audio,
  sends, silence,
}
use yate_datacard.Prelude.{
  All, All-append, Bool, Bool-cases, Bytes, List, [], arith, false, if◌then◌else◌, inl, inr, leb,
  length, length-take, ltb, negsuc, pos, refl, take, true, ℤ, ◌++◌, ◌<◌, ◌∷◌, ◌≡◌, ◌≤◌,
}

-- A frame of audio holds some bytes, and no more than a frame does.
abbrev pub IsFrame : Frame → Type 0
IsFrame (audio bytes) = (0 < length bytes) × (length bytes ≤ frame_size)
IsFrame silence = Unit

-- One more frame.
snoc : (fs : List Frame) (f : Frame) → All IsFrame fs → IsFrame f → All IsFrame (fs ++ f ∷ [])
snoc fs f h k = All-append IsFrame fs (f ∷ []) h (k, tt)

play-IsFrame : (m : Media) → All IsFrame m.frames → All IsFrame (play m).frames
unfolding play
play-IsFrame m h =
    let waiting = m.device.audio_buf in
    elim (Bool-cases (leb frame_size (length waiting))) [
      | inl e ↦
          let full = length-take frame_size waiting (ground arith) in
          rw e (snoc m.frames (audio (take frame_size waiting)) h (ground arith, ground arith))
      | inr e ↦ elim (Bool-cases (ltb 0 (length waiting))) [
        | inl w ↦ rw (e, w) (snoc m.frames (audio waiting) h (ground arith, ground arith))
        | inr w ↦ rw (e, w) (snoc m.frames silence h tt)
      ]
    ]

forward_audio-frames :
    (bytes : Bytes) (len : ℤ) (m : Media) → (forward_audio bytes len m).frames ≡ m.frames
unfolding forward_audio
forward_audio-frames bytes len m = elim (Bool-cases m.source_valid) [
  | inl e ↦ rw e refl
  | inr e ↦ rw e refl
]

forward_read-frames : (answer : ReadAnswer) (m : Media) → (forward_read answer m).frames ≡ m.frames
unfolding forward_read
forward_read-frames (gives []) m = refl
forward_read-frames (gives (b ∷ bs)) m = forward_audio-frames (b ∷ bs) (pos (length (b ∷ bs))) m
forward_read-frames fails m = forward_audio-frames [] (negsuc 0) m

by_revents-IsFrame :
    (events : Revents) (answer : ReadAnswer) (m : Media)
    → All IsFrame m.frames
    → All IsFrame (by_revents events answer m).frames
unfolding by_revents media_disconnect
by_revents-IsFrame pollin answer m h =
    play-IsFrame (forward_read answer m) (rw (forward_read-frames answer m) h)
by_revents-IsFrame other_events answer m h = h
by_revents-IsFrame no_events answer m h = h

polled-IsFrame :
    (p : PollAnswer) (m : Media) → All IsFrame m.frames → All IsFrame (polled p m).frames
unfolding polled media_disconnect
polled-IsFrame (poll_error true events answer) m h = by_revents-IsFrame events answer m h
polled-IsFrame (poll_error false _ _) m h = h
polled-IsFrame poll_timeout m h = h
polled-IsFrame (poll_events events answer) m h = by_revents-IsFrame events answer m h

either :
    (b : Bool) (r s : Media)
    → All IsFrame r.frames
    → All IsFrame s.frames
    → All IsFrame (if b then r else s).frames
either true r s h k = h
either false r s h k = k

-- Every frame of audio that a run hands to `write` holds 1 to 320 bytes.
pub media_frames_bounded :
    (run : List Act) (m : Media) → All IsFrame m.frames → All IsFrame (acts run m).frames
unfolding acts act media_round send_audio
media_frames_bounded [] m h = h
media_frames_bounded (polls p ∷ more) m h = media_frames_bounded more (media_round p m) (
    either m.over m _ h
      (either m.device.running (polled p m) (record m { over = true }) (polled-IsFrame p m h) h))
media_frames_bounded (sends bytes ∷ more) m h = media_frames_bounded more (act (sends bytes) m) h
media_frames_bounded (disconnects ∷ more) m h = media_frames_bounded more (act disconnects m) h
