-- ===== src/Media/Drain.antt =====
-- How long audio waits.
use yate_datacard.Media.{
  Act, Media, ReadAnswer, act, acts, by_revents, fails, forward_audio, forward_read, frame_size,
  gives, media_round, play, poll_events, polled, pollin, polls,
}
use yate_datacard.Media.Order.{audio_of, carried, media_round-carried}
use yate_datacard.Prelude.{
  Bool, Bool-cases, Bytes, List, [], ap, append-nil, arith, drop, drop-length, drop_all, false,
  if◌then◌else◌, inl, inr, leb, length, length-drop, ltb, negsuc, pos, refl, sym, true, ℤ, ◌*◌, ◌∙◌,
  ◌∷◌, ◌≡◌, ◌≤◌,
}
use yate_datacard.Response.Status.{kept}

-- Rounds that can read the audio tty.
abbrev pub readable_rounds : List ReadAnswer → List Act
readable_rounds [] = []
readable_rounds (answer ∷ more) = polls (poll_events pollin answer) ∷ readable_rounds more

-- The thread is running.
abbrev pub IsPlaying : Media → Type 0
IsPlaying m = (m.over ≡ false) × (m.device.running ≡ true)

-- What neither the source of the call nor the frames change.
abbrev Same : Media → Media → Type 0
Same m m' = (m'.device ≡ m.device) × (m'.over ≡ m.over)

forward_audio-Same : (bytes : Bytes) (len : ℤ) (m : Media) → Same m (forward_audio bytes len m)
unfolding forward_audio
forward_audio-Same bytes len m = elim (Bool-cases m.source_valid) [
  | inl e ↦ rw e (refl, refl)
  | inr e ↦ rw e (refl, refl)
]

forward_read-Same : (answer : ReadAnswer) (m : Media) → Same m (forward_read answer m)
unfolding forward_read
forward_read-Same (gives []) m = (refl, refl)
forward_read-Same (gives (b ∷ bs)) m = forward_audio-Same (b ∷ bs) (pos (length (b ∷ bs))) m
forward_read-Same fails m = forward_audio-Same [] (negsuc 0) m

-- What a frame leaves: a frame less waits.
abbrev Played : Media → Media → Type 0
Played m m' =
    (m'.over ≡ m.over)
    × (m'.device.running ≡ m.device.running)
    × (m'.device.audio_buf ≡ drop frame_size m.device.audio_buf)

play-Played : (m : Media) → Played m (play m)
unfolding play
play-Played m =
    let waiting = m.device.audio_buf in
    elim (Bool-cases (leb frame_size (length waiting))) [
      | inl e ↦ rw e (refl, refl, refl)
      | inr e ↦
          let short = drop_all frame_size waiting (ground arith) in
          elim (Bool-cases (ltb 0 (length waiting))) [
            | inl w ↦ rw (e, w) (refl, refl, drop-length waiting ∙ sym short)
            | inr w ↦ rw (e, w) (refl, refl, drop_all 0 waiting (ground arith) ∙ sym short)
          ]
    ]

when_playing :
    (b c : Bool) (m x y z : Media)
    → b ≡ false
    → c ≡ true
    → Played m y
    → Played m (if b then x else if c then y else z)
when_playing b c m x y z o r h = rw (o, r) h

-- A round that can read plays a frame, whatever it reads.
pollin_round-Played :
    (answer : ReadAnswer) (m : Media)
    → IsPlaying m
    → Played m (media_round (poll_events pollin answer) m)
unfolding media_round polled by_revents
pollin_round-Played answer m (o, r) =
    let (same_device, same_over) = forward_read-Same answer m in
    let (kept, running, waits) = play-Played (forward_read answer m) in
    when_playing m.over m.device.running m m _ (record m { over = true }) o r
      (
        kept ∙ same_over,
        running ∙ ap (λ d. d.running) same_device,
        waits ∙ ap (λ d. drop frame_size d.audio_buf) same_device,
      )

-- While the thread is running, whatever is read, as many rounds that can read the audio tty as
-- the audio that waits has frames play all of it, behind what was played before.
pub media_drains :
    (reads : List ReadAnswer) (m : Media)
    → IsPlaying m
    → length m.device.audio_buf ≤ frame_size * length reads
    → (audio_of (acts (readable_rounds reads) m).frames ≡ carried m)
      × ((acts (readable_rounds reads) m).device.audio_buf ≡ [])
unfolding acts act
media_drains [] m h fits =
    let empty = drop_all 0 m.device.audio_buf (omega arith) in (rw (empty, append-nil) refl, empty)
media_drains (answer ∷ more) m (o, r) fits =
    let m' = media_round (poll_events pollin answer) m in
    let (kept, running, waits) = pollin_round-Played answer m (o, r) in
    let less = ap length waits ∙ length-drop frame_size m.device.audio_buf in
    let (plays, waits_none) = media_drains more m' (kept ∙ o, running ∙ r) (omega arith) in
    (plays ∙ media_round-carried (poll_events pollin answer) m, waits_none)
