-- ===== src/Media/Tests.antt =====
-- Runs of the audio thread.
use yate_datacard.Media.{
  Act, Media, act, acts, audio, fails, gives, other_events, poll_error, poll_events, pollin, polls,
  sends, silence,
}
use yate_datacard.Media.Drain.{media_drains, readable_rounds}
use yate_datacard.Media.Order.{audio_of, carried, media_in_order, sent_in}
use yate_datacard.Prelude.{Bytes, List, [], arith, codes, false, refl, true, ◌++◌, ◌∷◌, ◌≡◌}
use yate_datacard.Samples.{device}

-- A thread of a device that is running, with `bytes` waiting and no source.
abbrev media_of : Bytes → Media
media_of bytes = record {
  device = record device { audio_buf = bytes };
  source_valid = false;
  frames = [];
  blocks = [];
  over = false;
}

abbrev three : Bytes
three = 1 ∷ 2 ∷ 3 ∷ []

-- Audio comes, is played, a signal interrupts `poll`, and the modem goes away.
abbrev audio_run : List Act
audio_run =
    sends three
    ∷ polls (poll_events pollin (gives (9 ∷ [])))
    ∷ polls (poll_error true pollin (gives []))
    ∷ sends three
    ∷ polls (poll_events other_events (gives []))
    ∷ []

media_in_order_example :
    carried (acts audio_run (media_of three)) ≡ carried (media_of three) ++ sent_in audio_run
media_in_order_example = media_in_order audio_run (media_of three)

media_drains_example :
    let m = acts (readable_rounds (gives [] ∷ fails ∷ [])) (media_of (codes "hello")) in
    (audio_of m.frames ≡ carried (media_of (codes "hello"))) × (m.device.audio_buf ≡ [])
media_drains_example =
    media_drains (gives [] ∷ fails ∷ []) (media_of (codes "hello")) (refl, refl) (omega arith)

-- The round that a signal interrupts plays a frame too where `revents` holds POLLIN.
audio_run_frames : (acts audio_run (media_of three)).frames ≡ audio (three ++ three) ∷ silence ∷ []
unfolding acts
audio_run_frames = refl

-- `read` fails: the source gets a block of 2 ^ 32 - 1 bytes.
read_error_example :
    (act
      (polls (poll_events pollin fails))
      (record (media_of three) { source_valid = true })).blocks
    ≡ record { data_read = []; block_length = 4294967295 } ∷ []
unfolding act
read_error_example = refl
