-- ===== src/Engine/Ends.antt =====
-- What the channel of a call is told at the end of the call.
use yate_datacard.Device.{Callback, Device, on_hangup}
use yate_datacard.Device.Calls.{datacard_normal}
use yate_datacard.Device.EndReason.{get_reason}
use yate_datacard.Device.Reasons.{dict_errors, get_reason-has_text, has_text}
use yate_datacard.Engine.{
  Effect, Settings, Yate, all_effects, channel_disconnected, channel_hangup, effects_of, lookup,
  new_effects,
}
use yate_datacard.Env.{Env}
use yate_datacard.Loop.{Event, loop}
use yate_datacard.Loop.Explained.{loop-explained}
use yate_datacard.Loop.Kept.{device_of}
use yate_datacard.Prelude.{
  All, Bool, Bool-cases, Bytes, List, [], all, ap, append-nil, arith, drop, drop-append, false,
  if◌then◌else◌, inl, inr, length, none, refl, some, true, ℕ, ◌++◌, ◌==◌, ◌∙◌, ◌∷◌, ◌≡◌, ◌⊎◌,
}
use yate_datacard.Response.Call.{at_response_cend}
use yate_datacard.Response.CallEnd.{at_response_cend_lem}
use yate_datacard.Response.Explained.{explained, is_explained}
use yate_datacard.Response.Parse.{scan_cend}
use yate_datacard.Response.Sms.{PduReader}

-- The channel is disconnected once: without a reason for the normal one, and else with the text
-- that `dict_errors` has for it.
abbrev pub Disconnects : ℕ → List Effect → Type 0
Disconnects reason effects =
    ((reason ≡ datacard_normal) × (effects ≡ channel_disconnected none ∷ []))
    ⊎ ((text : Bytes) × (lookup reason dict_errors ≡ some text)
        × (effects ≡ channel_disconnected (some text) ∷ []))

lookup-has_text :
    (reason : ℕ) (entries : List (Bytes × ℕ))
    → has_text reason entries ≡ true
    → (text : Bytes) × (lookup reason entries ≡ some text)
unfolding lookup
lookup-has_text reason [] h = absurd cc
lookup-has_text reason (entry ∷ entries) h = elim (Bool-cases (entry.1 == reason)) [
  | inl e ↦ (entry.0, rw e refl)
  | inr e ↦ let (text, found) = lookup-has_text reason entries (rw e at h) in (text, rw e found)
]

channel_hangup-Disconnects :
    (reason : ℕ)
    → (reason ≡ datacard_normal) ⊎ (has_text reason dict_errors ≡ true)
    → Disconnects reason (channel_hangup reason)
unfolding channel_hangup
channel_hangup-Disconnects reason (inl e) = inl (e, rw e refl)
channel_hangup-Disconnects reason (inr h) =
    let (text, found) = lookup-has_text reason dict_errors h in
    elim (Bool-cases (reason == datacard_normal)) [
      | inl e ↦ inl (ground arith, rw e refl)
      | inr e ↦ inr (text, found, rw (e, found) refl)
    ]

module _ (settings : Settings) (env : Env) (yate : Yate) (name : Bytes) where
  pub new_effects-append :
      (d d' : Device) (cs : List Callback)
      → d'.calls ≡ d.calls ++ cs
      → new_effects settings env yate name d d'
        ≡ all_effects settings env yate (record { name = name; device = d' }) cs
  unfolding new_effects
  new_effects-append d d' cs e =
      ap (all_effects settings env yate (record { name = name; device = d' }))
        (ap (drop (length d.calls)) e ∙ drop-append d.calls cs)

  hangup_effects :
      (reason : ℕ) (d d' : Device)
      → d'.calls ≡ d.calls ++ on_hangup reason ∷ []
      → new_effects settings env yate name d d' ≡ channel_hangup reason
  unfolding all_effects effects_of
  hangup_effects reason d d' e =
      new_effects-append d d' (on_hangup reason ∷ []) e ∙ append-nil (channel_hangup reason)

  told :
      (b : Bool) (reason : ℕ) (d d' : Device)
      → (reason ≡ datacard_normal) ⊎ (has_text reason dict_errors ≡ true)
      → d'.calls ≡ d.calls ++ (if b then on_hangup reason ∷ [] else [])
      → ((b ≡ true) × Disconnects reason (new_effects settings env yate name d d'))
        ⊎ ((b ≡ false) × (new_effects settings env yate name d d' ≡ []))
  unfolding all_effects
  told true reason d d' known e =
      inl (refl, rw (hangup_effects reason d d' e) (channel_hangup-Disconnects reason known))
  told false reason d d' known e = inr (refl, new_effects-append d d' [] e)

  -- A ^CEND line, whatever it holds, on a device with a channel: the engine is asked for one thing,
  -- to disconnect the channel, without a reason or with the text of the reason of the two causes;
  -- and for nothing on a device without one.
  pub at_response_cend-Disconnects :
      (str : Bytes) (d : Device)
      → let effects = new_effects settings env yate name d (at_response_cend str d).0 in
        let reason = get_reason (scan_cend str).0 (scan_cend str).1 in
        ((d.has_conn ≡ true) × Disconnects reason effects) ⊎ ((d.has_conn ≡ false) × (effects ≡ []))
  at_response_cend-Disconnects str d =
      let (_, _, _, _, _, _, calls, _, _) = at_response_cend_lem str 0 d in
      told d.has_conn (get_reason (scan_cend str).0 (scan_cend str).1) d (at_response_cend str d).0
        (get_reason-has_text (scan_cend str).0 (scan_cend str).1) calls

-- A hangup disconnects the channel with no reason, the normal one, or with a text of `dict_errors`.
abbrev pub IsTold : Callback → Type 0
IsTold (on_hangup reason) = Disconnects reason (channel_hangup reason)
IsTold _ = Unit

one-IsTold : (c : Callback) → is_explained c ≡ true → IsTold c
one-IsTold (on_hangup reason) h = channel_hangup-Disconnects reason (ground arith)
one-IsTold c h = tt

all-IsTold : (cs : List Callback) → all is_explained cs ≡ true → All IsTold cs
all-IsTold [] h = tt
all-IsTold (c ∷ cs) h = elim (Bool-cases (is_explained c)) [
  | inl e ↦ (one-IsTold c e, all-IsTold cs (rw e at h))
  | inr e ↦ absurd (ground arith)
]

-- In every run of the monitor thread of a device that was not told of any call yet, over all
-- sequences of events and all answers of the modem: each hangup of the channel disconnects it
-- once, without a reason for the normal one and else with the text that `dict_errors` has for its
-- reason.
pub loop-IsTold :
    (env : Env) (pdu : PduReader) (es : List Event) (d : Device)
    → d.calls ≡ []
    → All IsTold (device_of (loop env pdu es d)).calls
unfolding explained
loop-IsTold env pdu es d none_yet =
    all-IsTold (device_of (loop env pdu es d)).calls
      (loop-explained env pdu es d (ap (all is_explained) none_yet))
