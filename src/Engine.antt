-- ===== src/Engine.antt =====
-- The side of the driver that faces Yate (datacard.cpp): what `YDevEndPoint` and `DatacardChannel` do
-- when a device calls them back, the operations of a channel, and the commands of the driver.
pub mod Ends
pub mod Received
pub mod Commands
mod Tests
use mathlib.Core.Option
use yate_datacard.Device.{
  Callback, Device, on_answered, on_hangup, on_incoming, on_progress, on_receive_sms,
  on_receive_ussd, on_update_network_status,
}
use yate_datacard.Device.Calls.{connection_hangup, datacard_normal, send_answer, send_dtmf}
use yate_datacard.Device.Reasons.{dict_errors}
use yate_datacard.Devices.{CardDevice, get_network_status, get_params}
use yate_datacard.Env.{Env}
use yate_datacard.Prelude.{
  Bool, Bytes, List, Option, [], codes, drop, if◌then◌else◌, length, none, some, ℕ, ◌++◌, ◌==◌, ◌∷◌,
}

-- A message of the engine: its name and its parameters.
pub record Message : Type 0 where
  pub name : Bytes
  pub params : List (Bytes × Bytes)

-- What the driver asks of the engine: a message queued, the status of the channel, the channel
-- disconnected with a reason or without, a message routed, a tone in band.
pub data Effect : Type 0 where
  enqueued : Message → Effect
  status_set : Bytes → Effect
  channel_disconnected : Option Bytes → Effect
  routed : Message → Effect
  tone_played : Bytes → Effect

-- Yate: `Channel::message`, with its parameters of the channel, and `setParam`.
pub record Yate : Type 0 where
  pub channel_params : Bytes → List (Bytes × Bytes)
  pub set_param : Bytes → Bytes → List (Bytes × Bytes) → List (Bytes × Bytes)

-- `s_device_monitor` and `s_inband_dtmf`
pub record Settings : Type 0 where
  pub device_monitor : Bool
  pub inband_dtmf : Bool

abbrev pub own_message : Yate → Bytes → Message
own_message yate name = record { name = name; params = yate.channel_params name }

unfoldable pub on_receive_ussd_messages : Env → CardDevice → Bytes → List Effect
unfolding get_params
on_receive_ussd_messages env dev ussd =
    enqueued record {
      name = codes "datacard.ussd";
      params =
          (codes "type", codes "incoming")
          ∷ (codes "module", codes "datacard")
          ∷ (codes "text", ussd)
          ∷ get_params env dev;
    }
    ∷ enqueued record {
      name = codes "module.update";
      params = (codes "from", dev.name ++ codes "/USSD") ∷ (codes "text", ussd) ∷ [];
    }
    ∷ []

-- `if(!udh_data.null()) m->addParam("udh_data", udh_data)`
abbrev pub udh_param : Bytes → List (Bytes × Bytes)
udh_param [] = []
udh_param (c ∷ udh) = (codes "udh_data", c ∷ udh) ∷ []

unfoldable pub on_receive_sms_messages : Env → CardDevice → Bytes → Bytes → Bytes → List Effect
unfolding get_params
on_receive_sms_messages env dev caller udh sms =
    enqueued record {
      name = codes "datacard.sms";
      params =
          (codes "type", codes "incoming")
            ∷ (codes "module", codes "datacard")
            ∷ (codes "caller", caller)
            ∷ udh_param udh
          ++ (codes "text", sms) ∷ get_params env dev;
    }
    ∷ []

unfoldable pub on_update_network_status_messages : Settings → Env → CardDevice → List Effect
unfolding get_network_status
on_update_network_status_messages settings env dev =
    if settings.device_monitor
    then enqueued record {
      name = codes "datacard.monitor";
      params = (codes "module", codes "datacard") ∷ get_network_status env dev;
    }
      ∷ []
    else []

-- `DatacardChannel::onIncoming`; whether the routing starts is the result of `incoming_call`.
unfoldable pub channel_incoming : Env → Yate → CardDevice → Bytes → List Effect
unfolding get_params
channel_incoming env yate dev caller =
    let own =
      yate.set_param (codes "callername") caller (yate.channel_params (codes "call.preroute")) in
    let params =
      yate.set_param (codes "called") dev.device.number
        (yate.set_param (codes "caller") caller own) in
    routed record { name = codes "call.preroute"; params = params ++ get_params env dev } ∷ []

unfoldable pub channel_progress : Yate → List Effect
channel_progress yate =
    status_set (codes "progressing") ∷ enqueued (own_message yate (codes "call.progress")) ∷ []

unfoldable pub channel_answered : Yate → List Effect
channel_answered yate =
    status_set (codes "answered") ∷ enqueued (own_message yate (codes "call.answered")) ∷ []

-- Yate's `lookup(value, tokens)`: the text of the first entry with the value, or none.
unfoldable pub lookup : ℕ → List (Bytes × ℕ) → Option Bytes
lookup reason [] = none
lookup reason (entry ∷ entries) =
    let behind = lookup reason entries in if entry.1 == reason then some entry.0 else behind

unfoldable pub channel_hangup : ℕ → List Effect
unfolding lookup
channel_hangup reason =
    if reason == datacard_normal
    then channel_disconnected none ∷ []
    else channel_disconnected (lookup reason dict_errors) ∷ []

-- What one callback of a device does.
unfoldable pub effects_of : Settings → Env → Yate → CardDevice → Callback → List Effect
unfolding on_receive_ussd_messages on_receive_sms_messages on_update_network_status_messages
    channel_incoming channel_progress channel_answered channel_hangup
effects_of settings env yate dev on_update_network_status =
    on_update_network_status_messages settings env dev
effects_of settings env yate dev on_progress = channel_progress yate
effects_of settings env yate dev on_answered = channel_answered yate
effects_of settings env yate dev (on_receive_ussd ussd) = on_receive_ussd_messages env dev ussd
effects_of settings env yate dev (on_receive_sms caller udh sms) =
    on_receive_sms_messages env dev caller udh sms
effects_of settings env yate dev (on_incoming caller) = channel_incoming env yate dev caller
effects_of settings env yate dev (on_hangup reason) = channel_hangup reason

-- The callbacks of a handler, in their order.
unfoldable pub all_effects : Settings → Env → Yate → CardDevice → List Callback → List Effect
unfolding effects_of
all_effects settings env yate dev [] = []
all_effects settings env yate dev (c ∷ cs) =
    effects_of settings env yate dev c ++ all_effects settings env yate dev cs

-- `msgAnswered`, whose result is that of `sendAnswer`
unfoldable pub msg_answered : Device → Device × List Effect
unfolding send_answer
msg_answered d = (send_answer d, status_set (codes "answered") ∷ [])

-- `*tone`, the NUL of an empty text
abbrev pub first_char : Bytes → ℕ
first_char [] = 0
first_char (c ∷ cs) = c

-- `msgTone`; none is a read outside of a literal.
unfoldable pub msg_tone : Settings → Bytes → Device → Option (Device × List Effect)
unfolding send_dtmf
msg_tone settings tone d =
    let sent = Option.map (λ d'. (d', [])) (send_dtmf (first_char tone) d) in
    if settings.inband_dtmf then some (d, tone_played tone ∷ []) else sent

-- `~DatacardChannel`, on its device and whether the channel has it still.
unfoldable pub channel_destroyed : Yate → Device × Bool → (Device × Bool) × List Effect
unfolding connection_hangup
channel_destroyed yate s =
    ((connection_hangup s).0, enqueued (own_message yate (codes "chan.hangup")) ∷ [])

-- The effects of the callbacks that an operation made, for a device with this name.
unfoldable pub new_effects : Settings → Env → Yate → Bytes → Device → Device → List Effect
unfolding all_effects
new_effects settings env yate name before after =
    all_effects settings env yate (record { name = name; device = after })
      (drop (length before.calls) after.calls)
