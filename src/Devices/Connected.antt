-- ===== src/Devices/Connected.antt =====
-- The ttys of the devices, over the steps of the driver that open, close and use them.
use yate_datacard.At.{AtCommand}
use yate_datacard.Device.{Device, append_command, card_device, is_busy}
use yate_datacard.Device.Calls.{
  chup_if_needed, hangup, incoming_call, new_call, send_answer, send_hangup,
}
use yate_datacard.Device.Connect.{Opened, disconnect, try_connect}
use yate_datacard.Devices.{CardDevice, NamedList, append_device, connect_round}
use yate_datacard.Devices.Handlers.{call_out}
use yate_datacard.Env.{Env}
use yate_datacard.Loop.{Event, round, start_events}
use yate_datacard.Loop.Kept.{device_of}
use yate_datacard.Loop.Ttys.{disconnect-half_open, round-half_open}
use yate_datacard.Prelude.{
  All, Bool, Bool-cases, Bytes, List, [], arith, false, inl, inr, is_neg, refl, true, ℕ, ℤ, ◌++◌,
  ◌∷◌, ◌≡◌,
}
use yate_datacard.Response.Sms.{PduReader}
use yate_datacard.Response.Ttys.{half_open}

-- A device that is connected has both its ttys open.
abbrev pub HasTtys : Device → Type 0
HasTtys d = half_open d ≡ false

abbrev pub IsOpen : List CardDevice → Type 0
IsOpen devices = All (λ dev. HasTtys dev.device) devices

-- What happens to one device of the list: its monitor thread starts and makes a round, or ends; the
-- owner hangs up or answers, a call comes to it, the engine calls out on it or sends.
pub data DeviceStep : Device → Device → Type 0 where
  thread_starts : (d : Device) → DeviceStep d (start_events d)
  rounds :
      (env : Env) (pdu : PduReader) (e : Event) (d : Device)
      → DeviceStep d (device_of (round env pdu e d))
  thread_ends : (d : Device) → DeviceStep d (disconnect d)
  hangs_up : (reason : ℕ) (d : Device) → DeviceStep d (hangup reason d).0
  channel_hangs_up : (d : Device) → DeviceStep d (send_hangup d)
  answers : (d : Device) → DeviceStep d (send_answer d)
  call_comes :
      (env : Env) (caller : Bytes) (d : Device) → DeviceStep d (incoming_call env caller d).0
  calls_out :
      (env : Env) (dest : Bytes) (callingpres : ℤ) (joined : Bool) (d : Device)
      → DeviceStep d (call_out env dest callingpres joined d).0
  queues : (command : AtCommand) (d : Device) → DeviceStep d (append_command d command)

-- The configuration adds a device, a round of the thread connects what is not connected, and a
-- device makes a step.
pub data Step : List CardDevice → List CardDevice → Type 0 where
  appends :
      (name : Bytes) (list : NamedList) (memory : Device) (devices : List CardDevice)
      → Step devices (append_device name list memory devices)
  connects :
      (opened : Bytes → Opened) (devices : List CardDevice)
      → Step devices (connect_round opened devices)
  moves :
      (before after : List CardDevice) (dev : CardDevice) (d : Device)
      → DeviceStep dev.device d
      → Step (before ++ dev ∷ after) (before ++ record dev { device = d } ∷ after)

pub data Reachable : List CardDevice → Type 0 where
  starts : Reachable []
  goes_on : (from to : List CardDevice) → Reachable from → Step from to → Reachable to

chup_keeps : (d : Device) → HasTtys d → HasTtys (chup_if_needed d)
unfolding chup_if_needed half_open
chup_keeps d h = elim (Bool-cases d.needchup) [ inl e ↦ rw e h | inr e ↦ rw e h ]

hangup_keeps : (reason : ℕ) (d : Device) → HasTtys d → HasTtys (hangup reason d).0
unfolding hangup half_open
hangup_keeps reason d h = elim (Bool-cases d.has_conn) [
  | inl e ↦ rw e (chup_keeps (record d { has_conn = false }) h)
  | inr e ↦ rw e h
]

send_answer_keeps : (d : Device) → HasTtys d → HasTtys (send_answer d)
unfolding send_answer half_open
send_answer_keeps d h = elim (Bool-cases d.incoming) [ inl e ↦ rw e h | inr e ↦ rw e h ]

call_out_keeps :
    (env : Env) (dest : Bytes) (callingpres : ℤ) (joined : Bool) (d : Device)
    → HasTtys d
    → HasTtys (call_out env dest callingpres joined d).0
unfolding call_out new_call send_hangup half_open
call_out_keeps env dest callingpres joined d h = elim (Bool-cases (is_busy d)) [
  | inl e ↦ rw e h
  | inr e ↦ elim (Bool-cases joined) [
    | inl j ↦ rw (e, j) h
    | inr j ↦ rw (e, j) (chup_keeps (record d { has_conn = true }) h)
  ]
]

DeviceStep-keeps : (d d' : Device) → DeviceStep d d' → HasTtys d → HasTtys d'
unfolding send_hangup incoming_call half_open start_events
DeviceStep-keeps d d' (thread_starts _) h = h
DeviceStep-keeps d d' (rounds env pdu e _) h = round-half_open env pdu e d h
DeviceStep-keeps d d' (thread_ends _) h = disconnect-half_open d h
DeviceStep-keeps d d' (hangs_up reason _) h = hangup_keeps reason d h
DeviceStep-keeps d d' (channel_hangs_up _) h = chup_keeps d h
DeviceStep-keeps d d' (answers _) h = send_answer_keeps d h
DeviceStep-keeps d d' (call_comes env caller _) h = h
DeviceStep-keeps d d' (calls_out env dest callingpres joined _) h =
    call_out_keeps env dest callingpres joined d h
DeviceStep-keeps d d' (queues command _) h = h

try_connect_keeps : (o : Opened) (d : Device) → HasTtys d → HasTtys (try_connect o d).0
unfolding try_connect half_open
try_connect_keeps o d h = elim (Bool-cases d.connected) [
  | inl e ↦ rw e (rw e at h)
  | inr e ↦ elim (Bool-cases (is_neg o.data_tty_fd)) [
    | inl n ↦ rw (e, n) refl
    | inr n ↦ elim (Bool-cases (is_neg o.audio_tty_fd)) [
      | inl a ↦ rw (e, n, a) refl
      | inr a ↦ elim (Bool-cases o.threads_start) [
        | inl t ↦ rw (e, n, a, t) (ground arith)
        | inr t ↦ rw (e, n, a, t) refl
      ]
    ]
  ]
]

connect_round_keeps :
    (opened : Bytes → Opened) (devices : List CardDevice)
    → IsOpen devices
    → IsOpen (connect_round opened devices)
unfolding connect_round
connect_round_keeps opened [] h = h
connect_round_keeps opened (dev ∷ devices) (d, h) =
    (try_connect_keeps (opened dev.name) dev.device d, connect_round_keeps opened devices h)

put_keeps :
    (before after : List CardDevice) (dev : CardDevice) (d : Device)
    → (HasTtys dev.device → HasTtys d)
    → IsOpen (before ++ dev ∷ after)
    → IsOpen (before ++ record dev { device = d } ∷ after)
put_keeps [] after dev d k (h, hs) = (k h, hs)
put_keeps (other ∷ before) after dev d k (h, hs) = (h, put_keeps before after dev d k hs)

appended_keeps :
    (devices : List CardDevice) (dev : CardDevice)
    → HasTtys dev.device
    → IsOpen devices
    → IsOpen (devices ++ dev ∷ [])
appended_keeps [] dev h hs = (h, tt)
appended_keeps (other ∷ devices) dev h (o, hs) = (o, appended_keeps devices dev h hs)

Step-keeps : (from to : List CardDevice) → Step from to → IsOpen from → IsOpen to
unfolding append_device card_device half_open
Step-keeps from to (appends name list memory _) h = appended_keeps from _ refl h
Step-keeps from to (connects opened _) h = connect_round_keeps opened from h
Step-keeps from to (moves before after dev d s) h =
    put_keeps before after dev d (DeviceStep-keeps dev.device d s) h

-- In every list of devices that is reached from the empty one, by adding devices, rounds of the
-- thread that connects, and steps of single devices, among them every round of a monitor thread,
-- each device that is connected has its data tty and its audio tty open.
pub Reachable-IsOpen : (devices : List CardDevice) → Reachable devices → IsOpen devices
Reachable-IsOpen devices starts = tt
Reachable-IsOpen devices (goes_on from _ r s) = Step-keeps from devices s (Reachable-IsOpen from r)
