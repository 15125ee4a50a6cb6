-- ===== src/Device/Ends.antt =====
-- The end of a call, from the side of the device and from the side of its channel.
use yate_datacard.At.{AtCommand}
use yate_datacard.Device.{Callback, Device, on_hangup}
use yate_datacard.Device.Calls.{at_chup, connection_hangup, hangup, send_hangup}
use yate_datacard.Prelude.{
  Bool, List, [], append-nil, arith, false, if◌then◌else◌, refl, true, ℕ, ◌++◌, ◌∷◌, ◌≡◌,
}

-- Who ends a call: the device, with a reason, or the channel, when it is destroyed.
pub data End : Type 0 where
  by_device : ℕ → End
  by_channel : End

-- An end, on a device and whether the channel has it still.
abbrev pub end_call : End → Device × Bool → Device × Bool
end_call (by_device reason) (d, has_dev) = ((hangup reason d).0, has_dev)
end_call by_channel s = (connection_hangup s).0

abbrev pub end_calls : List End → Device × Bool → Device × Bool
end_calls [] s = s
end_calls (e ∷ es) s = end_calls es (end_call e s)

-- What the channel is told by an end, and what the end queues.
abbrev pub told_by : End → List Callback
told_by (by_device reason) = on_hangup reason ∷ []
told_by by_channel = []

abbrev pub chups : Bool → List AtCommand
chups needed = if needed then at_chup ∷ [] else []

-- Whether the channel has its device still: no end was its own.
abbrev pub keeps_dev : List End → Bool
keeps_dev [] = true
keeps_dev (by_device reason ∷ es) = keeps_dev es
keeps_dev (by_channel ∷ es) = false

-- A call that is over, with these commands waiting and these callbacks made.
abbrev pub IsOver : List AtCommand → List Callback → Device → Type 0
IsOver queue told d =
    (d.has_conn ≡ false) × (d.needchup ≡ false) × (d.command_queue ≡ queue) × (d.calls ≡ told)

first_end :
    (e : End) (d : Device)
    → d.has_conn ≡ true
    → IsOver (d.command_queue ++ chups d.needchup) (d.calls ++ told_by e) (end_call e (d, true)).0
unfolding hangup connection_hangup
first_end (by_device reason) d h = ground (arith, append-nil d.command_queue)
first_end by_channel d h = ground (arith, append-nil d.command_queue, append-nil d.calls)

later_end :
    (e : End) (queue : List AtCommand) (told : List Callback) (d : Device) (has_dev : Bool)
    → IsOver queue told d
    → IsOver queue told (end_call e (d, has_dev)).0
unfolding hangup connection_hangup
later_end (by_device reason) queue told d has_dev h = ground (arith, h)
later_end by_channel queue told d true h = ground (arith, h)
later_end by_channel queue told d false h = h

later_ends :
    (es : List End) (queue : List AtCommand) (told : List Callback) (s : Device × Bool)
    → IsOver queue told s.0
    → IsOver queue told (end_calls es s).0
later_ends [] queue told s h = h
later_ends (e ∷ es) queue told (d, has_dev) h =
    later_ends es queue told (end_call e (d, has_dev)) (later_end e queue told d has_dev h)

end_calls-lost : (es : List End) (d : Device) → (end_calls es (d, false)).1 ≡ false
unfolding connection_hangup
end_calls-lost [] d = refl
end_calls-lost (by_device reason ∷ es) d = end_calls-lost es (hangup reason d).0
end_calls-lost (by_channel ∷ es) d = end_calls-lost es d

end_calls-keeps_dev : (es : List End) (d : Device) → (end_calls es (d, true)).1 ≡ keeps_dev es
unfolding connection_hangup
end_calls-keeps_dev [] d = refl
end_calls-keeps_dev (by_device reason ∷ es) d = end_calls-keeps_dev es (hangup reason d).0
end_calls-keeps_dev (by_channel ∷ es) d = end_calls-lost es (send_hangup d)

-- A call of a device with a channel, ended by the device and by the channel in any order and any
-- number of times: AT+CHUP is queued once if it was needed and not otherwise, behind all that
-- waited; the channel is told once, with the reason, if the device ended the call first, and not
-- otherwise; the device has no channel and needs no AT+CHUP; and the channel has lost its device
-- exactly if one of the ends was its own.
pub end_calls-IsOver :
    (e : End) (es : List End) (d : Device)
    → d.has_conn ≡ true
    → let s = end_calls (e ∷ es) (d, true) in
      IsOver (d.command_queue ++ chups d.needchup) (d.calls ++ told_by e) s.0
      × (s.1 ≡ keeps_dev (e ∷ es))
end_calls-IsOver e es d h = (
  later_ends es (d.command_queue ++ chups d.needchup) (d.calls ++ told_by e) (end_call e (d, true))
      (first_end e d h),
  end_calls-keeps_dev (e ∷ es) d,
)
