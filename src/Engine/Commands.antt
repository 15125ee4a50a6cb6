-- ===== src/Engine/Commands.antt =====
-- The commands of the console and of the engine (datacard.cpp): `DatacardDriver::doCommand` and
-- `DatacardDriver::received`.
use mathlib.Core.Option
use yate_datacard.Device.{Device}
use yate_datacard.Devices.{CardDevice, devices_status}
use yate_datacard.Devices.Configured.{Section}
use yate_datacard.Devices.Handlers.{ObjList, by_place}
use yate_datacard.Devices.Search.{put_back, with_device-put_back}
use yate_datacard.Env.{Env}
use yate_datacard.Messages.{send_ussd}
use yate_datacard.Prelude.{
  Bool, Bytes, List, Option, [], ap, codes, drop, drop_behind, false, if◌then◌else◌, length, none,
  not, refl, some, suc, take, take-append, text_eq, true, ℕ, ◌&&◌, ◌++◌, ◌==◌, ◌||◌, ◌∙◌, ◌∷◌, ◌≡◌,
}

-- Yate's operations on texts. `start_skip` gives the text behind the word, where a text starts with
-- it, `trim_blanks` cuts blanks off both ends; `prefix` is the driver's.
pub record Texts : Type 0 where
  pub start_skip : Bytes → Bytes → Option Bytes
  pub skip_name : Bytes → Bytes → Option Bytes
  pub starts_text : Bytes → Bytes → Bool
  pub trim_blanks : Bytes → Bytes
  pub driver_prefix : Bytes

-- `line.find(' ')`
unfoldable pub find_space : Bytes → Option ℕ
find_space [] = none
find_space (c ∷ cs) = if c == b' ' then some 0 else Option.map suc (find_space cs)

abbrev pub ussd_answer : Bool → Bytes
ussd_answer sent =
    (if sent then codes "USSD send success!" else codes "Error: USSD not send.") ++ codes "\r\n"

-- Behind the word ussd: the name of a device, a space and the text.
unfoldable pub ussd_command :
    Texts → Env → ObjList → Bytes → List CardDevice → Option ℕ → Option (List CardDevice × Bytes)
unfolding by_place
ussd_command texts env objs line devices none = some (devices, codes "USSD command error\r\n")
ussd_command texts env objs line devices (some q) =
    let ussd = texts.trim_blanks (drop (suc q) line) in
    let name = texts.trim_blanks (take q line) in
    Option.map (λ r. (r.0, ussd_answer r.1))
      (by_place (objs.at_name devices name) (send_ussd env ussd) devices)

unfoldable pub behind_ussd :
    Texts → Env → ObjList → List CardDevice → Option Bytes → Option (List CardDevice × Bytes)
unfolding ussd_command find_space
behind_ussd texts env objs devices none = some (devices, codes "\r\n")
behind_ussd texts env objs devices (some rest) =
    ussd_command texts env objs rest devices (find_space rest)

-- `doCommand`, which always succeeds.
unfoldable pub do_command :
    Texts → Env → ObjList → Bytes → List CardDevice → Option (List CardDevice × Bytes)
unfolding behind_ussd
do_command texts env objs line devices =
    behind_ussd texts env objs devices (texts.start_skip line (codes "ussd"))

-- What `received` does with a message: Yate's `Driver::received` has it, or it is not handled, or it
-- is, with what is appended to the text of its answer; or a command is completed, with these words.
pub data Handled : Type 0 where
  by_driver not_handled : Handled
  handled : Bytes → Handled
  completes : List Bytes → Handled

-- The id Status.
status_detail : Env → List CardDevice → Bytes → Bytes
unfolding devices_status
status_detail env devices target =
    let detail = devices_status env devices in
    if text_eq target (codes "devices")
    then (if length detail == 0 then [] else codes ";" ++ detail)
    else []

status_target : Texts → Env → List CardDevice → Option Bytes → Handled
unfolding status_detail
status_target texts env devices none = not_handled
status_target texts env devices (some rest) =
    let target = texts.trim_blanks rest in
    handled (codes "module=datacard," ++ target ++ status_detail env devices target ++ codes "\r\n")

unfoldable pub received_status : Texts → Env → Bytes → List CardDevice → Handled
unfolding status_target
received_status texts env target devices =
    if length target == 0
      || (text_eq target (codes "datacard") || texts.starts_text target texts.driver_prefix)
    then by_driver
    else status_target texts env devices (texts.skip_name target (codes "datacard"))

-- The sections that are offered as devices; one without a name is offered too.
unfoldable pub offered : List Section → List Bytes
offered [] = []
offered (sect ∷ sects) =
    let behind = offered sects in
    if sect.list.get_bool_value (codes "enabled") true && not (text_eq sect.name (codes "general"))
    then sect.name ∷ behind
    else behind

-- `doComplete`: the words that are given to Yate's `itemComplete`. The second test is on
-- `m_statusCmd`.
unfoldable pub do_complete : Bytes → List Section → List Bytes
unfolding offered
do_complete part_line sections =
    let words =
      if length part_line == 0
        || (text_eq part_line (codes "help") || text_eq part_line (codes "status"))
      then codes "datacard" ∷ []
      else if text_eq part_line (codes "datacard")
      then codes "ussd" ∷ []
      else if text_eq part_line (codes "datacard ussd")
      then offered sections
      else [] in
    words ++ (if text_eq part_line (codes "status datacard") then codes "devices" ∷ [] else [])

-- The id Command, with a line; without one, a command is completed, and false is the result.
unfoldable pub received_command :
    Texts
    → Env
    → ObjList
    → List Section
    → Bytes
    → Bytes
    → List CardDevice
    → Option (List CardDevice × Handled)
unfolding do_command do_complete
received_command texts env objs sections part_line [] devices =
    some (devices, completes (do_complete part_line sections))
received_command texts env objs sections part_line (c ∷ line) devices =
    elim (texts.start_skip (c ∷ line) (codes "datacard")) [
      | some rest ↦ Option.map (λ r. (r.0, handled r.1)) (do_command texts env objs rest devices)
      | none ↦ some (devices, not_handled)
    ]

-- A name has no space.
abbrev pub IsName : Bytes → Type 0
IsName [] = Unit
IsName (c ∷ cs) = ((c == b' ') ≡ false) × IsName cs

find_space-append :
    (name text : Bytes) → IsName name → find_space (name ++ b' ' ∷ text) ≡ some (length name)
unfolding find_space
find_space-append [] text h = refl
find_space-append (c ∷ cs) text (isnt, h) = rw (isnt, find_space-append cs text h) refl

answered :
    (before after : List CardDevice) (dev : CardDevice) (done : Option (Device × Bool))
    → Option.map {B = List CardDevice × Bytes}
        (λ r. (r.0, ussd_answer r.1))
        (put_back before dev after done)
      ≡ Option.map (λ r. (before ++ record dev { device = r.0 } ∷ after, ussd_answer r.1)) done
answered before after dev none = refl
answered before after dev (some r) = refl

-- A command that starts with ussd, a name, a space and a text, where nothing of the two is cut
-- off: the device with the name sends the text, no other device changes, and the answer says
-- whether it was sent.
pub do_command-send_ussd :
    (texts : Texts) (env : Env) (objs : ObjList) (line name text : Bytes)
    (before after : List CardDevice) (dev : CardDevice)
    → texts.start_skip line (codes "ussd") ≡ some (name ++ b' ' ∷ text)
    → IsName name
    → texts.trim_blanks name ≡ name
    → texts.trim_blanks text ≡ text
    → objs.at_name (before ++ dev ∷ after) name ≡ some (length before)
    → do_command texts env objs line (before ++ dev ∷ after)
      ≡ Option.map
          (λ r. (before ++ record dev { device = r.0 } ∷ after, ussd_answer r.1))
          (send_ussd env text dev.device)
unfolding do_command behind_ussd ussd_command by_place
do_command-send_ussd texts env objs line name text before after dev skips n cut_name cut_text
      place =
    let devices = before ++ dev ∷ after in
    ap (behind_ussd texts env objs devices) skips
    ∙ ap (ussd_command texts env objs (name ++ b' ' ∷ text) devices) (find_space-append name text n)
    ∙ rw
        (
          take-append name (b' ' ∷ text),
          drop_behind name b' ' text,
          cut_name,
          cut_text,
          place,
          with_device-put_back (send_ussd env text) before after dev,
        )
        (answered before after dev (send_ussd env text dev.device))
