-- ===== src/Messages/Sent.antt =====
-- A message from `sendSMS` to the tty: the command, the prompt of the modem, and the text.
use yate_datacard.At.{AtCommand}
use yate_datacard.Device.{Device, append_command}
use yate_datacard.Env.{Env}
use yate_datacard.Loop.{write_command}
use yate_datacard.Messages.{cmgs_command, is_ready, send_sms}
use yate_datacard.Messages.Sms.{send_sms-submit_pdu}
use yate_datacard.Pdu.Parse.{Iconv}
use yate_datacard.Pdu.Submit.{submit_pdu}
use yate_datacard.Prelude.{
  Bytes, Option, [], ap, append-nil, arith, codes, drop, false, get_or, length, length-append,
  lt→ltb, none, pos, refl, some, sym, take, true, ℕ, ℤ, ◌&&◌, ◌++◌, ◌+◌, ◌/◌, ◌<◌, ◌==◌, ◌∙◌, ◌∷◌,
  ◌≡◌, ◌≤◌,
}
use yate_datacard.Response.Sms.{at_response_sms_prompt}
use yate_datacard.Tty.{advance, at_send_sms_text, at_write_full, return_sent, write_loop}

-- `write` on a tty that takes all it is given.
abbrev pub TakesAll : Env → Type 0
TakesAll env = (p : Bytes) → env.write p ≡ some (length p)

drop_all : (p : Bytes) → drop (length p) p ≡ []
drop_all [] = refl
drop_all (c ∷ p) = drop_all p

take_all : (p : Bytes) → take (length p) p ≡ p
take_all [] = refl
take_all (c ∷ p) = ap (λ q. c ∷ q) (take_all p)

nothing_left :
    (env : Env) (fuel : ℕ) (out : Bytes)
    → TakesAll env
    → write_loop env fuel [] out ≡ (out ++ codes "\r", some (pos 0))
unfolding write_loop return_sent
nothing_left env fuel out w = ap (λ n. (out ++ return_sent n, some (pos 0))) (w (codes "\r"))

write_loop_all :
    (env : Env) (buf out : Bytes)
    → TakesAll env
    → write_loop env (length buf) buf out ≡ ((out ++ buf) ++ codes "\r", some (pos 0))
unfolding write_loop advance
write_loop_all env [] out w =
    nothing_left env 0 out w ∙ ap (λ s. (s ++ codes "\r", some (pos 0))) (sym (append-nil out))
write_loop_all env (c ∷ p) out w =
    ap (λ n. advance (write_loop env (length p)) n (c ∷ p) out) (w (c ∷ p))
    ∙ (λ i. write_loop env (length p) (drop_all p i) (out ++ (c ∷ take_all p i)))
    ∙ nothing_left env (length p) (out ++ c ∷ p) w

-- An idle device.
abbrev pub idle : Device → Device
idle d = record d { command_queue = []; lastcmd = none }

at_write_full_all :
    (env : Env) (buf : Bytes) (d : Device)
    → TakesAll env
    → (at_write_full env buf d).0 ≡ record d { sent = (d.sent ++ buf) ++ codes "\r" }
unfolding at_write_full
at_write_full_all env buf d w =
    ap (λ (r : Bytes × Option ℤ). record d { sent = r.0 }) (write_loop_all env buf d.sent w)

not_full : (n : ℕ) → n < 1024 → (n == 1024) ≡ false
not_full n l = ground arith

at_send_sms_text_all :
    (env : Env) (text : Bytes) (d : Device)
    → TakesAll env
    → length text < 1000
    → (at_send_sms_text env text d).0
      ≡ record d { sent = (d.sent ++ (text ++ 0x1a ∷ [])) ++ codes "\r" }
unfolding at_send_sms_text
at_send_sms_text_all env text d w l =
    let size = length-append text (0x1a ∷ []) in
    rw
      (
        not_full (length (text ++ 0x1a ∷ [])) (omega (arith, size)),
        lt→ltb (length (text ++ 0x1a ∷ [])) 1024 (omega (arith, size)),
      )
      (at_write_full_all env (text ++ 0x1a ∷ []) d w)

written_command :
    (env : Env) (command : AtCommand) (d : Device)
    → TakesAll env
    → write_command env (append_command (idle d) command) ≡ record d {
      command_queue = [];
      lastcmd = some command;
      sent = (d.sent ++ command.command) ++ codes "\r";
    }
unfolding write_command
written_command env command d w =
    ap (λ (e : Device). record e { command_queue = []; lastcmd = some command })
      (at_write_full_all env command.command (append_command (idle d) command) w)

-- On an idle device that is ready and has SMS, with a tty that takes all it is given, a message as
-- in `send_sms-submit_pdu` that fits: AT+CMGS with the number of its octets is sent_command, and at the
-- prompt of the modem the PDU with Ctrl-Z behind it, each with a carriage return; no command waits,
-- and the answer to AT+CMGS is awaited.
pub send_sms-Sent :
    (env : Env) (iconv : Iconv) (called sms out : Bytes) (d : Device)
    → TakesAll env
    → (is_ready d && d.has_sms) ≡ true
    → iconv.convert (codes "UTF16BE") (codes "UTF8") sms ≡ some out
    → (get_or called 0 0 == b's') ≡ false
    → length called < 256
    → length out ≤ 140
    → 2 + length (submit_pdu called out) < 160
    → let pdu = submit_pdu called out in
      let command = cmgs_command env (length pdu / 2) (codes "00" ++ pdu) in
      (d' : Device) × (send_sms env iconv called sms (idle d) ≡ some (d', true))
      × ((at_response_sms_prompt env (write_command env d')).0 ≡ record d {
        command_queue = [];
        lastcmd = some command;
        sent =
            (((d.sent ++ command.command) ++ codes "\r") ++ ((codes "00" ++ pdu) ++ 0x1a ∷ []))
            ++ codes "\r";
      })
unfolding at_response_sms_prompt
send_sms-Sent env iconv called sms out d w ready h s n l fits =
    let pdu = submit_pdu called out in
    let command = cmgs_command env (length pdu / 2) (codes "00" ++ pdu) in
    let sent_command : Device = record d {
      command_queue = [];
      lastcmd = some command;
      sent = (d.sent ++ command.command) ++ codes "\r";
    } in
    (
      append_command (idle d) command,
      send_sms-submit_pdu env iconv called sms out (idle d) ready h s n l
          ∙ rw (lt→ltb (2 + length pdu) 160 fits) refl,
      ap (λ e. (at_response_sms_prompt env e).0) (written_command env command d w)
          ∙ at_send_sms_text_all env (codes "00" ++ pdu) sent_command w (omega arith),
    )
