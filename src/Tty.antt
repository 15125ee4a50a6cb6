-- ===== src/Tty.antt =====
-- Writing to the modem: `at_write_full` and `at_send_sms_text` (at_io.cpp).
pub mod Laws
mod Tests
-- What follows one `write`: its error, or the loop on what is left.
use yate_datacard.Device.{Device}
use yate_datacard.Env.{Env}
use yate_datacard.Prelude.{
  Bytes, Option, [], codes, drop, if◌then◌else◌, length, ltb, negsuc, none, pos, some, suc, take,
  zero, ℕ, ℤ, ◌++◌, ◌==◌, ◌∷◌,
}

unfoldable pub advance :
    (Bytes → Bytes → Bytes × Option ℤ) → Option ℕ → Bytes → Bytes → Bytes × Option ℤ
advance again none p out = (out, some (negsuc 0))
advance again (some n) p out = again (drop n p) (out ++ take n p)

-- What `write` takes of the carriage return; its result is not looked at.
unfoldable pub return_sent : Option ℕ → Bytes
return_sent none = []
return_sent (some n) = take n (codes "\r")

-- The loop of `at_write_full` over what is left of the buffer, with all that was written so far.
-- No result means that the fuel ran out, which the laws exclude.
unfoldable pub write_loop : Env → ℕ → Bytes → Bytes → Bytes × Option ℤ
unfolding advance return_sent
write_loop env fuel [] out = (out ++ return_sent (env.write (codes "\r")), some (pos 0))
write_loop env zero (c ∷ p) out = (out, none)
write_loop env (suc fuel) (c ∷ p) out =
    advance (write_loop env fuel) (env.write (c ∷ p)) (c ∷ p) out

unfoldable pub at_write_full : Env → Bytes → Device → Device × Option ℤ
unfolding write_loop
at_write_full env buf d =
    let (out, ret) = write_loop env (length buf) buf d.sent in (record d { sent = out }, ret)

-- `char buf[1024]` with `snprintf(buf, 1024, "%s\x1a", pdu)`, of which `ret` bytes are written;
-- where `ret` is larger than the buffer, what lies behind the buffer is written too.
unfoldable pub sms_buffer : Env → Bytes → Bytes
sms_buffer env text = take (length text) (take 1023 text ++ (0 ∷ env.behind_buffer))

unfoldable pub at_send_sms_text : Env → Bytes → Device → Device × Option ℤ
unfolding sms_buffer at_write_full
at_send_sms_text env pdu d =
    let text = pdu ++ 0x1a ∷ [] in
    if length text == 1024
    then (d, some (negsuc 0))
    else if ltb (length text) 1024
    then at_write_full env text d
    else at_write_full env (sms_buffer env text) d
