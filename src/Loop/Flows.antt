-- ===== src/Loop/Flows.antt =====
-- Commands that follow one another: dialling, and reading a message.
use mathlib.Core.Path.{subst}
use yate_datacard.At.{
  AtCommand, at_command, at_command_with, cmd_at_clir, cmd_at_cmgd, cmd_at_cmgr, cmd_at_d,
}
use yate_datacard.Device.{Device}
use yate_datacard.Device.Calls.{new_call, pres_tmp, valid_pres}
use yate_datacard.Env.{Env}
use yate_datacard.Loop.{write_command}
use yate_datacard.Loop.Init.{exchange}
use yate_datacard.Prelude.{
  Bool-cases, Bytes, [], codes, false, if◌then◌else◌, inl, inr, is_neg, negsuc, none, pos, refl,
  some, sym, true, ℕ, ℤ, ◌++◌, ◌∷◌, ◌≡◌, ◌⊎◌,
}
use yate_datacard.Response.Error.{at_response_error}
use yate_datacard.Response.Ok.{at_response_ok}
use yate_datacard.Response.Parse.{at_parse_cmti}
use yate_datacard.Response.Sms.{at_response_cmti}
use yate_datacard.Tty.{at_write_full}

-- No command waits, and none is out.
abbrev pub IsIdle : Device → Type 0
IsIdle d = (d.command_queue ≡ []) × (d.lastcmd ≡ none)

-- The command that waits is written, and answered by ERROR.
pub refusal : Env → Device → Device
refusal env d = (at_response_error (write_command env d)).0

-- The command that dials a number is the only one that waits.
abbrev pub Dials : Bytes → Device → Type 0
Dials called d = d.command_queue ≡ at_command (codes "ATD" ++ (called ++ codes ";")) cmd_at_d ∷ []

-- AT+CLIR with a presentation, which remembers the number.
abbrev pub clir_command : Env → Bytes → ℤ → AtCommand
clir_command env called p =
    at_command_with (codes "AT+CLIR=" ++ env.string_of_int p) cmd_at_clir called

-- AT+CLIR is the only command that waits, and it is what is written, behind what was sent before,
-- and what is out then.
abbrev pub AsksFirst : Env → AtCommand → Device → Device → Type 0
AsksFirst env clir before d =
    (d.command_queue ≡ clir ∷ [])
    × ((write_command env d).sent ≡ (at_write_full env clir.command before).0.sent)
    × ((write_command env d).lastcmd ≡ some clir)

-- A device with just one command waiting.
abbrev with_command : AtCommand → Device → Device
with_command c d = record d { command_queue = c ∷ []; lastcmd = none }

module _ (env : Env) where
  clir_exchange :
      (called text : Bytes) (d : Device)
      → Dials called (exchange env (with_command (at_command_with text cmd_at_clir called) d))
        × Dials called (refusal env (with_command (at_command_with text cmd_at_clir called) d))
  unfolding exchange refusal at_response_ok at_response_error write_command at_write_full
  clir_exchange called text d = (refl, refl)

  clir_first :
      (c : AtCommand) (d : Device)
      → AsksFirst env c d
          (with_command c (record d { audio_buf = []; outgoing = true; needchup = true }))
  unfolding write_command at_write_full
  clir_first c d = (refl, refl, refl)

  valid_call :
      (called : Bytes) (callingpres : ℤ) (d : Device)
      → IsIdle d
      → valid_pres (pres_tmp d.callingpres callingpres) ≡ true
      → new_call env called callingpres d
        ≡ with_command
            (at_command_with
              (codes "AT+CLIR=" ++ env.string_of_int (pres_tmp d.callingpres callingpres))
              cmd_at_clir
              called)
            (record d { audio_buf = []; outgoing = true; needchup = true })
  unfolding new_call
  valid_call called callingpres d (q, l) v = λ i. record d {
    command_queue =
        q i
        ++ (if v i
            then at_command_with
                (codes "AT+CLIR=" ++ env.string_of_int (pres_tmp d.callingpres callingpres))
                cmd_at_clir called
            else at_command (codes "ATD" ++ (called ++ codes ";")) cmd_at_d)
          ∷ [];
    lastcmd = l i;
    audio_buf = [];
    outgoing = true;
    needchup = true;
  }

  -- A new call on an idle device dials its number. With a presentation that is valid, of the call
  -- or else of the configuration, AT+CLIR with it is the one command that waits, is written first
  -- and is then out, and ATD with the number is the one command that waits after its OK and after
  -- its ERROR; without, ATD with the number is the one command that waits at once.
  pub new_call-Dials :
      (called : Bytes) (callingpres : ℤ) (d : Device)
      → IsIdle d
      → let p = pres_tmp d.callingpres callingpres in
        let d' = new_call env called callingpres d in
        ((valid_pres p ≡ true)
          × AsksFirst env (clir_command env called p) d d'
          × Dials called (exchange env d')
          × Dials called (refusal env d'))
        ⊎ ((valid_pres p ≡ false) × Dials called d')
  unfolding new_call
  new_call-Dials called callingpres d rests =
      elim (Bool-cases (valid_pres (pres_tmp d.callingpres callingpres))) [
        | inl v ↦
            let text = codes "AT+CLIR=" ++ env.string_of_int (pres_tmp d.callingpres callingpres) in
            let from = record d { audio_buf = []; outgoing = true; needchup = true } in
            let clir = clir_command env called (pres_tmp d.callingpres callingpres) in
            let both = clir_exchange called text from in
            let all_three =
              subst
                (λ x.
                  AsksFirst env clir d x
                  × Dials called (exchange env x)
                  × Dials called (refusal env x))
                (sym (valid_call called callingpres d rests v))
                (clir_first clir d, both.0, both.1) in
            inl (v, all_three.0, all_three.1, all_three.2)
        | inr v ↦ inr (
          v,
          λ i.
              (rests.0 i)
              ++ (if v i
                  then at_command_with
                      (codes "AT+CLIR=" ++ env.string_of_int (pres_tmp d.callingpres callingpres))
                      cmd_at_clir called
                  else at_command (codes "ATD" ++ (called ++ codes ";")) cmd_at_d)
                ∷ [],
        )
      ]

  read_exchange :
      (text index : Bytes) (d : Device)
      → (exchange env (with_command (at_command_with text cmd_at_cmgr index) d)).command_queue ≡ (
          if d.auto_delete_sms then at_command (codes "AT+CMGD=" ++ index) cmd_at_cmgd ∷ [] else [])
  unfolding exchange at_response_ok write_command at_write_full
  read_exchange text index d = elim (Bool-cases d.auto_delete_sms) [ inl h ↦ rw h | inr h ↦ rw h ]

  read_command :
      (str : Bytes) (i : ℕ) (d : Device)
      → IsIdle d
      → d.disablesms ≡ false
      → at_parse_cmti str ≡ pos i
      → (at_response_cmti env str d).0
        ≡ with_command
            (at_command_with
              (codes "AT+CMGR=" ++ env.string_of_int (pos i))
              cmd_at_cmgr
              (env.string_of_int (pos i)))
            d
  unfolding at_response_cmti
  read_command str i d (q, l) on e = λ j.
      let read : Device × ℤ = (
        record d {
          command_queue =
              q j
              ++ at_command_with (codes "AT+CMGR=" ++ env.string_of_int (e j)) cmd_at_cmgr
                  (env.string_of_int (e j))
                ∷ [];
          lastcmd = l j;
        },
        pos 0,
      ) in
      let done : Device × ℤ =
        if is_neg (e j) then (d, negsuc 0) else if on j then (d, pos 0) else read in
      done.0

  -- A message that arrives on an idle device is read by its index, and the same index is deleted
  -- when it has been read, if the configuration says so.
  pub message_read_deleted :
      (str : Bytes) (i : ℕ) (d : Device)
      → IsIdle d
      → d.disablesms ≡ false
      → at_parse_cmti str ≡ pos i
      → let index = env.string_of_int (pos i) in
        let d' = (at_response_cmti env str d).0 in
        (d'.command_queue ≡ at_command_with (codes "AT+CMGR=" ++ index) cmd_at_cmgr index ∷ [])
        × ((exchange env d').command_queue ≡ (
            if d.auto_delete_sms
            then at_command (codes "AT+CMGD=" ++ index) cmd_at_cmgd ∷ []
            else []))
  message_read_deleted str i d rests on e =
      let index = env.string_of_int (pos i) in
      let text = codes "AT+CMGR=" ++ index in
      subst
        (λ x.
          (x.command_queue ≡ at_command_with text cmd_at_cmgr index ∷ [])
          × ((exchange env x).command_queue ≡ (
              if d.auto_delete_sms
              then at_command (codes "AT+CMGD=" ++ index) cmd_at_cmgd ∷ []
              else [])))
        (sym (read_command str i d rests on e)) (refl, read_exchange text index d)
