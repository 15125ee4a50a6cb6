-- ===== src/Loop/Failures.antt =====
-- Lines of the modem that end the connection.
use yate_datacard.At.{
  AtCmd, AtCommand, AtRes, cmd_at, cmd_at_cmgr, res_clip, res_error, res_ok, res_unknown,
}
use yate_datacard.At.Classify.{at_read_result_classification}
use yate_datacard.Device.{Device, blt_state_want_control}
use yate_datacard.Device.Connect.{disconnect}
use yate_datacard.Device.Laws.{IsDown, disconnect_lem}
use yate_datacard.Env.{Env}
use yate_datacard.Loop.{Round, continues, ends, read_result, readable, round}
use yate_datacard.Prelude.{
  Bytes, Option, [], ap, arith, codes, eq_ℤ, false, if◌then◌else◌, inl, length, negsuc, none, pos,
  refl, some, true, ℕ, ℤ, ◌++◌, ◌<◌, ◌∙◌, ◌∷◌, ◌≡◌,
}
use yate_datacard.Reader.{rdbuff_max}
use yate_datacard.Reader.Lines.{IsLine, handle_rd_data_line}
use yate_datacard.Response.Call.{at_response_clip}
use yate_datacard.Response.Dispatch.{at_response, unknown_line}
use yate_datacard.Response.Error.{at_response_error, error_last, error_switch, takes_error}
use yate_datacard.Response.Laws.{at_response_error_lem, sets_sms_up}
use yate_datacard.Response.Parse.{at_parse_clip}
use yate_datacard.Response.Sms.{PduReader, at_response_pdu}

-- Between two lines: the reader waits for the first character of the next one.
abbrev pub BetweenLines : Device → Type 0
BetweenLines d = (d.state ≡ blt_state_want_control) × (d.rd_buff ≡ [])

-- The device as it answers a line, with the line in its buffer.
abbrev pub reading : Bytes → Device → Device
reading line d = record d { state = blt_state_want_control; rd_buff = line }

-- What the line's handler leaves, with the buffer cleared.
abbrev answer_of : Device × ℤ → Round
answer_of r =
    if eq_ℤ r.1 (pos 0)
    then continues (record r.0 { rd_buff = [] })
    else ends (disconnect (record r.0 { rd_buff = [] }))

module _ (env : Env) (pdu : PduReader) where
  -- A round that reads one line answers it as what it classifies as, and disconnects the device
  -- and ends the thread exactly if the handler's result is not 0.
  pub round_line :
      (c : ℕ) (line : Bytes) (last : ℤ) (d : Device)
      → BetweenLines d
      → IsLine (c ∷ line)
      → length (c ∷ line) < rdbuff_max
      → round env pdu (readable ((c ∷ line) ++ (13 ∷ [])) last) d
        ≡ answer_of (
            at_response env pdu
              (c ∷ line)
              (at_read_result_classification (c ∷ line))
              (reading (c ∷ line) d))
  unfolding round
  round_line c line last d (s, b) l fits =
      ap read_result (handle_rd_data_line env pdu last c line [] 13 d s b l (inl refl) fits)

  -- So a handler whose result is known decides the round.
  round_answer :
      (c : ℕ) (line : Bytes) (fin : ℤ) (d : Device) (r : AtRes) (after : Device × ℤ)
      → BetweenLines d
      → IsLine (c ∷ line)
      → length (c ∷ line) < rdbuff_max
      → at_read_result_classification (c ∷ line) ≡ r
      → at_response env pdu (c ∷ line) r (reading (c ∷ line) d) ≡ after
      → round env pdu (readable ((c ∷ line) ++ (13 ∷ [])) fin) d ≡ answer_of after
  round_answer c line fin d r after b l fits k e =
      round_line c line fin d b l fits
      ∙ ap (λ x. answer_of (at_response env pdu (c ∷ line) x (reading (c ∷ line) d))) k
      ∙ ap answer_of e

  error_switch_voice :
      (c : AtCmd) (obj : Option Bytes) (d : Device)
      → sets_sms_up c ≡ true
      → d.initialized ≡ false
      → (error_switch c obj d).0.initialized ≡ d.has_voice
  unfolding error_switch
  error_switch_voice cmd_at obj d s e = cc
  error_switch_voice c obj d s e = ground arith

  error_last_up :
      (last : AtCommand) (d : Device)
      → takes_error last.res ≡ true
      → (error_last (some last) d).0.initialized ≡ (error_switch last.cmd last.obj d).0.initialized
  unfolding error_last
  error_last_up last d h = rw h

  error_voice :
      (last : AtCommand) (d : Device)
      → d.lastcmd ≡ some last
      → last.res ≡ res_ok
      → sets_sms_up last.cmd ≡ true
      → d.initialized ≡ false
      → (at_response_error d).0.initialized ≡ d.has_voice
  unfolding at_response_error takes_error
  error_voice last d out ok sms down =
      ap (λ o. (error_last o d).0.initialized) out
      ∙ error_last_up last d (ap takes_error ok)
      ∙ error_switch_voice last.cmd last.obj d sms down

  error_fatal :
      (last : AtCommand) (d : Device)
      → d.lastcmd ≡ some last
      → last.res ≡ res_ok
      → sets_sms_up last.cmd ≡ true
      → d.initialized ≡ false
      → (at_response_error d).1 ≡ negsuc 0
  error_fatal last d out ok sms down = (at_response_error_lem last d out ok).1 ∙ ground arith

  error-IsLine : IsLine (codes "ERROR")
  error-IsLine = omega arith

  error_classified : at_read_result_classification (codes "ERROR") ≡ res_error
  unfolding at_read_result_classification
  error_classified = refl

  -- A modem with voice but without messages is set up for calls, and then disconnected all the
  -- same: an ERROR for a command that sets messages up ends the connection of a device that is
  -- not initialised.
  pub no_sms_ends :
      (last : AtCommand) (fin : ℤ) (d : Device)
      → BetweenLines d
      → d.lastcmd ≡ some last
      → last.res ≡ res_ok
      → sets_sms_up last.cmd ≡ true
      → d.initialized ≡ false
      → (d' : Device) × (round env pdu (readable (codes "ERROR\r") fin) d ≡ ends (disconnect d'))
        × (d'.initialized ≡ d.has_voice)
  unfolding at_response
  no_sms_ends last fin d b out ok sms down =
      let x = reading (codes "ERROR") d in
      (
        record (at_response_error x).0 { rd_buff = [] },
        round_answer b'E' (codes "RROR") fin d res_error ((at_response_error x).0, negsuc 0) b
            error-IsLine (omega arith) error_classified
            (ap (λ (n : ℤ). ((at_response_error x).0, n)) (error_fatal last x out ok sms down)),
        error_voice last x out ok sms down,
      )

  unknown_pdu :
      (str : Bytes) (last : AtCommand) (d : Device)
      → last.cmd ≡ cmd_at_cmgr
      → unknown_line pdu str (some last) d ≡ at_response_pdu pdu str d
  unfolding unknown_line
  unknown_pdu str last d e = rw e

  unread_pdu :
      (str : Bytes) (d : Device)
      → d.incoming_pdu ≡ true
      → pdu.parse str ≡ none
      → at_response_pdu pdu str d ≡ (record d { incoming_pdu = false }, pos 1)
  unfolding at_response_pdu
  unread_pdu str d waits bad = rw (waits, bad, at_response_pdu)

  -- A message that cannot be read ends the connection: behind `+CMGR:`, a line that no handler
  -- takes, while AT+CMGR is out, is read as a PDU, and where that fails the device is
  -- disconnected and the thread ends.
  pub bad_pdu_ends :
      (c : ℕ) (line : Bytes) (last : AtCommand) (fin : ℤ) (d : Device)
      → BetweenLines d
      → IsLine (c ∷ line)
      → length (c ∷ line) < rdbuff_max
      → at_read_result_classification (c ∷ line) ≡ res_unknown
      → d.lastcmd ≡ some last
      → last.cmd ≡ cmd_at_cmgr
      → d.incoming_pdu ≡ true
      → pdu.parse (c ∷ line) ≡ none
      → round env pdu (readable ((c ∷ line) ++ (13 ∷ [])) fin) d
        ≡ ends (
            disconnect
              (record d { state = blt_state_want_control; rd_buff = []; incoming_pdu = false }))
  unfolding at_response
  bad_pdu_ends c line last fin d b l fits u out cmgr waits bad =
      let x = reading (c ∷ line) d in
      round_answer c line fin d res_unknown (record x { incoming_pdu = false }, pos 1) b l fits u
        (ap (λ o. unknown_line pdu (c ∷ line) o x) out
          ∙ unknown_pdu (c ∷ line) last x cmgr
          ∙ unread_pdu (c ∷ line) x waits bad)

  refused_clip :
      (str : Bytes) (d : Device)
      → d.initialized ≡ true
      → d.needring ≡ false
      → env.start_router (at_parse_clip env str) ≡ false
      → (at_response_clip env str d).1 ≡ negsuc 0
  unfolding at_response_clip
  refused_clip str d up quiet refused = ground arith

  clip_classified :
      (rest : Bytes) → at_read_result_classification (codes "+CLIP:" ++ rest) ≡ res_clip
  unfolding at_read_result_classification
  clip_classified rest = refl

  clip_connected :
      (str : Bytes) (d : Device) → (at_response_clip env str d).0.connected ≡ d.connected
  unfolding at_response_clip
  clip_connected str d = ground arith

  -- A call that cannot be routed ends the connection of the modem: the device is down, and the
  -- AT+CHUP that was queued to refuse the call is dropped with the queue, never written.
  pub refused_call_ends :
      (rest : Bytes) (fin : ℤ) (d : Device)
      → BetweenLines d
      → IsLine (codes "+CLIP:" ++ rest)
      → length (codes "+CLIP:" ++ rest) < rdbuff_max
      → d.connected ≡ true
      → d.initialized ≡ true
      → d.needring ≡ false
      → env.start_router (at_parse_clip env (codes "+CLIP:" ++ rest)) ≡ false
      → (d' : Device) × (round env pdu (readable ((codes "+CLIP:" ++ rest) ++ (13 ∷ [])) fin) d
          ≡ ends d')
        × IsDown d'
  unfolding at_response
  refused_call_ends rest fin d b l fits conn up quiet refused =
      let str = codes "+CLIP:" ++ rest in
      let x = reading str d in
      let y = record (at_response_clip env str x).0 { rd_buff = [] } in
      (
        disconnect y,
        round_answer b'+' (codes "CLIP:" ++ rest) fin d res_clip
            ((at_response_clip env str x).0, negsuc 0) b l fits (clip_classified rest)
            (ap (λ (n : ℤ). ((at_response_clip env str x).0, n))
              (refused_clip str x up quiet refused)),
        (disconnect_lem y (clip_connected str x ∙ conn)).0,
      )
