-- ===== src/Reader/Lines.antt =====
-- How characters become lines.
use yate_datacard.At.Classify.{at_read_result_classification}
use yate_datacard.Device.{BltState, Device, blt_state_want_cmd, blt_state_want_control}
use yate_datacard.Env.{Env}
use yate_datacard.Prelude.{
  All, Bool-cases, Bytes, [], append-nil, append_assoc, arith, c_str, false, inl, inr, leb, length,
  length-append, refl, true, ℕ, ℤ, ◌++◌, ◌+◌, ◌<◌, ◌∙◌, ◌∷◌, ◌≡◌, ◌≢◌, ◌≤◌, ◌⊎◌,
}
use yate_datacard.Reader.{handle_line, handle_rd_data, handle_rd_data_from, is_eol, rdbuff_max}
use yate_datacard.Response.Dispatch.{at_response}
use yate_datacard.Response.Sms.{PduReader}

-- A line: characters that are no end of line and no NUL.
abbrev pub IsLine : Bytes → Type 0
IsLine = All (λ c. (c ≢ 13) × (c ≢ 10) × (c ≢ 0))

c_str-IsLine : (s : Bytes) → IsLine s → c_str s ≡ s
c_str-IsLine [] h = refl
c_str-IsLine (c ∷ s) (h, t) = ground (arith, c_str-IsLine s t)

has_room : (n : ℕ) → n < rdbuff_max → leb rdbuff_max n ≡ false
has_room n h = ground arith

eol_true : (c : ℕ) → (c ≡ 13) ⊎ (c ≡ 10) → is_eol c ≡ true
eol_true c h = ground arith

eol_false : (c : ℕ) → (c ≢ 13) × (c ≢ 10) × (c ≢ 0) → is_eol c ≡ false
eol_false c h = ground arith

longer : (s : Bytes) (c : ℕ) → leb rdbuff_max (length s) ≡ false → length (s ++ c ∷ []) ≤ rdbuff_max
longer s c h = ground (arith, length-append s (c ∷ []))

state_cases : (s : BltState) → (s ≡ blt_state_want_control) ⊎ (s ≡ blt_state_want_cmd)
state_cases blt_state_want_control = inl refl
state_cases blt_state_want_cmd = inr refl

module _ (env : Env) (pdu : PduReader) (last : ℤ) where
  line_ends :
      (c : ℕ) (rest : Bytes) (d : Device)
      → leb rdbuff_max (length d.rd_buff) ≡ false
      → d.state ≡ blt_state_want_cmd
      → is_eol c ≡ true
      → handle_rd_data_from env pdu last (c ∷ rest) d ≡ handle_line env pdu d rest
  unfolding handle_rd_data_from
  line_ends c rest d f s e = rw (f, s, e)

  line_grows :
      (c : ℕ) (rest : Bytes) (d : Device)
      → leb rdbuff_max (length d.rd_buff) ≡ false
      → d.state ≡ blt_state_want_cmd
      → is_eol c ≡ false
      → handle_rd_data_from env pdu last (c ∷ rest) d
        ≡ handle_rd_data_from env pdu last rest (record d { rd_buff = d.rd_buff ++ c ∷ [] })
  unfolding handle_rd_data_from
  line_grows c rest d f s e = rw (f, s, e) (rw s)

  line_begins :
      (c : ℕ) (rest : Bytes) (d : Device)
      → leb rdbuff_max (length d.rd_buff) ≡ false
      → d.state ≡ blt_state_want_control
      → is_eol c ≡ false
      → handle_rd_data_from env pdu last (c ∷ rest) d
        ≡ handle_rd_data_from env pdu last rest
            (record d { state = blt_state_want_cmd; rd_buff = d.rd_buff ++ c ∷ [] })
  unfolding handle_rd_data_from
  line_begins c rest d f s e = rw (f, s, e)

  -- Inside a line that fits, the characters up to its end go to the buffer.
  gather :
      (line rest : Bytes) (eol : ℕ) (d : Device)
      → d.state ≡ blt_state_want_cmd
      → IsLine line
      → (eol ≡ 13) ⊎ (eol ≡ 10)
      → length d.rd_buff + length line < rdbuff_max
      → handle_rd_data_from env pdu last (line ++ (eol ∷ rest)) d
        ≡ handle_line env pdu (record d { rd_buff = d.rd_buff ++ line }) rest
  gather [] rest eol d s l e fits =
      rw append-nil
        (line_ends eol rest d (has_room (length d.rd_buff) (omega arith)) s (eol_true eol e))
  gather (c ∷ line) rest eol d s (h, l) e fits =
      line_grows c (line ++ (eol ∷ rest)) d (has_room (length d.rd_buff) (omega arith)) s
        (eol_false c h)
      ∙ gather line rest eol (record d { rd_buff = d.rd_buff ++ c ∷ [] }) s l e
          (omega (arith, length-append d.rd_buff (c ∷ [])))
      ∙ rw append_assoc

  handle_line_lem :
      (line rest : Bytes) (d : Device)
      → IsLine line
      → let answer =
          at_response env pdu line
            (at_read_result_classification line)
            (record d { state = blt_state_want_control; rd_buff = line }) in
        handle_line env pdu (record d { state = blt_state_want_cmd; rd_buff = line }) rest
        ≡ record { device = record answer.0 { rd_buff = [] }; ret = answer.1; unread = rest }
  unfolding handle_line
  handle_line_lem line rest d l = rw (c_str-IsLine line l)

  -- A line that fits, with an end of line behind it, is answered by `at_response` once, as the
  -- result code that it classifies as; the reader is then between lines with an empty buffer and
  -- has read no further.
  pub handle_rd_data_line :
      (c : ℕ) (line rest : Bytes) (eol : ℕ) (d : Device)
      → d.state ≡ blt_state_want_control
      → d.rd_buff ≡ []
      → IsLine (c ∷ line)
      → (eol ≡ 13) ⊎ (eol ≡ 10)
      → length (c ∷ line) < rdbuff_max
      → let answer =
          at_response env pdu
            (c ∷ line)
            (at_read_result_classification (c ∷ line))
            (record d { state = blt_state_want_control; rd_buff = c ∷ line }) in
        handle_rd_data env pdu last ((c ∷ line) ++ (eol ∷ rest)) d
        ≡ record { device = record answer.0 { rd_buff = [] }; ret = answer.1; unread = rest }
  unfolding handle_rd_data
  handle_rd_data_line c line rest eol d s b (h, l) e fits =
      let room = has_room (length d.rd_buff) (rw b (omega arith)) in
      line_begins c (line ++ (eol ∷ rest)) d room s (eol_false c h)
      ∙ gather line rest eol
          (record d { state = blt_state_want_cmd; rd_buff = d.rd_buff ++ c ∷ [] }) refl l e
          (rw b (omega arith))
      ∙ rw b (handle_line_lem (c ∷ line) rest d (h, l))

  -- Whatever is read, the buffer's position stays within the buffer: no character is stored behind
  -- it.
  pub handle_rd_data_bounded :
      (input : Bytes) (d : Device)
      → length d.rd_buff ≤ rdbuff_max
      → length (handle_rd_data env pdu last input d).device.rd_buff ≤ rdbuff_max
  unfolding handle_rd_data handle_rd_data_from handle_line
  handle_rd_data_bounded [] d h = h
  handle_rd_data_bounded (c ∷ rest) d h =
      let cleared = handle_rd_data_bounded rest (record d { rd_buff = [] }) (omega arith) in
      elim (Bool-cases (leb rdbuff_max (length d.rd_buff))) [
        | inl full ↦ rw full cleared
        | inr room ↦
            let grown_room = longer d.rd_buff c room in
            elim (state_cases d.state) [
              | inl s ↦ elim (Bool-cases (is_eol c)) [
                | inl e ↦ rw (room, s, e) h
                | inr e ↦
                    rw (room, s, e)
                      (handle_rd_data_bounded rest
                        (record d { state = blt_state_want_cmd; rd_buff = d.rd_buff ++ c ∷ [] })
                        grown_room)
              ]
              | inr s ↦ elim (Bool-cases (is_eol c)) [
                | inl e ↦ rw (room, s, e) (omega arith)
                | inr e ↦
                    rw (room, s, e)
                      (handle_rd_data_bounded rest (record d { rd_buff = d.rd_buff ++ c ∷ [] })
                        grown_room)
              ]
            ]
      ]
