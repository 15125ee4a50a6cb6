-- ===== src/Reader/Kept.antt =====
-- What reading keeps of a device.
use yate_datacard.At.{AtRes}
use yate_datacard.At.Classify.{at_read_result_classification}
use yate_datacard.Device.{BltState, Device, blt_state_want_cmd, blt_state_want_control}
use yate_datacard.Env.{Env}
use yate_datacard.Prelude.{
  Bool, Bytes, [], c_str, false, if◌then◌else◌, leb, length, pos, true, ℤ, ◌++◌, ◌∷◌,
}
use yate_datacard.Reader.{
  ReadResult, handle_line, handle_rd_data, handle_rd_data_from, is_eol, rdbuff_max,
}
use yate_datacard.Response.Dispatch.{at_response}
use yate_datacard.Response.Sms.{PduReader}

module _ (env : Env) (pdu : PduReader) (last : ℤ) (P : Device → Type 0)
    (buffered : (s : BltState) (text : Bytes) (d : Device)
      → P d
      → P (record d { state = s; rd_buff = text }))
    (answers_line : (str : Bytes) (r : AtRes) (d : Device)
      → P d
      → P (at_response env pdu str r d).0) where
  handle_line_keeps : (d : Device) (rest : Bytes) → P d → P (handle_line env pdu d rest).device
  unfolding handle_line
  handle_line_keeps d rest h =
      let line = c_str d.rd_buff in
      let r = at_read_result_classification line in
      let d' = record d { state = blt_state_want_control } in
      let told = (at_response env pdu line r d').0 in
      buffered told.state [] told
        (answers_line line r d' (buffered blt_state_want_control d.rd_buff d h))

  by_test : (b : Bool) (r s : ReadResult) → P r.device → P s.device → P (if b then r else s).device
  by_test true r s h k = h
  by_test false r s h k = k

  by_state :
      (state : BltState) (r s : ReadResult)
      → P r.device
      → P s.device
      → P
          (elim state as (λ x. ReadResult) [
            | blt_state_want_control ↦ r
            | blt_state_want_cmd ↦ s
          ]).device
  by_state blt_state_want_control r s h k = h
  by_state blt_state_want_cmd r s h k = k

  pub handle_rd_data_keeps :
      (input : Bytes) (d : Device) → P d → P (handle_rd_data env pdu last input d).device
  unfolding handle_rd_data handle_rd_data_from
  handle_rd_data_keeps [] d h = h
  handle_rd_data_keeps (c ∷ rest) d h =
      let more = d.rd_buff ++ c ∷ [] in
      let cleared = handle_rd_data_keeps rest _ (buffered d.state [] d h) in
      let begun = handle_rd_data_keeps rest _ (buffered blt_state_want_cmd more d h) in
      let longer = handle_rd_data_keeps rest _ (buffered d.state more d h) in
      by_test (leb rdbuff_max (length d.rd_buff)) _ _ cleared (
        by_state d.state _ _
          (by_test (is_eol c) (record { device = d; ret = pos 0; unread = rest }) _ h begun)
          (by_test (is_eol c) _ _ (handle_line_keeps d rest h) longer))
