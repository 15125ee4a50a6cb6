-- ===== src/Reader/Queue.antt =====
-- What reading queues, and the command that is out behind it.
use yate_datacard.At.Classify.{at_read_result_classification}
use yate_datacard.Device.{Device, blt_state_want_cmd, blt_state_want_control}
use yate_datacard.Env.{Env}
use yate_datacard.Prelude.{Bytes, [], append-nil, arith, c_str, inl, refl, sym, ℤ, ◌++◌, ◌∷◌}
use yate_datacard.Reader.{handle_line, handle_rd_data, handle_rd_data_from}
use yate_datacard.Response.Answered.{Answers, at_response-Answers}
use yate_datacard.Response.Queue.{Adds, at_response-Adds}
use yate_datacard.Response.Sms.{PduReader}

module _ (env : Env) (pdu : PduReader) (last : ℤ) where
  handle_line-Adds : (rest : Bytes) (d : Device) → Adds (λ e. (handle_line env pdu e rest).device) d
  unfolding handle_line
  handle_line-Adds rest d =
      let line = c_str d.rd_buff in
      at_response-Adds env pdu line (at_read_result_classification line)
        (record d { state = blt_state_want_control })

  handle_line-Answers :
      (rest : Bytes) (d : Device) → Answers (λ e. (handle_line env pdu e rest).device) d
  unfolding handle_line
  handle_line-Answers rest d =
      let line = c_str d.rd_buff in
      at_response-Answers env pdu line (at_read_result_classification line)
        (record d { state = blt_state_want_control })

  pub handle_rd_data-Adds :
      (input : Bytes) (d : Device) → Adds (λ e. (handle_rd_data env pdu last input e).device) d
  unfolding handle_rd_data handle_rd_data_from
  handle_rd_data-Adds [] d = sym (append-nil d.command_queue)
  handle_rd_data-Adds (c ∷ rest) d = ground (
    arith,
    append-nil d.command_queue,
    handle_line-Adds rest d,
    handle_rd_data-Adds rest (record d { rd_buff = [] }),
    handle_rd_data-Adds rest
        (record d { state = blt_state_want_cmd; rd_buff = d.rd_buff ++ c ∷ [] }),
    handle_rd_data-Adds rest (record d { rd_buff = d.rd_buff ++ c ∷ [] }),
  )

  pub handle_rd_data-Answers :
      (input : Bytes) (d : Device) → Answers (λ e. (handle_rd_data env pdu last input e).device) d
  unfolding handle_rd_data handle_rd_data_from
  handle_rd_data-Answers [] d = inl refl
  handle_rd_data-Answers (c ∷ rest) d = ground (
    arith,
    handle_line-Answers rest d,
    handle_rd_data-Answers rest (record d { rd_buff = [] }),
    handle_rd_data-Answers rest
        (record d { state = blt_state_want_cmd; rd_buff = d.rd_buff ++ c ∷ [] }),
    handle_rd_data-Answers rest (record d { rd_buff = d.rd_buff ++ c ∷ [] }),
  )
