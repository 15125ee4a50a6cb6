-- ===== src/Reader/Pin.antt =====
-- Reading does not raise the PIN budget.
use yate_datacard.At.Classify.{at_read_result_classification}
use yate_datacard.Device.{Device, blt_state_want_cmd, blt_state_want_control}
use yate_datacard.Env.{Env}
use yate_datacard.Prelude.{Bytes, [], arith, c_str, ℤ, ◌++◌, ◌∷◌, ◌≤◌}
use yate_datacard.Reader.{handle_line, handle_rd_data, handle_rd_data_from}
use yate_datacard.Response.Pin.{at_response-pin_budget, pin_budget}
use yate_datacard.Response.Sms.{PduReader}

module _ (env : Env) (pdu : PduReader) (last : ℤ) where
  handle_line-pin_budget :
      (d : Device) (rest : Bytes) → pin_budget (handle_line env pdu d rest).device ≤ pin_budget d
  unfolding handle_line
  handle_line-pin_budget d rest =
      let line = c_str d.rd_buff in
      unfold pin_budget in
      at_response-pin_budget env pdu line (at_read_result_classification line)
        (record d { state = blt_state_want_control })

  pub handle_rd_data-pin_budget :
      (input : Bytes) (d : Device)
      → pin_budget (handle_rd_data env pdu last input d).device ≤ pin_budget d
  unfolding handle_rd_data handle_rd_data_from pin_budget
  handle_rd_data-pin_budget [] d = omega arith
  handle_rd_data-pin_budget (c ∷ rest) d = ground (
    arith,
    handle_line-pin_budget d rest,
    handle_rd_data-pin_budget rest (record d { rd_buff = [] }),
    handle_rd_data-pin_budget rest
        (record d { state = blt_state_want_cmd; rd_buff = d.rd_buff ++ c ∷ [] }),
    handle_rd_data-pin_budget rest (record d { rd_buff = d.rd_buff ++ c ∷ [] }),
  )
