-- ===== src/Reader/Tests.antt =====
-- Runs of the reader.
use yate_datacard.At.Classify.{at_read_result_classification}
use yate_datacard.Prelude.{arith, codes, inl, length, negsuc, pos, refl, ◌≡◌, ◌≤◌}
use yate_datacard.Reader.{handle_rd_data, rdbuff_max}
use yate_datacard.Reader.Lines.{handle_rd_data_bounded, handle_rd_data_line}
use yate_datacard.Response.Dispatch.{at_response}
use yate_datacard.Response.Ok.{at_response_ok, ok_last}
use yate_datacard.Samples.{env, no_pdu, up_device}

handle_rd_data_line_example :
    handle_rd_data env no_pdu (negsuc 0) (codes "OK\rNO CARRIER\r") up_device
    ≡ record { device = up_device; ret = pos 0; unread = codes "NO CARRIER\r" }
unfolding at_response at_response_ok ok_last at_read_result_classification
handle_rd_data_line_example =
    handle_rd_data_line env no_pdu (negsuc 0) b'O' (codes "K") (codes "NO CARRIER\r") 13 up_device
      refl refl (omega arith) (inl refl) (omega arith)

handle_rd_data_bounded_example :
    length (handle_rd_data env no_pdu (pos 0) (codes "+CREG: 1") up_device).device.rd_buff
    ≤ rdbuff_max
handle_rd_data_bounded_example =
    handle_rd_data_bounded env no_pdu (pos 0) (codes "+CREG: 1") up_device (omega arith)

-- A line that comes in two parts.
two_parts : (handle_rd_data env no_pdu (pos 0) (codes "O") up_device).device.rd_buff ≡ codes "O"
unfolding handle_rd_data
two_parts = refl
