-- ===== src/Reader.antt =====
-- `handle_rd_data` (at_io.cpp): characters from the data tty are gathered to lines, and a line is
-- handed to `at_response`.
pub mod Lines
pub mod Pin
pub mod Queue
pub mod Kept
pub mod Sent
mod Tests
use yate_datacard.At.Classify.{at_read_result_classification}
use yate_datacard.Device.{Device, blt_state_want_cmd, blt_state_want_control}
use yate_datacard.Env.{Env}
use yate_datacard.Prelude.{
  Bool, Bytes, [], c_str, if◌then◌else◌, leb, length, pos, ℕ, ℤ, ◌++◌, ◌==◌, ◌||◌, ◌∷◌,
}
use yate_datacard.Response.Dispatch.{at_response}
use yate_datacard.Response.Sms.{PduReader}

abbrev pub rdbuff_max : ℕ
rdbuff_max = 1024

-- What a call leaves: the device, its result, and the characters that it has not read.
pub record ReadResult : Type 0 where
  pub device : Device
  pub ret : ℤ
  pub unread : Bytes

abbrev is_eol : ℕ → Bool
is_eol c = c == 13 || c == 10

-- A whole line is in the buffer; it is empty behind it.
pub handle_line : Env → PduReader → Device → Bytes → ReadResult
handle_line env pdu d rest =
    let line = d.rd_buff in
    let (answered, ret) =
      at_response env pdu (c_str line) (at_read_result_classification (c_str line))
        (record d { state = blt_state_want_control }) in
    record { device = record answered { rd_buff = [] }; ret = ret; unread = rest }

-- `read` gives the characters of `input`, then `last`: 0 at the end of the file, or an error. The
-- position in the buffer is the length of `rd_buff`; what stands behind it is zero. A buffer that
-- is full is cleared, and the character that came is lost.
handle_rd_data_from : Env → PduReader → ℤ → Bytes → Device → ReadResult
unfolding handle_line
handle_rd_data_from env pdu last [] d = record { device = d; ret = last; unread = [] }
handle_rd_data_from env pdu last (c ∷ rest) d =
    let cleared = handle_rd_data_from env pdu last rest (record d { rd_buff = [] }) in
    let begun =
      handle_rd_data_from env pdu last rest
        (record d { state = blt_state_want_cmd; rd_buff = d.rd_buff ++ c ∷ [] }) in
    let more = handle_rd_data_from env pdu last rest (record d { rd_buff = d.rd_buff ++ c ∷ [] }) in
    if leb rdbuff_max (length d.rd_buff) then cleared else elim d.state [
      | blt_state_want_control ↦
          if is_eol c then record { device = d; ret = pos 0; unread = rest } else begun
      | blt_state_want_cmd ↦ if is_eol c then handle_line env pdu d rest else more
    ]

unfoldable pub handle_rd_data : Env → PduReader → ℤ → Bytes → Device → ReadResult
unfolding handle_rd_data_from
handle_rd_data = handle_rd_data_from
