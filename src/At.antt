-- ===== src/At.antt =====
-- The AT protocol's vocabulary (datacarddevice.h): commands, result codes, and the command
-- object that waits in the queue.
pub mod Strings
pub mod Classify
pub mod Names
mod Tests
use yate_datacard.Prelude.{Bytes, Option, none, some}

-- `at_cmd_t`
pub data AtCmd : Type 0 where
  cmd_unknown cmd_at cmd_at_a cmd_at_ccwa cmd_at_cfun cmd_at_cgmi cmd_at_cgmm : AtCmd
  cmd_at_cgmr cmd_at_cgsn cmd_at_chup cmd_at_cimi cmd_at_clip cmd_at_clir cmd_at_clvl : AtCmd
  cmd_at_cmgd cmd_at_cmgf cmd_at_cmgr cmd_at_cmgs cmd_at_cnmi cmd_at_cnum cmd_at_cops : AtCmd
  cmd_at_cops_init cmd_at_cpin cmd_at_cpin_enter cmd_at_cpms cmd_at_creg : AtCmd
  cmd_at_creg_init cmd_at_cscs cmd_at_csq cmd_at_cssn cmd_at_cusd cmd_at_cvoice cmd_at_d : AtCmd
  cmd_at_ddsetex cmd_at_dtmf cmd_at_e cmd_at_sms_text cmd_at_u2diag cmd_at_z cmd_at_cmee : AtCmd
  cmd_at_csmp : AtCmd

-- `at_res_t`
pub data AtRes : Type 0 where
  res_parse_error res_unknown res_stin res_boot res_busy res_cend res_clip res_cmgr : AtRes
  res_cms_error res_cmti res_cnum res_conf res_conn res_cops res_cpin res_cpms res_creg : AtRes
  res_csq res_cssi res_cssu res_cusd res_error res_mode res_no_carrier res_no_dialtone : AtRes
  res_ok res_orig res_ring res_rssi res_smmemfull res_sms_prompt res_srvst : AtRes

-- `ATCommand`; the attached object is always a `String`.
pub record AtCommand : Type 0 where
  pub command : Bytes
  pub cmd : AtCmd
  pub res : AtRes
  pub obj : Option Bytes

-- `new ATCommand(command, cmd)`: it expects OK and carries nothing.
abbrev pub at_command : Bytes → AtCmd → AtCommand
at_command text c = record { command = text; cmd = c; res = res_ok; obj = none }

-- `new ATCommand(command, cmd, new String(data))`
abbrev pub at_command_with : Bytes → AtCmd → Bytes → AtCommand
at_command_with text c extra = record { command = text; cmd = c; res = res_ok; obj = some extra }
