-- ===== src/At/Strings.antt =====
-- The names that the log prints (at_parse.cpp, `at_cmd2str` and `at_res2str`).
use yate_datacard.At.{
  AtCmd, AtRes, cmd_at, cmd_at_a, cmd_at_ccwa, cmd_at_cfun, cmd_at_cgmi, cmd_at_cgmm, cmd_at_cgmr,
  cmd_at_cgsn, cmd_at_chup, cmd_at_cimi, cmd_at_clip, cmd_at_clir, cmd_at_clvl, cmd_at_cmee,
  cmd_at_cmgd, cmd_at_cmgf, cmd_at_cmgr, cmd_at_cmgs, cmd_at_cnmi, cmd_at_cnum, cmd_at_cops,
  cmd_at_cops_init, cmd_at_cpin, cmd_at_cpms, cmd_at_creg, cmd_at_creg_init, cmd_at_cscs,
  cmd_at_csmp, cmd_at_csq, cmd_at_cssn, cmd_at_cusd, cmd_at_cvoice, cmd_at_d, cmd_at_ddsetex,
  cmd_at_dtmf, cmd_at_e, cmd_at_sms_text, cmd_at_u2diag, cmd_at_z, cmd_unknown, res_boot, res_busy,
  res_cend, res_clip, res_cmgr, res_cms_error, res_cmti, res_cnum, res_conf, res_conn, res_cops,
  res_cpin, res_creg, res_csq, res_cssi, res_cusd, res_error, res_mode, res_no_carrier,
  res_no_dialtone, res_ok, res_orig, res_parse_error, res_ring, res_rssi, res_smmemfull,
  res_sms_prompt, res_srvst, res_stin, res_unknown,
}
use yate_datacard.Prelude.{Bytes, codes}

unfoldable pub at_cmd2str : AtCmd → Bytes
at_cmd2str cmd_at = codes "AT"
at_cmd2str cmd_at_a = codes "ATA"
at_cmd2str cmd_at_ccwa = codes "AT+CCWA"
at_cmd2str cmd_at_cfun = codes "AT+CFUN"
at_cmd2str cmd_at_cgmi = codes "AT+CGMI"
at_cmd2str cmd_at_cgmm = codes "AT+CGMM"
at_cmd2str cmd_at_cgmr = codes "AT+CGMR"
at_cmd2str cmd_at_cgsn = codes "AT+CGSN"
at_cmd2str cmd_at_chup = codes "AT+CHUP"
at_cmd2str cmd_at_cimi = codes "AT+CIMI"
at_cmd2str cmd_at_clip = codes "AT+CLIP"
at_cmd2str cmd_at_clir = codes "AT+CLIR"
at_cmd2str cmd_at_clvl = codes "AT+CLVL"
at_cmd2str cmd_at_cmgd = codes "AT+CMGD"
at_cmd2str cmd_at_cmgf = codes "AT+CMGF"
at_cmd2str cmd_at_cmgr = codes "AT+CMGR"
at_cmd2str cmd_at_cmgs = codes "AT+CMGS"
at_cmd2str cmd_at_cnmi = codes "AT+CNMI"
at_cmd2str cmd_at_cnum = codes "AT+CNUM"
at_cmd2str cmd_at_cops = codes "AT+COPS?"
at_cmd2str cmd_at_cops_init = codes "AT+COPS="
at_cmd2str cmd_at_cpin = codes "AT+CPIN?"
at_cmd2str cmd_at_cpms = codes "AT+CPMS"
at_cmd2str cmd_at_creg = codes "AT+CREG?"
at_cmd2str cmd_at_creg_init = codes "AT+CREG="
at_cmd2str cmd_at_cscs = codes "AT+CSCS"
at_cmd2str cmd_at_csq = codes "AT+CSQ"
at_cmd2str cmd_at_cssn = codes "AT+CSSN"
at_cmd2str cmd_at_cusd = codes "AT+CUSD"
at_cmd2str cmd_at_cvoice = codes "AT^CVOICE"
at_cmd2str cmd_at_d = codes "ATD"
at_cmd2str cmd_at_ddsetex = codes "AT^DDSETEX"
at_cmd2str cmd_at_dtmf = codes "AT^DTMF"
at_cmd2str cmd_at_e = codes "ATE"
at_cmd2str cmd_at_sms_text = codes "SMS TEXT"
at_cmd2str cmd_at_u2diag = codes "AT^U2DIAG"
at_cmd2str cmd_at_z = codes "ATZ"
at_cmd2str cmd_at_cmee = codes "AT+CMEE"
at_cmd2str cmd_unknown = codes "UNKNOWN"
at_cmd2str cmd_at_csmp = codes "AT+CSMP"
at_cmd2str _ = codes "UNDEFINED"

unfoldable pub at_res2str : AtRes → Bytes
at_res2str res_ok = codes "OK"
at_res2str res_error = codes "ERROR"
at_res2str res_cms_error = codes "+CMS ERROR"
at_res2str res_ring = codes "RING"
at_res2str res_cssi = codes "+CSSI"
at_res2str res_conn = codes "^CONN"
at_res2str res_cend = codes "^CEND"
at_res2str res_orig = codes "^ORIG"
at_res2str res_conf = codes "^CONF"
at_res2str res_smmemfull = codes "^SMMEMFULL"
at_res2str res_csq = codes "+CSQ"
at_res2str res_rssi = codes "^RSSI"
at_res2str res_boot = codes "^BOOT"
at_res2str res_stin = codes "^STIN"
at_res2str res_clip = codes "+CLIP"
at_res2str res_cmti = codes "+CMTI"
at_res2str res_cmgr = codes "+CMGR"
at_res2str res_sms_prompt = codes "> "
at_res2str res_cusd = codes "+CUSD"
at_res2str res_busy = codes "BUSY"
at_res2str res_no_dialtone = codes "NO DIALTONE"
at_res2str res_no_carrier = codes "NO CARRIER"
at_res2str res_cpin = codes "+CPIN"
at_res2str res_cnum = codes "+CNUM"
at_res2str res_cops = codes "+COPS"
at_res2str res_srvst = codes "^SRVST"
at_res2str res_creg = codes "+CREG"
at_res2str res_mode = codes "^MODE"
at_res2str res_parse_error = codes "PARSE ERROR"
at_res2str res_unknown = codes "UNKNOWN"
at_res2str _ = codes "UNDEFINED"
