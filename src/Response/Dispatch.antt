-- ===== src/Response/Dispatch.antt =====
-- `at_response` (at_response.cpp): the switch over the result codes.
use yate_datacard.At.{
  AtCommand, AtRes, cmd_at_cgmi, cmd_at_cgmm, cmd_at_cgmr, cmd_at_cgsn, cmd_at_cimi, cmd_at_cmgr,
  res_boot, res_busy, res_cend, res_clip, res_cmgr, res_cms_error, res_cmti, res_cnum, res_conf,
  res_conn, res_cops, res_cpin, res_cpms, res_creg, res_csq, res_cssi, res_cssu, res_cusd,
  res_error, res_mode, res_no_carrier, res_no_dialtone, res_ok, res_orig, res_parse_error, res_ring,
  res_rssi, res_smmemfull, res_sms_prompt, res_srvst, res_stin, res_unknown,
}
use yate_datacard.Device.{Device}
use yate_datacard.Env.{Env}
use yate_datacard.Prelude.{Bytes, Option, negsuc, none, pos, some, ℤ}
use yate_datacard.Response.Call.{
  at_response_busy, at_response_cend, at_response_clip, at_response_conn, at_response_no_carrier,
  at_response_no_dialtone, at_response_orig, at_response_ring,
}
use yate_datacard.Response.Error.{at_response_error}
use yate_datacard.Response.Ok.{at_response_ok}
use yate_datacard.Response.Sms.{
  PduReader, at_response_cmgr, at_response_cmti, at_response_cusd, at_response_pdu,
  at_response_sms_prompt,
}
use yate_datacard.Response.Status.{
  at_response_cgmi, at_response_cgmm, at_response_cgmr, at_response_cgsn, at_response_cimi,
  at_response_cnum, at_response_cops, at_response_cpin, at_response_cpms, at_response_creg,
  at_response_csq, at_response_mode, at_response_rssi, at_response_smmemfull,
}

-- `case RES_UNKNOWN`: the line is the answer to a query, or is ignored.
unfoldable pub unknown_line : PduReader → Bytes → Option AtCommand → Device → Device × ℤ
unknown_line pdu str none d = (d, pos 0)
unknown_line pdu str (some last) d = elim last.cmd [
  | cmd_at_cgmi ↦ at_response_cgmi str d
  | cmd_at_cgmm ↦ at_response_cgmm str d
  | cmd_at_cgmr ↦ at_response_cgmr str d
  | cmd_at_cgsn ↦ at_response_cgsn str d
  | cmd_at_cimi ↦ at_response_cimi str d
  | cmd_at_cmgr ↦ at_response_pdu pdu str d
  | _ ↦ (d, pos 0)
]

-- Where the result of a handler is not used, the case returns 0.
unfoldable pub at_response : Env → PduReader → Bytes → AtRes → Device → Device × ℤ
unfolding unknown_line
at_response env pdu str res_stin d = (d, pos 0)
at_response env pdu str res_boot d = (d, pos 0)
at_response env pdu str res_conf d = (d, pos 0)
at_response env pdu str res_cssi d = (d, pos 0)
at_response env pdu str res_cssu d = (d, pos 0)
at_response env pdu str res_srvst d = (d, pos 0)
at_response env pdu str res_ok d = at_response_ok env d
at_response env pdu str res_rssi d = at_response_rssi str d
at_response env pdu str res_mode d = (at_response_mode str d, pos 0)
at_response env pdu str res_orig d = at_response_orig str d
at_response env pdu str res_cend d = at_response_cend str d
at_response env pdu str res_conn d = at_response_conn str d
at_response env pdu str res_creg d = (at_response_creg env str d, pos 0)
at_response env pdu str res_cops d = (at_response_cops str d, pos 0)
at_response env pdu str res_csq d = at_response_csq str d
at_response env pdu str res_cms_error d = at_response_error d
at_response env pdu str res_error d = at_response_error d
at_response env pdu str res_ring d = at_response_ring d
at_response env pdu str res_smmemfull d = at_response_smmemfull d
at_response env pdu str res_clip d = at_response_clip env str d
at_response env pdu str res_cmti d = at_response_cmti env str d
at_response env pdu str res_cmgr d = at_response_cmgr d
at_response env pdu str res_sms_prompt d = at_response_sms_prompt env d
at_response env pdu str res_cusd d = at_response_cusd env str d
at_response env pdu str res_busy d = at_response_busy d
at_response env pdu str res_no_dialtone d = at_response_no_dialtone d
at_response env pdu str res_no_carrier d = at_response_no_carrier d
at_response env pdu str res_cpin d = at_response_cpin env str d
at_response env pdu str res_cnum d = (at_response_cnum env str d, pos 0)
at_response env pdu str res_cpms d = at_response_cpms str d
at_response env pdu str res_parse_error d = (d, negsuc 0)
at_response env pdu str res_unknown d = unknown_line pdu str d.lastcmd d
