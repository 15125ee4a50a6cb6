-- ===== src/Response/Status.antt =====
-- at_response.cpp: the handlers of lines about the modem and the network. A handler gives the
-- device and the source's `int`.
use yate_datacard.At.{at_command, cmd_at_cops}
use yate_datacard.Device.{Device, append_command, on_update_network_status}
use yate_datacard.Device.Calls.{callback}
use yate_datacard.Env.{Env}
use yate_datacard.Prelude.{
  Bool, Bytes, Option, [], codes, eq_ℤ, false, if◌then◌else◌, negsuc, none, pos, some, text_eq,
  true, ℤ, ◌||◌,
}
use yate_datacard.Response.Creg.{Creg, at_parse_creg}
use yate_datacard.Response.Parse.{
  at_parse_cnum, at_parse_cops, at_parse_cpin, at_parse_cpms, at_parse_csq, at_parse_mode,
  at_parse_rssi,
}

unfoldable pub at_response_cpms : Bytes → Device → Device × ℤ
at_response_cpms str d =
    let v = at_parse_cpms str in
    (record d { cpms = v }, if eq_ℤ v (negsuc 0) then negsuc 0 else pos 0)

unfoldable pub at_response_rssi : Bytes → Device → Device × ℤ
at_response_rssi str d =
    let v = at_parse_rssi str in
    if eq_ℤ v (negsuc 0)
    then (record d { rssi = v }, negsuc 0)
    else (callback (record d { rssi = v }) on_update_network_status, pos 0)

-- The result is not used.
unfoldable pub at_response_mode : Bytes → Device → Device
at_response_mode str d =
    let (mode, submode) = at_parse_mode str in record d { linkmode = mode; linksubmode = submode }

unfoldable pub at_response_csq : Bytes → Device → Device × ℤ
at_response_csq str d = let (ret, v) = at_parse_csq str in (record d { rssi = v }, ret)

unfoldable pub at_response_cnum : Env → Bytes → Device → Device
at_response_cnum env str d =
    let n = at_parse_cnum env str in
    record d { number = if text_eq n [] then codes "Unknown" else n }

unfoldable pub at_response_cops : Bytes → Device → Device
at_response_cops str d = record d { provider_name = or_none (at_parse_cops str) }
  where
    or_none : Option Bytes → Bytes
    or_none none = codes "NONE"
    or_none (some name) = name

-- A piece that was found replaces the old one.
unfoldable pub kept : Option Bytes → Bytes → Bytes
kept none old = old
kept (some new) old = new

unfoldable pub creg_found : Creg → Device → Device
unfolding kept
creg_found r d =
    if eq_ℤ r.ret (pos 0)
    then callback
        (record d {
          gsm_reg_status = r.gsm_reg_status;
          gsm_registered = r.gsm_reg;
          location_area_code = kept r.lac d.location_area_code;
          cell_id = kept r.ci d.cell_id;
        })
        on_update_network_status
    else record d { gsm_reg_status = r.gsm_reg_status }

unfoldable pub at_response_creg : Env → Bytes → Device → Device
unfolding creg_found
at_response_creg env str d =
    creg_found (at_parse_creg env str)
      (append_command d (at_command (codes "AT+COPS?") cmd_at_cops))

unfoldable pub at_response_cpin : Env → Bytes → Device → Device × ℤ
at_response_cpin env str d = (record d { simstatus = at_parse_cpin env str }, pos 0)

unfoldable pub at_response_smmemfull : Device → Device × ℤ
at_response_smmemfull d = (d, pos 0)

unfoldable pub at_response_cgmi : Bytes → Device → Device × ℤ
at_response_cgmi str d = (record d { manufacturer = str }, pos 0)

-- The models that encode USSD in 7 bits.
is_7bit_model : Bytes → Bool
is_7bit_model s =
    text_eq s (codes "E1550")
    || (text_eq s (codes "E1750")
        || (text_eq s (codes "E160X") || (text_eq s (codes "E173") || text_eq s (codes "E352"))))

unfoldable pub at_response_cgmm : Bytes → Device → Device × ℤ
unfolding is_7bit_model
at_response_cgmm str d =
    if is_7bit_model str
    then (
      record d { model = str; cusd_use_7bit_encoding = true; cusd_use_ucs2_decoding = false },
      pos 0,
    )
    else (record d { model = str }, pos 0)

unfoldable pub at_response_cgmr : Bytes → Device → Device × ℤ
at_response_cgmr str d = (record d { firmware = str }, pos 0)

unfoldable pub at_response_cgsn : Bytes → Device → Device × ℤ
at_response_cgsn str d = (record d { imei = str }, pos 0)

unfoldable pub at_response_cimi : Bytes → Device → Device × ℤ
at_response_cimi str d = (record d { imsi = str }, pos 0)
