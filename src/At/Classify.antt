-- ===== src/At/Classify.antt =====
-- at_io.cpp, `at_read_result_classification`: which result code a line of the modem is.
use yate_datacard.At.{
  AtRes, res_boot, res_busy, res_cend, res_clip, res_cmgr, res_cms_error, res_cmti, res_cnum,
  res_conf, res_conn, res_cops, res_cpin, res_cpms, res_creg, res_csq, res_cssi, res_cssu, res_cusd,
  res_error, res_mode, res_no_carrier, res_no_dialtone, res_ok, res_orig, res_ring, res_rssi,
  res_smmemfull, res_sms_prompt, res_srvst, res_stin, res_unknown,
}
use yate_datacard.Prelude.{Bytes, codes, if◌then◌else◌, starts_with, ◌||◌}

unfoldable pub at_read_result_classification : Bytes → AtRes
at_read_result_classification command =
    if starts_with (codes "^STIN:") command
    then res_stin
    else if starts_with (codes "^BOOT:") command
    then res_boot
    else if starts_with (codes "+CNUM:") command || starts_with (codes "ERROR+CNUM:") command
    then res_cnum
    else if starts_with (codes "OK") command
    then res_ok
    else if starts_with (codes "^RSSI:") command
    then res_rssi
    else if starts_with (codes "^MODE:") command
    then res_mode
    else if starts_with (codes "^CEND:") command
    then res_cend
    else if starts_with (codes "+CSSI:") command
    then res_cssi
    else if starts_with (codes "^ORIG:") command
    then res_orig
    else if starts_with (codes "^CONF:") command
    then res_conf
    else if starts_with (codes "^CONN:") command
    then res_conn
    else if starts_with (codes "+CREG:") command
    then res_creg
    else if starts_with (codes "+COPS:") command
    then res_cops
    else if starts_with (codes "^SRVST:") command
    then res_srvst
    else if starts_with (codes "+CSQ:") command
    then res_csq
    else if starts_with (codes "+CPIN:") command
    then res_cpin
    else if starts_with (codes "RING") command
    then res_ring
    else if starts_with (codes "+CLIP:") command
    then res_clip
    else if starts_with (codes "ERROR") command
    then res_error
    else if starts_with (codes "+CMTI:") command
    then res_cmti
    else if starts_with (codes "+CMGR:") command
    then res_cmgr
    else if starts_with (codes "+CSSU:") command
    then res_cssu
    else if starts_with (codes "BUSY") command
    then res_busy
    else if starts_with (codes "NO DIALTONE") command
    then res_no_dialtone
    else if starts_with (codes "NO CARRIER") command
    then res_no_carrier
    else if starts_with (codes "COMMAND NOT SUPPORT") command
    then res_error
    else if starts_with (codes "+CMS ERROR:") command
    then res_cms_error
    else if starts_with (codes "^SMMEMFULL:") command
    then res_smmemfull
    else if starts_with (codes "> ") command
    then res_sms_prompt
    else if starts_with (codes "+CUSD:") command
    then res_cusd
    else if starts_with (codes "+CPMS:") command
    then res_cpms
    else res_unknown
