-- ===== src/At/Names.antt =====
-- The log's names of the result codes are the beginnings of the modem's lines.
use yate_datacard.At.{
  AtRes, res_boot, res_busy, res_cend, res_clip, res_cmgr, res_cms_error, res_cmti, res_cnum,
  res_conf, res_conn, res_cops, res_cpin, res_cpms, res_creg, res_csq, res_cssi, res_cssu, res_cusd,
  res_error, res_mode, res_no_carrier, res_no_dialtone, res_ok, res_orig, res_parse_error, res_ring,
  res_rssi, res_smmemfull, res_sms_prompt, res_srvst, res_stin, res_unknown,
}
use yate_datacard.At.Classify.{at_read_result_classification}
use yate_datacard.At.Strings.{at_res2str}
use yate_datacard.Prelude.{Bytes, refl, ◌++◌, ◌∷◌, ◌≡◌}

-- What the name of a result code classifies as. The modem sends neither of the names PARSE ERROR
-- and UNKNOWN; +CPMS and +CSSU have no name in `at_res2str`, which says UNDEFINED for them.
abbrev pub classified_name : AtRes → AtRes
classified_name res_parse_error = res_unknown
classified_name res_cpms = res_unknown
classified_name res_cssu = res_unknown
classified_name r = r

-- For every result code, a line that begins with its name in `at_res2str` and a colon, whatever
-- follows, is classified as that code; as unknown for a parse error, +CPMS and +CSSU.
pub classify-res2str :
    (r : AtRes) (rest : Bytes)
    → at_read_result_classification (at_res2str r ++ (b':' ∷ rest)) ≡ classified_name r
unfolding at_read_result_classification at_res2str
classify-res2str res_parse_error rest = refl
classify-res2str res_unknown rest = refl
classify-res2str res_stin rest = refl
classify-res2str res_boot rest = refl
classify-res2str res_busy rest = refl
classify-res2str res_cend rest = refl
classify-res2str res_clip rest = refl
classify-res2str res_cmgr rest = refl
classify-res2str res_cms_error rest = refl
classify-res2str res_cmti rest = refl
classify-res2str res_cnum rest = refl
classify-res2str res_conf rest = refl
classify-res2str res_conn rest = refl
classify-res2str res_cops rest = refl
classify-res2str res_cpin rest = refl
classify-res2str res_cpms rest = refl
classify-res2str res_creg rest = refl
classify-res2str res_csq rest = refl
classify-res2str res_cssi rest = refl
classify-res2str res_cssu rest = refl
classify-res2str res_cusd rest = refl
classify-res2str res_error rest = refl
classify-res2str res_mode rest = refl
classify-res2str res_no_carrier rest = refl
classify-res2str res_no_dialtone rest = refl
classify-res2str res_ok rest = refl
classify-res2str res_orig rest = refl
classify-res2str res_ring rest = refl
classify-res2str res_rssi rest = refl
classify-res2str res_smmemfull rest = refl
classify-res2str res_sms_prompt rest = refl
classify-res2str res_srvst rest = refl
