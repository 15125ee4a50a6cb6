-- ===== src/At/Tests.antt =====
-- Runs of the AT vocabulary on concrete lines.
use yate_datacard.At.{res_cms_error, res_cnum}
use yate_datacard.At.Classify.{at_read_result_classification}
use yate_datacard.At.Names.{classify-res2str}
use yate_datacard.At.Strings.{at_res2str}
use yate_datacard.Prelude.{codes, refl, ◌≡◌}

classify-res2str_example : at_read_result_classification (codes "+CMS ERROR:500") ≡ res_cms_error
unfolding at_res2str
classify-res2str_example = classify-res2str res_cms_error (codes "500")

-- An answer to AT+CNUM that the modem glues to an error.
glued_cnum : at_read_result_classification (codes "ERROR+CNUM: 1") ≡ res_cnum
unfolding at_read_result_classification
glued_cnum = refl
