-- ===== src/Response/Tests.antt =====
-- Runs of the answers.
use yate_datacard.At.{at_command, cmd_at_cmgf, cmd_at_cops, cmd_at_cpin, cmd_at_cpin_enter}
use yate_datacard.Device.{Device, on_update_network_status}
use yate_datacard.Libc.Scan.{strtol}
use yate_datacard.Prelude.{[], codes, negsuc, none, pos, refl, some, true, ◌++◌, ◌∷◌, ◌≡◌}
use yate_datacard.Response.Creg.{at_parse_creg}
use yate_datacard.Response.Error.{at_response_error}
use yate_datacard.Response.Laws.{Done, at_response_error_lem, at_response_ok_lem}
use yate_datacard.Response.Ok.{at_response_ok, ok_cpin, ok_init, ok_last, ok_switch}
use yate_datacard.Response.Parse.{at_parse_cmgr}
use yate_datacard.Response.Registered.{at_response_creg-creg_line}
use yate_datacard.Response.Status.{at_response_creg}
use yate_datacard.Samples.{busy_device, device, env, up_device}

at_response_ok_lem_example : Done cmd_at_cmgf busy_device (at_response_ok env busy_device)
at_response_ok_lem_example =
    at_response_ok_lem env (at_command (codes "AT+CMGF=0") cmd_at_cmgf) busy_device refl refl

at_response_error_lem_example :
    ((at_response_error busy_device).0.lastcmd ≡ none)
    × ((at_response_error busy_device).1 ≡ negsuc 0)
at_response_error_lem_example =
    at_response_error_lem (at_command (codes "AT+CMGF=0") cmd_at_cmgf) busy_device refl refl

-- The SIM wants its PIN.
abbrev locked_device : Device
locked_device = record device {
  simstatus = pos 1;
  lastcmd = some (at_command (codes "AT+CPIN?") cmd_at_cpin);
}

asks_pin :
    (at_response_ok env locked_device).0.command_queue
    ≡ at_command (codes "AT+CPIN=1234") cmd_at_cpin_enter ∷ []
unfolding at_response_ok ok_last ok_switch ok_init ok_cpin
asks_pin = refl

at_response_creg-creg_line_example :
    at_response_creg env (codes "+CREG: 2,1,D509,80D413D") up_device ≡ record up_device {
      gsm_reg_status = pos 1;
      gsm_registered = true;
      location_area_code = codes "D509";
      cell_id = codes "80D413D";
      command_queue = up_device.command_queue ++ at_command (codes "AT+COPS?") cmd_at_cops ∷ [];
      calls = up_device.calls ++ on_update_network_status ∷ [];
    }
unfolding strtol
at_response_creg-creg_line_example =
    at_response_creg-creg_line env (some (codes "2")) (codes "1")
      (some (codes "D509", codes "80D413D")) (pos 1) up_device (refl, refl, tt) (refl, refl, tt)
      (
        (refl, refl, (refl, (refl, (refl, tt)))),
        (refl, refl, (refl, (refl, (refl, (refl, (refl, (refl, tt))))))),
      )
      refl

parsed_cmgr : at_parse_cmgr (codes "+CMGR: 1,,22") ≡ (pos 0, pos 1, pos 22)
unfolding at_parse_cmgr
parsed_cmgr = refl

-- 2 ^ 32 + 1 is cut to 1.
registered_by_cut :
    (at_response_creg env (codes "+CREG: 4294967297") up_device).gsm_registered ≡ true
unfolding at_response_creg at_parse_creg
registered_by_cut = refl
