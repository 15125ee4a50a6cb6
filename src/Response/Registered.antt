-- ===== src/Response/Registered.antt =====
-- What a device knows of its network behind a `+CREG:` line.
use yate_datacard.At.{at_command, cmd_at_cops}
use yate_datacard.Device.{Device, append_command, on_update_network_status}
use yate_datacard.Env.{Env}
use yate_datacard.Libc.Scan.{strtol}
use yate_datacard.Prelude.{
  Bytes, Option, [], ap, codes, eq_ℤ, int_of_long, none, pos, some, true, ℤ, ◌++◌, ◌||◌, ◌∷◌, ◌≡◌,
}
use yate_datacard.Response.Creg.Read.{
  IsField, IsPart, IsPlace, at_parse_creg-creg_line, creg_line, place_parts,
}
use yate_datacard.Response.Status.{at_response_creg, creg_found, kept}

-- The piece of a line, or what was known.
abbrev pub or_known : Option Bytes → Bytes → Bytes
or_known none known = known
or_known (some found) known = found

-- A line +CREG: with or without a number in front of the status, with or without an area and a
-- cell behind it, each of some characters without a comma that start with no space, and the status
-- a number that `strtol` reads: the device has the low 32 bits of the number, as an int, as its
-- status, is registered exactly where that is 1 or 5, has the area and the cell of the line, or
-- else those that it had, asks for the operator by AT+COPS? behind all that waits, tells the
-- endpoint once, and nothing else of it changes.
pub at_response_creg-creg_line :
    (env : Env) (number : Option Bytes) (stat : Bytes) (place : Option (Bytes × Bytes)) (v : ℤ)
    (d : Device)
    → IsPart number
    → IsField stat
    → IsPlace place
    → strtol stat ≡ (v, true)
    → at_response_creg env (creg_line number stat place) d ≡ record d {
      gsm_reg_status = int_of_long v;
      gsm_registered = eq_ℤ (int_of_long v) (pos 1) || eq_ℤ (int_of_long v) (pos 5);
      location_area_code = or_known (place_parts place).0 d.location_area_code;
      cell_id = or_known (place_parts place).1 d.cell_id;
      command_queue = d.command_queue ++ at_command (codes "AT+COPS?") cmd_at_cops ∷ [];
      calls = d.calls ++ on_update_network_status ∷ [];
    }
unfolding at_response_creg creg_found kept
at_response_creg-creg_line env number stat none v d n s p is =
    ap (λ r. creg_found r (append_command d (at_command (codes "AT+COPS?") cmd_at_cops)))
      (at_parse_creg-creg_line env number stat none v n s p is)
at_response_creg-creg_line env number stat (some (area, cell)) v d n s p is =
    ap (λ r. creg_found r (append_command d (at_command (codes "AT+COPS?") cmd_at_cops)))
      (at_parse_creg-creg_line env number stat (some (area, cell)) v n s p is)
