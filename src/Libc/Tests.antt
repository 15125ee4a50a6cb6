-- ===== src/Libc/Tests.antt =====
-- Runs of `sscanf`, `strtol` and `%02X`.
use yate_datacard.Libc.Hex.{hex02}
use yate_datacard.Libc.Scan.{int_of, literal, no_width, skip_until_comma, sscanf, strtol, text_of}
use yate_datacard.Prelude.{[], codes, negsuc, pos, refl, true, ◌++◌, ◌∷◌, ◌≡◌}

csq :
    sscanf (codes "+CSQ: 15,99") (text_of (codes "+CSQ: ") ++ (int_of 2 ∷ []))
    ≡ (pos 1, pos 15 ∷ [])
unfolding sscanf
csq = refl

cmti :
    sscanf
      (codes "+CMTI: \"SM\",12")
      (text_of (codes "+CMTI: ") ++ (skip_until_comma ∷ literal b',' ∷ int_of no_width ∷ []))
    ≡ (pos 1, pos 12 ∷ [])
unfolding sscanf
cmti = refl

rssi_negative :
    sscanf (codes "^RSSI:-7") (text_of (codes "^RSSI:") ++ (int_of no_width ∷ []))
    ≡ (pos 1, negsuc 6 ∷ [])
unfolding sscanf
rssi_negative = refl

empty_input : sscanf [] (literal b'^' ∷ []) ≡ (negsuc 0, [])
unfolding sscanf
empty_input = refl

strtol_stops : strtol (codes " 5\",x") ≡ (pos 5, true)
unfolding strtol
strtol_stops = refl

hex02_runs : hex02 0xA7 ≡ codes "A7"
unfolding hex02
hex02_runs = refl
