-- ===== src/Response/Parse.antt =====
-- at_parse.cpp: the values in the lines of the modem.
use yate_datacard.Device.Laws.{count}
use yate_datacard.Env.{Env}
use yate_datacard.Libc.Scan.{
  Directive, int_of, literal, no_width, skip_until_comma, sscanf, stored, text_of,
}
use yate_datacard.Prelude.{
  Bool, Bytes, List, Option, [], codes, drop, eq_ℤ, get_or, if◌then◌else◌, length, ltb, negsuc,
  none, not, pos, some, starts_with, take, text_eq, ℕ, ℤ, ◌%◌, ◌&&◌, ◌++◌, ◌-◌, ◌==◌, ◌∷◌,
}

abbrev ints : Bytes → List Directive
ints s = text_of s

-- `at_parse_clip` and `at_parse_cnum`: a group of the pattern, or the empty text.
group_of : ℕ → ℕ → Option (List Bytes) → Bytes
group_of count i none = []
group_of count i (some groups) = if ltb (length groups) count then [] else get_or groups (i - 1) []

abbrev clip_pattern : Bytes
clip_pattern = codes "+CLIP:[[:space:]]*\"\\?\\([^,\"]*\\)\"\\?,\\([[:digit:]]\\+\\)"

unfoldable pub at_parse_clip : Env → Bytes → Bytes
unfolding group_of
at_parse_clip env str = group_of 2 1 (env.matches clip_pattern (env.trim_spaces str))

abbrev cnum_pattern : Bytes
cnum_pattern = codes "+CNUM:[[:space:]]*\\([^,]*\\),\"\\?\\([^,\"]*\\)\"\\?,\\([[:digit:]]\\+\\)"

unfoldable pub at_parse_cnum : Env → Bytes → Bytes
unfolding group_of
at_parse_cnum env str = group_of 3 2 (env.matches cnum_pattern (env.trim_spaces str))

-- `at_parse_cops`: the states 1 and 2 of the loop, inside the quotes, then state 0.
cops_name : Bytes → Bytes → Option Bytes
cops_name [] provider = none
cops_name (c ∷ cs) provider = if c == b'"' then some provider else cops_name cs (provider ++ c ∷ [])

unfoldable pub at_parse_cops : Bytes → Option Bytes
unfolding cops_name
at_parse_cops [] = none
at_parse_cops (c ∷ cs) = if c == b'"' then cops_name cs [] else at_parse_cops cs

-- `at_parse_cmti`: -1 where nothing was converted; `index` is -1 before.
unfoldable pub at_parse_cmti : Bytes → ℤ
unfolding sscanf
at_parse_cmti str =
    let (ret, got) =
      sscanf str
        (ints (codes "+CMTI: ") ++ (skip_until_comma ∷ literal b',' ∷ int_of no_width ∷ [])) in
    if eq_ℤ ret (pos 0) then negsuc 0 else stored got 0 (negsuc 0)

-- `at_parse_cusd`: the message and its data coding scheme; none is -1.
unquote : Bytes → Bytes
unquote s =
    if starts_with (codes "\"") s && get_or s (length s - 1) 0 == b'"'
    then take (length s - 2) (drop 1 s)
    else s

abbrev cusd_pattern : Bytes
cusd_pattern =
    codes
      "+CUSD:[[:space:]]*\\([[:digit:]]\\+\\)\\([[:space:]]*,[[:space:]]*\\(.*\\)[[:space:]]*,[[:space:]]*\\([[:digit:]]\\+\\)\\|\\)$"

abbrev low_byte : ℤ → ℕ
low_byte (pos n) = n % 256
low_byte (negsuc n) = 255 - n % 256

cusd_groups : Env → Option (List Bytes) → Option (Bytes × ℕ)
cusd_groups env none = none
cusd_groups env (some groups) =
    if length groups == 4
    then some (unquote (get_or groups 2 []), low_byte (env.to_integer (get_or groups 3 [])))
    else none

unfoldable pub at_parse_cusd : Env → Bytes → Option (Bytes × ℕ)
unfolding cusd_groups unquote
at_parse_cusd env str = cusd_groups env (env.matches cusd_pattern (env.trim_spaces str))

unfoldable pub at_parse_cpin : Env → Bytes → ℤ
at_parse_cpin env str =
    let line = env.trim_spaces (env.start_skip (codes "+CPIN:") str) in
    if text_eq line (codes "READY")
    then pos 0
    else if text_eq line (codes "SIM PIN")
    then pos 1
    else if text_eq line (codes "SIM PUK")
    then pos 2
    else if text_eq line (codes "SIM PIN2")
    then pos 3
    else if text_eq line (codes "SIM PUK2")
    then pos 4
    else negsuc 0

-- `at_parse_csq`: the result, and `*rssi`.
unfoldable pub at_parse_csq : Bytes → ℤ × ℤ
unfolding sscanf
at_parse_csq str =
    let (ret, got) = sscanf str (ints (codes "+CSQ: ") ++ (int_of 2 ∷ literal b',' ∷ [])) in
    (if eq_ℤ ret (pos 0) then negsuc 0 else pos 0, stored got 0 (negsuc 0))

unfoldable pub at_parse_rssi : Bytes → ℤ
unfolding sscanf
at_parse_rssi str =
    let (ret, got) = sscanf str (ints (codes "^RSSI:") ++ (int_of no_width ∷ [])) in
    if eq_ℤ ret (pos 0) then negsuc 0 else stored got 0 (negsuc 0)

unfoldable pub at_parse_cpms : Bytes → ℤ
unfolding sscanf
at_parse_cpms str =
    let (ret, got) = sscanf str (ints (codes "+CPMS: ") ++ (int_of no_width ∷ literal b',' ∷ [])) in
    if eq_ℤ ret (pos 0) then negsuc 0 else stored got 0 (negsuc 0)

-- Two numbers with a comma between them, as in `^MODE:%d,%d`.
abbrev two_ints : Bytes → List Directive
two_ints head = ints head ++ (int_of no_width ∷ literal b',' ∷ int_of no_width ∷ [])

-- `at_parse_mode`: `*mode` and `*submode`; the result is not used.
unfoldable pub at_parse_mode : Bytes → ℤ × ℤ
unfolding sscanf
at_parse_mode str =
    let (ret, got) = sscanf str (two_ints (codes "^MODE:")) in
    (stored got 0 (negsuc 0), stored got 1 (negsuc 0))

-- `at_parse_cmgr`: the result, `*stat` and `*pdulen`, which are 0 before and are only logged. The
-- end of the text, for which `sscanf` gives -1, counts as a success.
unfoldable pub at_parse_cmgr : Bytes → ℤ × ℤ × ℤ
unfolding sscanf
at_parse_cmgr str =
    let (ret, got) = sscanf str (
      ints (codes "+CMGR: ")
      ++ (int_of no_width ∷ literal b',' ∷ literal b',' ∷ int_of no_width ∷ [])) in
    (if eq_ℤ ret (pos 0) then negsuc 0 else pos 0, stored got 0 (pos 0), stored got 1 (pos 0))

-- `^ORIG:%d,%d` and `^CONN:%d,%d` are only tested.
unfoldable pub scans_two : Bytes → Bytes → Bool
unfolding sscanf
scans_two head str = let (ret, got) = sscanf str (two_ints head) in not (eq_ℤ ret (pos 0))

-- The end status and the cause of `^CEND:%d,%d,%d,%d`; both are 0 before.
unfoldable pub scan_cend : Bytes → ℤ × ℤ
unfolding sscanf
scan_cend str =
    let (ret, got) = sscanf str (
      two_ints (codes "^CEND:")
      ++ (literal b',' ∷ int_of no_width ∷ literal b',' ∷ int_of no_width ∷ [])) in
    (stored got 2 (pos 0), stored got 3 (pos 0))
