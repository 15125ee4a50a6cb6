-- ===== src/Libc/Scan.antt =====
-- `sscanf` and `strtol`. A format is a list of directives; `sscanf` gives the number of
-- conversions made and the numbers stored, in order. Values are not cut to 32 bits: the modem's
-- numbers are short.
use yate_datacard.Prelude.{
  Bool, Bytes, List, Option, [], false, get_or, if◌then◌else◌, leb, length, ltb, neg, negsuc, none,
  pos, some, suc, true, zero, ℕ, ℤ, ◌&&◌, ◌*◌, ◌++◌, ◌+◌, ◌-◌, ◌==◌, ◌^◌, ◌||◌, ◌∷◌,
}

-- `isspace` in the C locale
abbrev pub is_space : ℕ → Bool
is_space c = c == 32 || (leb 9 c && leb c 13)

unfoldable pub is_digit : ℕ → Bool
is_digit c = leb 48 c && leb c 57

unfoldable pub skip_spaces : Bytes → Bytes
skip_spaces [] = []
skip_spaces (c ∷ cs) = if is_space c then skip_spaces cs else c ∷ cs

-- The digits read so far as a number, whether there was one, and what is left; at most `width`
-- characters are read.
unfoldable pub scan_digits : ℕ → Bytes → ℕ → Bool → ℕ × Bool × Bytes
scan_digits zero s acc seen = (acc, seen, s)
scan_digits (suc width) [] acc seen = (acc, seen, [])
scan_digits (suc width) (c ∷ cs) acc seen =
    let rest = scan_digits width cs (acc * 10 + (c - 48)) true in
    if is_digit c then rest else (acc, seen, c ∷ cs)

unfoldable pub scan_signed : Bool → ℕ × Bool × Bytes → Option (ℤ × Bytes)
scan_signed minus (n, false, rest) = none
scan_signed minus (n, true, rest) = some (if minus then neg n else pos n, rest)

-- `%d` with a field width: blanks, a sign, digits; none when no digit is there.
unfoldable pub scan_number : ℕ → Bytes → Option (ℤ × Bytes)
unfolding scan_digits scan_signed
scan_number width [] = none
scan_number width (c ∷ cs) =
    if c == 45
    then scan_signed true (scan_digits (width - 1) cs 0 false)
    else if c == 43
    then scan_signed false (scan_digits (width - 1) cs 0 false)
    else scan_signed false (scan_digits width (c ∷ cs) 0 false)

-- No field width: more than any text that the driver scans.
abbrev pub no_width : ℕ
no_width = 1024

unfoldable pub scan_int : ℕ → Bytes → Option (ℤ × Bytes)
unfolding scan_number skip_spaces
scan_int width s = scan_number width (skip_spaces s)

-- A directive of a format: a character that must match, white space, `%d` or `%2d`, `%*[^,]`.
pub data Directive : Type 0 where
  literal : ℕ → Directive
  space : Directive
  int_of : ℕ → Directive
  skip_until_comma : Directive

unfoldable pub until_comma : Bytes → Bytes
until_comma [] = []
until_comma (c ∷ cs) = if c == 44 then c ∷ cs else until_comma cs

-- `%*[^,]` fails on an empty match.
unfoldable pub skip_field : Bytes → Option Bytes
skip_field [] = none
skip_field (c ∷ cs) = if c == 44 then none else some (until_comma cs)

-- The conversions so far are in `got`. A failure of the input before the first conversion is EOF.
unfoldable pub ended : List ℤ → Bytes → ℤ × List ℤ
ended [] [] = (negsuc 0, [])
ended got s = (pos (length got), got)

unfoldable pub scan : List Directive → Bytes → List ℤ → ℤ × List ℤ
scan [] s got = (pos (length got), got)
scan (space ∷ fs) s got = scan fs (skip_spaces s) got
scan (literal c ∷ fs) s got = elim s [
  | [] ↦ ended got []
  | d ∷ ds ↦ if c == d then scan fs ds got else (pos (length got), got)
]
scan (int_of width ∷ fs) s got = elim (scan_int width s) [
  | none ↦ ended got (skip_spaces s)
  | some (v, rest) ↦ scan fs rest (got ++ v ∷ [])
]
scan (skip_until_comma ∷ fs) s got = elim (skip_field s) [
  | none ↦ ended got s
  | some rest ↦ scan fs rest got
]

-- The directives of a literal text: a blank matches any white space.
abbrev pub text_of : Bytes → List Directive
text_of [] = []
text_of (c ∷ cs) = (if c == 32 then space else literal c) ∷ text_of cs

unfoldable pub sscanf : Bytes → List Directive → ℤ × List ℤ
unfolding scan scan_int skip_field ended until_comma is_digit
sscanf str format = scan format str []

-- The `i`-th number stored, or the value that the variable had.
abbrev pub stored : List ℤ → ℕ → ℤ → ℤ
stored = get_or

-- A long of 64 bits, where `strtol` stops at its ends.
abbrev pub long_of : ℤ → ℤ
long_of (pos n) = pos (if ltb n (2 ^ 63) then n else 2 ^ 63 - 1)
long_of (negsuc n) = negsuc (if ltb n (2 ^ 63) then n else 2 ^ 63 - 1)

-- `strtol(s, NULL, 10)`: 0 where no number stands. The flag says whether a number was read.
value_or_zero : Option (ℤ × Bytes) → ℤ × Bool
value_or_zero none = (pos 0, false)
value_or_zero (some (v, rest)) = (long_of v, true)

unfoldable pub strtol : Bytes → ℤ × Bool
unfolding scan_int value_or_zero is_digit
strtol s = value_or_zero (scan_int no_width s)
