-- ===== src/Libc/Hex.antt =====
-- `isxdigit`, and `printf("%02X", octet)`.
use yate_datacard.Libc.Scan.{is_digit}
use yate_datacard.Prelude.{
  Bool, Bytes, [], if◌then◌else◌, leb, ltb, suc, zero, ℕ, ◌%◌, ◌&&◌, ◌+◌, ◌/◌, ◌||◌, ◌∷◌,
}

unfoldable pub is_xdigit : ℕ → Bool
unfolding is_digit
is_xdigit c = is_digit c || (leb 65 c && leb c 70) || (leb 97 c && leb c 102)

-- The upper-case digit for a value below 16.
unfoldable pub hex_digit : ℕ → ℕ
hex_digit n = if ltb n 10 then 48 + n else 55 + n

-- `%02X` for an octet
unfoldable pub hex02 : ℕ → Bytes
unfolding hex_digit
hex02 n = hex_digit (n / 16) ∷ hex_digit (n % 16) ∷ []

-- `%X`: an `int` has eight digits at most.
hex_digits : ℕ → ℕ → Bytes → Bytes
unfolding hex_digit
hex_digits zero n acc = acc
hex_digits (suc places) n acc =
    let more = hex_digits places (n / 16) (hex_digit (n % 16) ∷ acc) in
    if ltb n 16 then hex_digit n ∷ acc else more

-- `%02X` for any number from 0 on
unfoldable pub hex_number : ℕ → Bytes
unfolding hex02 hex_digits
hex_number n = if ltb n 256 then hex02 n else hex_digits 8 n []
