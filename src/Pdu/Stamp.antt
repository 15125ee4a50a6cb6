-- ===== src/Pdu/Stamp.antt =====
-- The time stamps in a PDU (pdu.cpp): two digits of an octet stand in the other order.
use yate_datacard.Libc.Scan.{is_digit}
use yate_datacard.Pdu.State.{
  Action, gets, modify, octet, pure, refuse_if, skip, warn_if, ◌>>=◌, ◌>>◌,
}
use yate_datacard.Prelude.{
  Bool, Bytes, [], codes, drop, get_or, ltb, not, ℕ, ◌&&◌, ◌*◌, ◌++◌, ◌+◌, ◌-◌, ◌||◌, ◌∷◌,
}

-- Pairs of characters from the pointer on, with the second one first; they are there, since the
-- length was tested.
abbrev pub pair_at : ℕ → Bytes → Bytes
pair_at n s = get_or s (n + 1) 0 ∷ get_or s n 0 ∷ []

-- `"%c%c-%c%c-%c%c"` and `"%c%c:%c%c:%c%c"`
abbrev pub three_pairs : ℕ → Bytes → Bytes
three_pairs sep s = pair_at 0 s ++ (sep ∷ pair_at 2 s ++ (sep ∷ pair_at 4 s))

-- `isdigit` of the pairs, and not of what stands between.
abbrev pub pairs_are_digits : Bytes → Bool
pairs_are_digits str_buf =
    is_digit (get_or str_buf 0 0)
    && is_digit (get_or str_buf 1 0)
    && is_digit (get_or str_buf 3 0)
    && is_digit (get_or str_buf 4 0)
    && is_digit (get_or str_buf 6 0)
    && is_digit (get_or str_buf 7 0)

-- `atoi(str_buf + n)`, where two digits stand.
abbrev pub number_at : ℕ → Bytes → ℕ
number_at n s = (get_or s n 0 - 48) * 10 + (get_or s (n + 1) 0 - 48)

-- The date, refused where it is not of digits, warned of where no month or day has its numbers.
unfoldable pub date_part : Bytes → Bytes → Action (Unit {0})
date_part invalid wrong = do
  str_buf ← gets (λ p. three_pairs b'-' p.pdu_ptr)
  refuse_if (not (pairs_are_digits str_buf)) invalid
  warn_if (ltb 12 (number_at 3 str_buf) || ltb 31 (number_at 6 str_buf)) wrong
  modify (λ p. record p { date = str_buf })
  skip 6

unfoldable pub time_part : Bytes → Bytes → Action (Unit {0})
time_part invalid wrong = do
  str_buf ← gets (λ p. three_pairs b':' p.pdu_ptr)
  refuse_if (not (pairs_are_digits str_buf)) invalid
  warn_if
      (ltb 23 (number_at 0 str_buf) || ltb 59 (number_at 3 str_buf) || ltb 59 (number_at 6 str_buf))
      wrong
  modify (λ p. record p { time = str_buf })
  skip 6

-- The seven octets of a stamp, the time zone only tested. The messages name it and its zone, and
-- those on wrong numbers have a start and an end of their own.
unfoldable pub parse_stamp : Bytes → Bytes → Bytes → Bytes → Action (Unit {0})
unfolding date_part time_part
parse_stamp stamp zone_of wrong end = do
  date_part (codes "Invalid character(s) in date of " ++ stamp)
      (wrong ++ (codes " in date of " ++ (stamp ++ end)))
  time_part (codes "Invalid character(s) in time of " ++ stamp)
      (wrong ++ (codes " in time of " ++ (stamp ++ end)))
  zone ← octet (codes "Invalid character(s) in Time Zone of " ++ zone_of)
  skip 2

-- The discharge stamp: its text is given. The seconds are read from the last digit alone.
unfoldable pub parse_discharge : Action Bytes
parse_discharge = do
  str_buf ← gets (λ p. three_pairs b'-' p.pdu_ptr ++ (b' ' ∷ three_pairs b':' (drop 6 p.pdu_ptr)))
  refuse_if (not (pairs_are_digits str_buf && pairs_are_digits (drop 9 str_buf)))
      (codes "Invalid character(s) in Discharge Timestamp")
  warn_if
      (ltb 12 (number_at 3 str_buf)
        || ltb 31 (number_at 6 str_buf)
        || ltb 24 (number_at 9 str_buf)
        || ltb 59 (number_at 12 str_buf)
        || ltb 59 (get_or str_buf 16 0 - 48))
      (codes "Invalid values(s) in Discharge Timestamp.")
  skip 12
  zone ← octet (codes "Invalid character(s) in Time Zone of Discharge Time Stamp")
  skip 2
  pure str_buf
