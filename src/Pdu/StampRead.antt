-- ===== src/Pdu/StampRead.antt =====
-- `parse` on a time stamp of seven octets, two decimal digits in each, the last digit first.
use yate_datacard.Libc.Hex.{is_xdigit}
use yate_datacard.Libc.Scan.{is_digit}
use yate_datacard.Pdu.Laws.{octet2bin_check_value}
use yate_datacard.Pdu.Stamp.{date_part, number_at, pairs_are_digits, parse_stamp, time_part}
use yate_datacard.Pdu.State.{Parser, octet, parsed, refused}
use yate_datacard.Pdu.Steps.{in_front, refuse_if_not, skip_front, then_step, warn_if_not}
use yate_datacard.Prelude.{
  Bytes, [], ap, arith, codes, false, ltb, negsuc, not, pos, refl, true, ℕ, ◌%◌, ◌*◌, ◌++◌, ◌+◌,
  ◌-◌, ◌/◌, ◌<◌, ◌||◌, ◌∷◌, ◌≡◌, ◌≤◌,
}

-- Two decimal digits, and the same two as they stand in an octet.
abbrev pub two_digits : ℕ → Bytes
two_digits n = (48 + n / 10) ∷ (48 + n % 10) ∷ []

abbrev pub stamp_octet : ℕ → Bytes
stamp_octet n = (48 + n % 10) ∷ (48 + n / 10) ∷ []

pub record Stamp : Type 0 where
  pub year : ℕ
  pub month : ℕ
  pub day : ℕ
  pub hour : ℕ
  pub minute : ℕ
  pub second : ℕ
  pub zone : ℕ

pub record ValidStamp (t : Stamp) : Type 0 where
  pub year_valid : t.year < 100
  pub month_valid : t.month ≤ 12
  pub day_valid : t.day ≤ 31
  pub hour_valid : t.hour < 24
  pub minute_valid : t.minute < 60
  pub second_valid : t.second < 60
  pub zone_valid : t.zone < 100

abbrev pub three : ℕ → ℕ → ℕ → Bytes → Bytes
three a b c rest = stamp_octet a ++ (stamp_octet b ++ (stamp_octet c ++ rest))

abbrev pub stamp_pdu : Stamp → Bytes → Bytes
stamp_pdu t rest =
    three t.year t.month t.day (three t.hour t.minute t.second (stamp_octet t.zone ++ rest))

abbrev pub three_numbers : ℕ → ℕ → ℕ → ℕ → Bytes
three_numbers sep a b c = two_digits a ++ (sep ∷ two_digits b ++ (sep ∷ two_digits c))

abbrev pub stamped : Stamp → Parser → Parser
stamped t p = record p {
  date = three_numbers b'-' t.year t.month t.day;
  time = three_numbers b':' t.hour t.minute t.second;
}

pub three_are_digits :
    (sep a b c : ℕ)
    → a < 100
    → b < 100
    → c < 100
    → pairs_are_digits (three_numbers sep a b c) ≡ true
unfolding is_digit
three_are_digits sep a b c la lb lc = ground arith

number_at_two : (n : ℕ) → (48 + n / 10 - 48) * 10 + (48 + n % 10 - 48) ≡ n
number_at_two n = ground arith

date_warning :
    (sep a b c : ℕ)
    → b ≤ 12
    → c ≤ 31
    → (let s = three_numbers sep a b c in ltb 12 (number_at 3 s) || ltb 31 (number_at 6 s)) ≡ false
date_warning sep a b c lb lc = ground arith

time_warning :
    (sep a b c : ℕ)
    → a < 24
    → b < 60
    → c < 60
    → (let s = three_numbers sep a b c in
        ltb 23 (number_at 0 s) || ltb 59 (number_at 3 s) || ltb 59 (number_at 6 s))
      ≡ false
time_warning sep a b c la lb lc = ground arith

date_part_lem :
    (a b c : ℕ) (rest invalid wrong : Bytes) (p : Parser)
    → a < 100
    → b ≤ 12
    → c ≤ 31
    → date_part invalid wrong (in_front p (three a b c rest))
      ≡ parsed tt (in_front (record p { date = three_numbers b'-' a b c }) rest)
unfolding date_part
date_part_lem a b c rest invalid wrong p la lb lc =
    then_step _ _ _ {q = in_front p (three a b c rest)} {a = three_numbers b'-' a b c} refl (
      then_step _ _ _
        (refuse_if_not _ invalid (in_front p (three a b c rest))
          (ap not (three_are_digits b'-' a b c la (omega arith) (omega arith))))
        (then_step _ _ _
          (warn_if_not _ wrong (in_front p (three a b c rest)) (date_warning b'-' a b c lb lc))
          (then_step _ _ _
            {q = in_front (record p { date = three_numbers b'-' a b c }) (three a b c rest)} refl
            (skip_front 6 (three a b c []) rest (record p { date = three_numbers b'-' a b c })
              refl))))

time_part_lem :
    (a b c : ℕ) (rest invalid wrong : Bytes) (p : Parser)
    → a < 24
    → b < 60
    → c < 60
    → time_part invalid wrong (in_front p (three a b c rest))
      ≡ parsed tt (in_front (record p { time = three_numbers b':' a b c }) rest)
unfolding time_part
time_part_lem a b c rest invalid wrong p la lb lc =
    then_step _ _ _ {q = in_front p (three a b c rest)} {a = three_numbers b':' a b c} refl (
      then_step _ _ _
        (refuse_if_not _ invalid (in_front p (three a b c rest))
          (ap not (three_are_digits b':' a b c (omega arith) (omega arith) (omega arith))))
        (then_step _ _ _
          (warn_if_not _ wrong (in_front p (three a b c rest)) (time_warning b':' a b c la lb lc))
          (then_step _ _ _
            {q = in_front (record p { time = three_numbers b':' a b c }) (three a b c rest)} refl
            (skip_front 6 (three a b c []) rest (record p { time = three_numbers b':' a b c })
              refl))))

pub zone_front :
    (e : Bytes) (n : ℕ) (rest : Bytes) (p : Parser)
    → n < 100
    → (v : ℕ) × (octet e (in_front p (stamp_octet n ++ rest))
        ≡ parsed v (in_front p (stamp_octet n ++ rest)))
unfolding is_xdigit is_digit
zone_front e n rest p l = (
  _,
  ap (λ z. elim z [ pos v ↦ parsed v (in_front p (stamp_octet n ++ rest)) | negsuc k ↦ refused e ])
      (octet2bin_check_value (48 + n % 10) (48 + n / 10) rest (ground arith) (ground arith)),
)

-- A time stamp of numbers in their ranges, two digits swapped in each octet, is read into its date
-- and time without a warning, and the parser stands behind it.
pub parse_stamp-stamp_pdu :
    (t : Stamp) (stamp zone_of wrong end rest : Bytes) (p : Parser)
    → ValidStamp t
    → parse_stamp stamp zone_of wrong end (in_front p (stamp_pdu t rest))
      ≡ parsed tt (in_front (stamped t p) rest)
unfolding parse_stamp
parse_stamp-stamp_pdu t stamp zone_of wrong end rest p v =
    let behind = stamp_octet t.zone ++ rest in
    let dated = record p { date = three_numbers b'-' t.year t.month t.day } in
    let zone =
      zone_front (codes "Invalid character(s) in Time Zone of " ++ zone_of) t.zone rest
        (stamped t p) v.zone_valid in
    then_step _ _ _
      (date_part_lem t.year t.month t.day (three t.hour t.minute t.second behind) _ _ p v.year_valid
        v.month_valid v.day_valid)
      (then_step _ _ _
        (time_part_lem t.hour t.minute t.second behind _ _ dated v.hour_valid v.minute_valid
          v.second_valid)
        (then_step _ _ _ zone.1 (skip_front 2 (stamp_octet t.zone) rest (stamped t p) refl)))
