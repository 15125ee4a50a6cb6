-- ===== src/Pdu/Report.antt =====
-- `parse` on a status report.
use yate_datacard.CharConv.SevenBit.{not_zero}
use yate_datacard.Libc.Hex.{hex02, hex_digit}
use yate_datacard.Pdu.Address.{all_digits}
use yate_datacard.Pdu.AddressRead.{address_pdu, parse_address_lem, with_number}
use yate_datacard.Pdu.Deliver.{address_size_lem}
use yate_datacard.Pdu.DeliverRead.{fields_of, two_of}
use yate_datacard.Pdu.Parse.{Iconv, by_type, parse, parse_status_report, report_text}
use yate_datacard.Pdu.Stamp.{number_at, pairs_are_digits, parse_discharge}
use yate_datacard.Pdu.StampRead.{
  Stamp, ValidStamp, parse_stamp-stamp_pdu, stamp_octet, stamp_pdu, stamped, three,
  three_are_digits, three_numbers, zone_front,
}
use yate_datacard.Pdu.State.{Parser, parsed, reset_parser}
use yate_datacard.Pdu.Steps.{
  in_front, octet_front, refuse_if_not, skip_front, skip_octet, then_step, too_short_not,
  warn_if_not,
}
use yate_datacard.Prelude.{
  Bytes, [], ap, arith, codes, drop, false, get_or, length, ltb, not, refl, true, ℕ, ◌%◌, ◌&&◌,
  ◌++◌, ◌+◌, ◌-◌, ◌<◌, ◌||◌, ◌∷◌, ◌≡◌, ◌≤◌,
}

-- A date and a time, as the report tells them.
abbrev pub stamp_text : Stamp → Bytes
stamp_text t =
    three_numbers b'-' t.year t.month t.day ++ (b' ' ∷ three_numbers b':' t.hour t.minute t.second)

discharge_warning :
    (year month day hour minute second : ℕ)
    → month ≤ 12
    → day ≤ 31
    → hour < 24
    → minute < 60
    → (let s =
          three_numbers b'-' year month day ++ (b' ' ∷ three_numbers b':' hour minute second) in
        ltb 12 (number_at 3 s)
        || ltb 31 (number_at 6 s)
        || ltb 24 (number_at 9 s)
        || ltb 59 (number_at 12 s)
        || ltb 59 (get_or s 16 0 - 48))
      ≡ false
discharge_warning year month day hour minute second lm ld lh li = ground arith

discharge_digits :
    (t : Stamp)
    → ValidStamp t
    → (pairs_are_digits (stamp_text t) && pairs_are_digits (drop 9 (stamp_text t))) ≡ true
discharge_digits t v =
    let date =
      three_are_digits b'-' t.year t.month t.day v.year_valid (omega (arith, v.month_valid))
        (omega (arith, v.day_valid)) in
    let time =
      three_are_digits b':' t.hour t.minute t.second (omega (arith, v.hour_valid))
        (omega (arith, v.minute_valid)) (omega (arith, v.second_valid)) in
    (λ i. date i && time i)

parse_discharge-stamp_pdu :
    (t : Stamp) (rest : Bytes) (p : Parser)
    → ValidStamp t
    → parse_discharge (in_front p (stamp_pdu t rest)) ≡ parsed (stamp_text t) (in_front p rest)
unfolding parse_discharge
parse_discharge-stamp_pdu t rest p v =
    let here = in_front p (stamp_pdu t rest) in
    let behind = stamp_octet t.zone ++ rest in
    let front = three t.year t.month t.day (three t.hour t.minute t.second []) in
    let zone =
      zone_front (codes "Invalid character(s) in Time Zone of Discharge Time Stamp") t.zone rest p
        v.zone_valid in
    then_step _ _ _ {q = here} {a = stamp_text t} refl (
      then_step _ _ _ (refuse_if_not _ _ here (ap not (discharge_digits t v))) (
        then_step _ _ _
          (warn_if_not _ _ here (
            discharge_warning t.year t.month t.day t.hour t.minute t.second v.month_valid
              v.day_valid v.hour_valid v.minute_valid))
          (then_step _ _ _ (skip_front 12 front behind p refl) (
            then_step _ _ _ zone.1
              (then_step _ _ _ (skip_front 2 (stamp_octet t.zone) rest p refl) refl)))))

-- The report: its number, the recipient, the two stamps and the status.
abbrev behind_recipient : Stamp → Stamp → ℕ → Bytes
behind_recipient t discharge status = stamp_pdu t (stamp_pdu discharge (hex02 status ++ []))

abbrev pub report_pdu : ℕ → Bytes → Stamp → Stamp → ℕ → Bytes
report_pdu messageid digits t discharge status =
    hex02 0
    ++ (hex02 6 ++ (hex02 messageid ++ address_pdu digits (behind_recipient t discharge status)))

abbrev pub reported : ℕ → Bytes → Stamp → Stamp → ℕ → Parser
reported messageid digits t discharge status =
    record (stamped t (with_number (reset_parser (hex02 status ++ [])) digits)) {
      message = report_text (stamp_text discharge) messageid status;
    }

six_of : (c : ℕ) (digits rest : Bytes) → 6 ≤ length (hex02 c ++ address_pdu digits rest)
unfolding hex02
six_of c digits rest = omega arith

parse_status_report_lem :
    (messageid : ℕ) (digits : Bytes) (t discharge : Stamp) (status : ℕ)
    → messageid < 256
    → all_digits digits ≡ true
    → 0 < length digits
    → length digits + length digits % 2 < 64
    → ValidStamp t
    → ValidStamp discharge
    → status < 256
    → parse_status_report
        (reset_parser (hex02 messageid ++ address_pdu digits (behind_recipient t discharge status)))
      ≡ parsed tt (reported messageid digits t discharge status)
unfolding parse_status_report
parse_status_report_lem messageid digits t discharge status lm h any l v w ls =
    let p = reset_parser [] in
    let q = with_number p digits in
    let last = hex02 status ++ [] in
    let behind = behind_recipient t discharge status in
    let start = in_front p (hex02 messageid ++ address_pdu digits behind) in
    let read = in_front (stamped t q) (stamp_pdu discharge last) in
    then_step _ _ _ (too_short_not 6 _ start (six_of messageid digits behind)) (
      then_step _ _ _ (octet_front _ messageid (address_pdu digits behind) p lm) (
        then_step _ _ _ (skip_octet messageid (address_pdu digits behind) p) (
          then_step _ _ _ (address_size_lem _ (length digits) _ p (omega arith)) (
            then_step _ _ _
              (refuse_if_not _ _ (in_front p (address_pdu digits behind))
                (not_zero (length digits) any))
              (then_step _ _ _ (parse_address_lem digits behind _ _ p h l) (
                then_step _ _ _ (too_short_not 14 _ (in_front q behind) (omega arith)) (
                  then_step _ _ _ (parse_stamp-stamp_pdu t _ _ _ _ (stamp_pdu discharge last) q v) (
                    then_step _ _ _ (too_short_not 14 _ read (omega arith)) (
                      then_step _ _ _ (parse_discharge-stamp_pdu discharge last (stamped t q) w) (
                        then_step _ _ _
                          (too_short_not 2 _ (in_front (stamped t q) last) (two_of status []))
                          (then_step _ _ _ (octet_front _ status [] (stamped t q) ls)
                            refl)))))))))))

by_type_report :
    (iconv : Iconv) (rest : Bytes) (q : Parser)
    → parse_status_report (reset_parser rest) ≡ parsed tt q
    → by_type iconv 2 (reset_parser (hex02 6 ++ rest))
      ≡ parsed tt (record q { is_statusreport = true })
unfolding by_type
by_type_report iconv rest q e =
    then_step _ _ _ (skip_octet 6 rest (reset_parser [])) (then_step _ _ _ e refl)

-- A status report on a message to a number of 1 to 62 digits, with two valid time stamps, is parsed
-- without a warning: the number and the first stamp are those that were written, and the message
-- tells the second one, the number of the message and what the status means.
pub parse-report_pdu :
    (iconv : Iconv) (messageid : ℕ) (digits : Bytes) (t discharge : Stamp) (status : ℕ)
    → messageid < 256
    → all_digits digits ≡ true
    → 0 < length digits
    → length digits + length digits % 2 < 64
    → ValidStamp t
    → ValidStamp discharge
    → status < 256
    → parse iconv (report_pdu messageid digits t discharge status)
      ≡ parsed tt (record (reported messageid digits t discharge status) { is_statusreport = true })
unfolding parse hex02 hex_digit
parse-report_pdu iconv messageid digits t discharge status lm h any l v w ls =
    let rest = hex02 messageid ++ address_pdu digits (behind_recipient t discharge status) in
    fields_of iconv 6 rest _ (omega arith) refl refl refl (
      by_type_report iconv rest (reported messageid digits t discharge status)
        (parse_status_report_lem messageid digits t discharge status lm h any l v w ls))
