-- ===== src/Time/Calendar.antt =====
-- The calendar of src/time.rs: leap years, month lengths, and the day count of a civil date.
pub mod Days
use attestation_verify.Prelude.{
  ℕ, zero, suc, ◌+◌, ◌-◌, ◌*◌, ◌/◌, ◌%◌, Bool, true, false, not, ◌&&◌, ◌||◌, leb, ◌==◌,
  if◌then◌else◌,
}
use attestation_verify.Prelude.Int.{ℤ, pos, negsuc, ◌+ℤ◌, ◌-ℤ◌, ◌*ℤ◌, leb_ℤ}

unfoldable pub is_leap_year : ℕ → Bool
is_leap_year year = (year % 4 == 0 && not (year % 100 == 0)) || year % 400 == 0

unfoldable pub days_in_month : ℕ → ℕ → ℕ
unfolding is_leap_year
days_in_month year month =
    if month == 1
      || month == 3
      || month == 5
      || month == 7
      || month == 8
      || month == 10
      || month == 12
    then 31
    else if month == 4 || month == 6 || month == 9 || month == 11
    then 30
    else if month == 2
    then (if is_leap_year year then 29 else 28)
    else 0

-- `/` of i64 by a positive number rounds towards zero.
unfoldable pub div_ℤ : ℤ → ℕ → ℤ
div_ℤ (pos n) k = pos (n / k)
div_ℤ (negsuc n) k = pos 0 -ℤ pos (suc n / k)

-- The year that begins in March, and the rest of `days_from_civil` with it.
unfoldable pub days_from_shifted : ℤ → ℕ → ℕ → ℤ
days_from_shifted y month day =
    let era = div_ℤ (if leb_ℤ (pos 0) y then y else y -ℤ pos 399) 400 in
    let year_of_era = y -ℤ era *ℤ pos 400 in
    let month_prime = (month + 9) % 12 in
    let day_of_year = pos ((153 * month_prime + 2) / 5) +ℤ pos day -ℤ pos 1 in
    let day_of_era =
      year_of_era *ℤ pos 365 +ℤ div_ℤ year_of_era 4 -ℤ div_ℤ year_of_era 100 +ℤ day_of_year in
    era *ℤ pos 146097 +ℤ day_of_era -ℤ pos 719468

unfoldable pub days_from_civil : ℤ → ℕ → ℕ → ℤ
days_from_civil year month day =
    days_from_shifted (if leb month 2 then year -ℤ pos 1 else year) month day
