-- ===== src/Time/Calendar/Days.antt =====
-- The formula of `days_from_civil` counts the days of the calendar.
use attestation_verify.Prelude.{
  ℕ, zero, suc, ◌+◌, ◌-◌, ◌*◌, ◌/◌, ◌%◌, ◌≤◌, ◌≡◌, refl, true, arith, leb, Bool-cases, inl, inr,
  leb→le, if◌then◌else◌,
}
use attestation_verify.Prelude.Int.{pos, negsuc, ◌-ℤ◌, ◌*ℤ◌, leb_ℤ, int_laws}
use attestation_verify.Time.Calendar.{
  is_leap_year, days_in_month, div_ℤ, days_from_shifted, days_from_civil,
}

-- The days of the years before `year`, counted year by year from year 0.
abbrev pub days_before_year : ℕ → ℕ
days_before_year zero = 0
days_before_year (suc y) = days_before_year y + (if is_leap_year y then 366 else 365)

-- The days of the months before `month`, counted month by month from January.
abbrev pub days_before_month : ℕ → ℕ → ℕ
days_before_month year zero = 0
days_before_month year (suc zero) = 0
days_before_month year (suc (suc m)) = days_before_month year (suc m) + days_in_month year (suc m)

-- The days between 0000-01-01 and a date.
abbrev pub ordinal : ℕ → ℕ → ℕ → ℕ
ordinal year month day = days_before_year year + days_before_month year month + (day - 1)

days_before_year-eq :
    (y : ℕ) → days_before_year y + (y + 99) / 100 ≡ 365 * y + (y + 3) / 4 + (y + 399) / 400
unfolding is_leap_year
days_before_year-eq zero = refl
days_before_year-eq (suc y) = ground (arith, days_before_year-eq y)

pos-*ℤ : (a b : ℕ) → pos a *ℤ pos b ≡ pos (a * b)
unfolding ◌*ℤ◌
pos-*ℤ a b = ground arith

nonneg : (y : ℕ) → leb_ℤ (pos 0) (pos y) ≡ true
nonneg y = ground arith

year_of_era-eq : (y : ℕ) → pos y -ℤ pos (y / 400 * 400) ≡ pos (y % 400)
year_of_era-eq y = omega int_laws

-- The formula from a March year that is not negative.
shifted_pos :
    (y month day : ℕ)
    → days_from_shifted (pos y) month day
      ≡ pos (365 * y + y / 4 + y / 400 + (153 * ((month + 9) % 12) + 2) / 5 + day)
        -ℤ pos (719469 + y / 100)
unfolding days_from_shifted div_ℤ
shifted_pos y month day = rw (nonneg y) (
    rw (pos-*ℤ (y / 400) 400) (
      rw (year_of_era-eq y)
        (rw (pos-*ℤ (y % 400) 365) (rw (pos-*ℤ (y / 400) 146097) (omega int_laws)))))

era_before : div_ℤ (negsuc 0 -ℤ pos 399) 400 ≡ negsuc 0
unfolding div_ℤ ◌-ℤ◌
era_before = refl

year_of_era_before : negsuc 0 -ℤ negsuc 0 *ℤ pos 400 ≡ pos 399
unfolding ◌*ℤ◌ ◌-ℤ◌
year_of_era_before = refl

era_days_before : negsuc 0 *ℤ pos 146097 ≡ negsuc 146096
unfolding ◌*ℤ◌
era_days_before = refl

-- January and February of year 0 belong to the March year -1.
shifted_negsuc :
    (month day : ℕ)
    → days_from_shifted (negsuc 0) month day
      ≡ pos ((153 * ((month + 9) % 12) + 2) / 5 + day) -ℤ pos 719835
unfolding days_from_shifted div_ℤ
shifted_negsuc month day =
    rw era_before
      (rw year_of_era_before (rw (pos-*ℤ 399 365) (rw era_days_before (omega int_laws))))

-- The day of the March year, against the lengths of the months.
march_day :
    (year month : ℕ)
    → 1 ≤ month
    → month ≤ 12
    → days_before_month year month ≡ (
        if leb month 2
        then (153 * ((month + 9) % 12) + 2) / 5 - 306
        else (153 * ((month + 9) % 12) + 2) / 5 + (if is_leap_year year then 60 else 59))
unfolding days_in_month
march_day year (suc (suc (suc (suc (suc (suc (suc (suc (suc (suc (suc (suc (suc m))))))))))))) h
      h' =
    absurd (omega arith)
march_day year _ h h' = ground arith

-- The leap days before a year, and the leap day of the year itself.
leap_days :
    (y : ℕ)
    → (y + 3) / 4 + (y + 399) / 400 + y / 100 + (if is_leap_year y then 60 else 59)
      ≡ y / 4 + y / 400 + (y + 99) / 100 + 60
unfolding is_leap_year
leap_days y = ground arith

year_before : (y : ℕ) → pos (suc y) -ℤ pos 1 ≡ pos y
year_before y = omega int_laws

before_year_zero : pos 0 -ℤ pos 1 ≡ negsuc 0
unfolding ◌-ℤ◌
before_year_zero = refl

ends_in_february :
    (year month day : ℕ)
    → 1 ≤ month
    → month ≤ 12
    → 1 ≤ day
    → leb month 2 ≡ true
    → days_from_shifted (pos year -ℤ pos 1) month day ≡ pos (ordinal year month day) -ℤ pos 719528
ends_in_february zero month day h h' hd lt =
    let months = rw lt at (march_day zero month h h') in
    rw before_year_zero (rw shifted_negsuc (omega (int_laws, months, leb→le month 2 lt)))
ends_in_february (suc y) month day h h' hd lt =
    let months = rw lt at (march_day (suc y) month h h') in
    rw (year_before y)
      (rw shifted_pos (omega (int_laws, days_before_year-eq (suc y), months, leb→le month 2 lt)))

-- The day number of a date is its count of calendar days from 0000-01-01, less the 719528 days up
-- to the epoch: for every year, every month and every day of a month.
pub days_from_civil-ordinal :
    (year month day : ℕ)
    → 1 ≤ month
    → month ≤ 12
    → 1 ≤ day
    → days_from_civil (pos year) month day ≡ pos (ordinal year month day) -ℤ pos 719528
unfolding days_from_civil
days_from_civil-ordinal year month day h h' hd = elim (Bool-cases (leb month 2)) [
  | inl lt ↦ rw lt (ends_in_february year month day h h' hd lt)
  | inr ge ↦
      let months = rw ge at (march_day year month h h') in
      rw ge (rw shifted_pos (omega (int_laws, days_before_year-eq year, leap_days year, months)))
]
