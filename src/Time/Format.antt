-- ===== src/Time/Format.antt =====
-- The text of a timestamp, as RFC 3339 writes it, and that the parser reads it.
use attestation_verify.Prelude.{
  ℕ, suc, ◌+◌, ◌*◌, ◌/◌, ◌%◌, ◌≤◌, ◌<◌, ◌≡◌, refl, sym, ap, ◌∙◌, ◌⊎◌, inl, inr, Bool, true, false,
  not, ◌||◌, List, [], ◌∷◌, ◌++◌, length, length-append, some, ok, ◌==◌, ltb, arith, All, any,
  any_cons, if◌then◌else◌,
}
use attestation_verify.Prelude.Int.{ℤ, pos, ◌-ℤ◌, ◌+ℤ◌, ◌*ℤ◌}
use attestation_verify.Prelude.Text.{Text, is_digit}
use attestation_verify.Time.{
  Civil, read_slice, read_civil, check_civil, skip_digits, read_fraction, read_zone, read_offset,
  time_of_day, unix_time, parse_rfc3339,
}
use attestation_verify.Time.Calendar.{days_in_month}
use attestation_verify.Time.Calendar.Days.{ordinal, days_from_civil-ordinal}

abbrev pub two : ℕ → Text
two n = (b'0' + n / 10) ∷ (b'0' + n % 10) ∷ []

abbrev pub four : ℕ → Text
four n = (b'0' + n / 1000) ∷ (b'0' + n / 100 % 10) ∷ (b'0' + n / 10 % 10) ∷ (b'0' + n % 10) ∷ []

read_two : (n : ℕ) (rest : Text) → n < 100 → read_slice 2 0 (two n ++ rest) ≡ some n
unfolding read_slice
read_two n rest h = ground arith

read_four : (n : ℕ) (rest : Text) → n < 10000 → read_slice 4 0 (four n ++ rest) ≡ some n
unfolding read_slice
read_four n rest h = ground arith

-- The date and the time of day, with `sep` between them.
abbrev pub print_civil : Civil → ℕ → Text → Text
print_civil c sep rest =
    four c.year
    ++ (b'-'
        ∷ (two c.month
            ++ (b'-'
                ∷ (two c.day
                    ++ (sep
                        ∷ (two c.hour
                            ++ (b':' ∷ (two c.minute ++ (b':' ∷ (two c.second ++ rest))))))))))

-- What is printed is a date of the calendar and a time of the day.
abbrev pub IsCivil : Civil → Type 0
IsCivil c =
    (c.year < 10000)
    × (1 ≤ c.month)
    × (c.month ≤ 12)
    × (1 ≤ c.day)
    × (c.day ≤ days_in_month c.year c.month)
    × (c.hour ≤ 23)
    × (c.minute ≤ 59)
    × (c.second ≤ 59)

month_short : (year month : ℕ) → days_in_month year month ≤ 31
unfolding days_in_month
month_short year month = ground arith

module _ (field : Text) where
  read_civil-print_civil :
      (c : Civil) (sep : ℕ) (rest : Text)
      → IsCivil c
      → (sep ≡ b'T') ⊎ (sep ≡ b't')
      → read_civil field (print_civil c sep rest) ≡ ok c
  unfolding read_civil
  read_civil-print_civil c sep rest (y, m1, m, d1, d, h, mi, s) t =
      let short = month_short c.year c.month in
      rw (read_four c.year _ y) (
        rw (read_two c.month _ (omega arith)) (
          rw (read_two c.day _ (omega arith)) (
            rw (read_two c.hour _ (omega arith)) (
              rw (read_two c.minute _ (omega arith)) (
                rw (read_two c.second _ (omega arith))
                  (elim t [ inl upper ↦ rw upper refl | inr lower ↦ rw lower refl ]))))))

  check_civil-ok : (c : Civil) → IsCivil c → check_civil field c ≡ ok tt
  unfolding check_civil
  check_civil-ok c (y, m1, m, d1, d, h, mi, s) = ground arith

-- The digits of a fraction, as numbers.
abbrev pub IsDecimal : ℕ → Type 0
IsDecimal n = n < 10

abbrev pub print_digits : List ℕ → Text
print_digits [] = []
print_digits (n ∷ ns) = (b'0' + n) ∷ print_digits ns

-- A fraction has one digit at least; a stamp without a fraction has none.
abbrev pub print_fraction : List ℕ → Text
print_fraction [] = []
print_fraction (n ∷ ns) = b'.' ∷ print_digits (n ∷ ns)

abbrev pub is_nonzero : ℕ → Bool
is_nonzero n = not (n == 0)

-- The zone: "Z", or hours and minutes ahead of UTC or behind it.
pub data Zone : Type 0 where
  utc utc_lower : Zone
  ahead behind : (hours minutes : ℕ) → Zone

abbrev pub print_zone : Zone → Text
print_zone utc = b'Z' ∷ []
print_zone utc_lower = b'z' ∷ []
print_zone (ahead h m) = b'+' ∷ (two h ++ (b':' ∷ two m))
print_zone (behind h m) = b'-' ∷ (two h ++ (b':' ∷ two m))

abbrev pub IsZone : Zone → Type 0
IsZone utc = Unit
IsZone utc_lower = Unit
IsZone (ahead h m) = (h ≤ 23) × (m ≤ 59)
IsZone (behind h m) = (h ≤ 23) × (m ≤ 59)

-- Seconds ahead of UTC.
abbrev pub offset : Zone → ℤ
offset utc = pos 0
offset utc_lower = pos 0
offset (ahead h m) = pos (h * 3600 + m * 60)
offset (behind h m) = pos 0 -ℤ pos (h * 3600 + m * 60)

read_two_end : (n : ℕ) → n < 100 → read_slice 2 0 (two n) ≡ some n
unfolding read_slice
read_two_end n h = ground arith

module _ (field : Text) where
  read_zone-print_zone : (z : Zone) → IsZone z → read_zone field (print_zone z) ≡ ok (offset z, [])
  unfolding read_zone read_offset
  read_zone-print_zone utc h = refl
  read_zone-print_zone utc_lower h = refl
  read_zone-print_zone (ahead h m) (hh, mm) =
      let in_range : (ltb 23 h || ltb 59 m) ≡ false = ground arith in
      rw (read_two h (b':' ∷ two m) (omega arith))
        (rw (read_two_end m (omega arith)) (rw in_range refl))
  read_zone-print_zone (behind h m) (hh, mm) =
      let in_range : (ltb 23 h || ltb 59 m) ≡ false = ground arith in
      rw (read_two h (b':' ∷ two m) (omega arith))
        (rw (read_two_end m (omega arith)) (rw in_range refl))

skip_digits-zone :
    (z : Zone) (nonzero : Bool) → skip_digits (print_zone z) nonzero ≡ (nonzero, print_zone z)
unfolding skip_digits
skip_digits-zone utc nonzero = refl
skip_digits-zone utc_lower nonzero = refl
skip_digits-zone (ahead h m) nonzero = refl
skip_digits-zone (behind h m) nonzero = refl

or_assoc : (a b c : Bool) → ((a || b) || c) ≡ (a || (b || c))
or_assoc true b c = refl
or_assoc false b c = refl

or_false_right : (a : Bool) → a ≡ (a || false)
or_false_right true = refl
or_false_right false = refl

any_nothing : any is_nonzero [] ≡ false
unfolding any
any_nothing = refl

skip_digits-print_digits :
    (ns : List ℕ) (z : Zone) (nonzero : Bool)
    → All IsDecimal ns
    → skip_digits (print_digits ns ++ print_zone z) nonzero
      ≡ ((nonzero || any is_nonzero ns), print_zone z)
unfolding skip_digits
skip_digits-print_digits [] z nonzero h =
    skip_digits-zone z nonzero
    ∙ ap (λ (b : Bool). (b, print_zone z))
        (or_false_right nonzero ∙ ap (λ (b : Bool). nonzero || b) (sym any_nothing))
skip_digits-print_digits (n ∷ ns) z nonzero (d, ds) =
    let digit : is_digit (b'0' + n) ≡ true = ground arith in
    let same : (b'0' + n == b'0') ≡ (n == 0) = ground arith in
    rw (digit, skip_digits)
      (skip_digits-print_digits ns z (nonzero || not (b'0' + n == b'0')) ds
        ∙ ap (λ (b : Bool). (b, print_zone z))
            (ap (λ (b : Bool). (nonzero || not b) || any is_nonzero ns) same
              ∙ or_assoc nonzero (is_nonzero n) (any is_nonzero ns)
              ∙ ap (λ (b : Bool). nonzero || b) (sym (any_cons is_nonzero n ns))))

length-print_digits : (ns : List ℕ) → length (print_digits ns) ≡ length ns
length-print_digits [] = refl
length-print_digits (n ∷ ns) = ap suc (length-print_digits ns)

module _ (field : Text) where
  read_fraction-print_fraction :
      (ns : List ℕ) (z : Zone)
      → All IsDecimal ns
      → read_fraction field (print_fraction ns ++ print_zone z)
        ≡ ok (any is_nonzero ns, print_zone z)
  unfolding read_fraction any
  read_fraction-print_fraction [] utc h = refl
  read_fraction-print_fraction [] utc_lower h = refl
  read_fraction-print_fraction [] (ahead hh m) h = refl
  read_fraction-print_fraction [] (behind hh m) h = refl
  read_fraction-print_fraction (n ∷ ns) z h =
      let longer : (length (print_zone z) == length (print_digits (n ∷ ns) ++ print_zone z))
          ≡ false =
        ground (arith, length-append (print_digits (n ∷ ns)) (print_zone z)) in
      rw (skip_digits-print_digits (n ∷ ns) z false h) (rw longer refl)

pub record Stamp : Type 0 where
  pub civil : Civil
  pub separator : ℕ
  pub fraction : List ℕ
  pub zone : Zone

abbrev pub print_stamp : Stamp → Text
print_stamp s = print_civil s.civil s.separator (print_fraction s.fraction ++ print_zone s.zone)

abbrev pub IsStamp : Stamp → Type 0
IsStamp s =
    IsCivil s.civil
    × ((s.separator ≡ b'T') ⊎ (s.separator ≡ b't'))
    × All IsDecimal s.fraction
    × IsZone s.zone

zone_length : (z : Zone) → 1 ≤ length (print_zone z)
zone_length utc = omega arith
zone_length utc_lower = omega arith
zone_length (ahead h m) = omega arith
zone_length (behind h m) = omega arith

-- The days of the calendar from 0000-01-01 to the date, less those up to the epoch, as seconds, and
-- the time of the day; less the zone's offset, and rounded up to a whole second.
abbrev pub seconds : Stamp → ℤ
seconds s =
    let c = s.civil in
    let whole =
      (pos (ordinal c.year c.month c.day) -ℤ pos 719528) *ℤ pos 86400
      +ℤ pos (time_of_day c)
      -ℤ offset s.zone in
    if any is_nonzero s.fraction then whole +ℤ pos 1 else whole

unix_time-seconds :
    (s : Stamp)
    → IsCivil s.civil
    → unix_time s.civil (any is_nonzero s.fraction) (offset s.zone) ≡ seconds s
unfolding unix_time
unix_time-seconds s (y, m1, m, d1, d, h, mi, sec) =
    rw (days_from_civil-ordinal s.civil.year s.civil.month s.civil.day m1 m d1) refl

module _ (field : Text) where
  -- Every printed timestamp of a calendar date is accepted, with "T" or "t", any digits of a fraction,
  -- and any zone. The result is the number of calendar days since the epoch in seconds, with the time
  -- of the day, less the zone's offset, and one second more where a digit of the fraction is not zero.
  pub parse_rfc3339-print_stamp :
      (s : Stamp) → IsStamp s → parse_rfc3339 field (print_stamp s) ≡ ok (seconds s)
  unfolding parse_rfc3339
  parse_rfc3339-print_stamp s (civil, sep, digits, zone) =
      let rest = print_fraction s.fraction ++ print_zone s.zone in
      let long : ltb (length (print_civil s.civil s.separator rest)) 20 ≡ false = ground (
        arith,
        length-append (print_fraction s.fraction) (print_zone s.zone),
        zone_length s.zone,
      ) in
      rw long (
        rw (read_civil-print_civil field s.civil s.separator rest civil sep) (
          rw (check_civil-ok field s.civil civil) (
            rw (read_fraction-print_fraction field s.fraction s.zone digits)
              (rw (read_zone-print_zone field s.zone zone) (ap ok (unix_time-seconds s civil))))))
