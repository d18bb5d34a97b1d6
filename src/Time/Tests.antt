-- ===== src/Time/Tests.antt =====
-- The unit tests of src/time.rs.
use attestation_verify.Prelude.{inr, ◌≡◌, refl, ok, err, ◌∷◌, [], arith}
use attestation_verify.Prelude.Int.{pos, negsuc, ◌+ℤ◌, ◌-ℤ◌, ◌*ℤ◌}
use attestation_verify.Prelude.Text.{Text, codes}
use attestation_verify.Time.{bad, parse_rfc3339}
use attestation_verify.Time.Format.{Stamp, behind, print_stamp, seconds, parse_rfc3339-print_stamp}
use attestation_verify.Time.Calendar.{days_in_month, div_ℤ, days_from_civil, days_from_shifted}
use attestation_verify.Time.Calendar.Days.{ordinal, days_from_civil-ordinal}

abbrev f : Text
f = b'f' ∷ []

runs :
    (parse_rfc3339 f (codes "1970-01-01T00:00:00Z") ≡ ok (pos 0))
    × (parse_rfc3339 f (codes "1969-12-31T23:59:59Z") ≡ ok (negsuc 0))
    × (parse_rfc3339 f (codes "2021-03-07T03:20:29Z") ≡ ok (pos 1615087229))
    × (parse_rfc3339 f (codes "2022-12-31T23:59:59.0000001Z") ≡ ok (pos 1672531200))
    × (parse_rfc3339 f (codes "2022-12-31T23:59:59.000Z") ≡ ok (pos 1672531199))
    × (parse_rfc3339 f (codes "2400-01-01T00:00:00Z") ≡ ok (pos 13569465600))
    × (parse_rfc3339 f (codes "2021-01-01T00:00:00+09:00") ≡ ok (pos 1609426800))
    × (parse_rfc3339 f (codes "2021-01-01T00:00:00-05:00") ≡ ok (pos 1609477200))
unfolding parse_rfc3339 codes div_ℤ days_from_shifted ◌+ℤ◌ ◌-ℤ◌ ◌*ℤ◌
runs = (refl, refl, refl, refl, refl, refl, refl, refl)

refusals :
    (parse_rfc3339 f (codes "1900-02-29T00:00:00Z") ≡ err (bad f "day out of range for its month"))
    × (parse_rfc3339 f (codes "2021-13-01T00:00:00Z") ≡ err (bad f "month out of range"))
    × (parse_rfc3339 f (codes "2021-01-01T24:00:00Z") ≡ err (bad f "hour out of range"))
    × (parse_rfc3339 f (codes "2021-01-01T00:00:00Zgarbage")
        ≡ err (bad f "unexpected trailing characters"))
    × (parse_rfc3339 f (codes "2021-01-01T00:00:00+09:60")
        ≡ err (bad f "timezone offset out of range"))
unfolding parse_rfc3339 codes
refusals = (refl, refl, refl, refl, refl)

days_from_civil-ordinal_example :
    days_from_civil (pos 2024) 2 29 ≡ pos (ordinal 2024 2 29) -ℤ pos 719528
days_from_civil-ordinal_example =
    days_from_civil-ordinal 2024 2 29 (omega arith) (omega arith) (omega arith)

-- 2024-02-29t23:59:59.25-05:30
abbrev leap : Stamp
leap = record {
  civil = record { year = 2024; month = 2; day = 29; hour = 23; minute = 59; second = 59 };
  separator = b't';
  fraction = 2 ∷ 5 ∷ [];
  zone = behind 5 30;
}

parse_rfc3339-print_stamp_example : parse_rfc3339 f (print_stamp leap) ≡ ok (seconds leap)
unfolding days_in_month
parse_rfc3339-print_stamp_example = parse_rfc3339-print_stamp f leap (
  (
    (omega arith),
    (omega arith),
    (omega arith),
    (omega arith),
    (omega arith),
    (omega arith),
    (omega arith),
    (omega arith),
  ),
  inr refl,
  ((omega arith), ((omega arith), tt)),
  ((omega arith), (omega arith)),
)
