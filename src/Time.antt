-- ===== src/Time.antt =====
-- src/time.rs: RFC 3339 timestamps. `field` labels an error and is any text.
pub mod Calendar
pub mod Format
mod Tests
use attestation_verify.Prelude.{
  ℕ, zero, suc, ◌+◌, ◌-◌, ◌*◌, Bool, true, false, not, ◌&&◌, ◌||◌, Option, none, some, List, [],
  ◌∷◌, String, length, get_elem?, drop, ltb, leb, ◌==◌, if◌then◌else◌, Result, ok, err, ◌>>=◌, ◌>>◌,
  ok_or,
}
use attestation_verify.Prelude.Int.{ℤ, pos, ◌+ℤ◌, ◌-ℤ◌, ◌*ℤ◌}
use attestation_verify.Prelude.Text.{Text, codes, is_digit}
use attestation_verify.Errors.{ParseError, rfc3339}
use attestation_verify.Time.Calendar.{days_in_month, days_from_civil}

-- `n` digits from the front; `none` where one is missing or is no digit.
unfoldable pub read_slice : ℕ → ℕ → Text → Option ℕ
read_slice zero value s = some value
read_slice (suc n) value [] = none
read_slice (suc n) value (b ∷ s) =
    let rest = read_slice n (value * 10 + (b - b'0')) s in if is_digit b then rest else none

abbrev pub read_digits : Text → ℕ → ℕ → Option ℕ
read_digits bytes start n = read_slice n 0 (drop start bytes)

-- Whether a byte stands there: `bytes.get(index) == Some(&expected)`.
abbrev pub has_byte : Option ℕ → ℕ → Bool
has_byte none expected = false
has_byte (some b) expected = b == expected

pub record Civil : Type 0 where
  pub year : ℕ
  pub month : ℕ
  pub day : ℕ
  pub hour : ℕ
  pub minute : ℕ
  pub second : ℕ

-- The loop over the fraction's digits: whether one is not zero, and what follows them.
unfoldable pub skip_digits : Text → Bool → Bool × Text
skip_digits [] nonzero = (nonzero, [])
skip_digits (b ∷ s) nonzero = elim (is_digit b) [
  | true ↦ skip_digits s (nonzero || not (b == b'0'))
  | false ↦ (nonzero, b ∷ s)
]

abbrev pub time_of_day : Civil → ℕ
time_of_day c = c.hour * 3600 + c.minute * 60 + c.second

unfoldable pub unix_time : Civil → Bool → ℤ → ℤ
unfolding days_from_civil
unix_time c has_nonzero_fraction offset_seconds =
    let days = days_from_civil (pos c.year) c.month c.day in
    let whole = days *ℤ pos 86400 +ℤ pos (time_of_day c) -ℤ offset_seconds in
    if has_nonzero_fraction then whole +ℤ pos 1 else whole

module _ (field : Text) where
  abbrev pub bad : String → ParseError
  bad reason = rfc3339 field (codes reason)

  abbrev pub refuse_if : Bool → String → Result (Unit {0}) ParseError
  refuse_if test reason = if test then err (bad reason) else ok tt

  abbrev pub expect_byte : Text → ℕ → ℕ → Result (Unit {0}) ParseError
  expect_byte bytes index expected =
      refuse_if (not (has_byte (get_elem? bytes index) expected))
        "malformed RFC 3339 timestamp structure"

  -- The fixed part "YYYY-MM-DDTHH:MM:SS", by position.
  unfoldable pub read_civil : Text → Result Civil ParseError
  unfolding read_slice
  read_civil bytes = do
    year ← ok_or (read_digits bytes 0 4) (bad "invalid year")
    expect_byte bytes 4 b'-'
    month ← ok_or (read_digits bytes 5 2) (bad "invalid month")
    expect_byte bytes 7 b'-'
    day ← ok_or (read_digits bytes 8 2) (bad "invalid day")
    refuse_if (not (has_byte (get_elem? bytes 10) b'T') && not (has_byte (get_elem? bytes 10) b't'))
        "expected 'T' date/time separator"
    hour ← ok_or (read_digits bytes 11 2) (bad "invalid hour")
    expect_byte bytes 13 b':'
    minute ← ok_or (read_digits bytes 14 2) (bad "invalid minute")
    expect_byte bytes 16 b':'
    second ← ok_or (read_digits bytes 17 2) (bad "invalid second")
    ok (record {
      year = year;
      month = month;
      day = day;
      hour = hour;
      minute = minute;
      second = second;
    })

  unfoldable pub check_civil : Civil → Result (Unit {0}) ParseError
  unfolding days_in_month
  check_civil c = do
    refuse_if (ltb c.month 1 || ltb 12 c.month) "month out of range"
    refuse_if (ltb c.day 1 || ltb (days_in_month c.year c.month) c.day)
        "day out of range for its month"
    refuse_if (ltb 23 c.hour) "hour out of range"
    refuse_if (ltb 59 c.minute) "minute out of range"
    refuse_if (ltb 59 c.second) "second out of range"

  fraction_end : Text → Bool × Text → Result (Bool × Text) ParseError
  fraction_end start (nonzero, rest) =
      if length rest == length start
      then err (bad "'.' must be followed by at least one digit")
      else ok (nonzero, rest)

  -- The optional fraction behind the seconds.
  unfoldable pub read_fraction : Text → Result (Bool × Text) ParseError
  unfolding skip_digits fraction_end
  read_fraction [] = ok (false, [])
  read_fraction (b ∷ s) =
      if b == b'.' then fraction_end s (skip_digits s false) else ok (false, b ∷ s)

  read_offset : ℕ → Text → Result (ℤ × Text) ParseError
  read_offset sign s = do
    offset_hour ← ok_or (read_digits s 0 2) (bad "invalid offset hours")
    refuse_if (not (has_byte (get_elem? s 2) b':')) "expected ':' in timezone offset"
    offset_minute ← ok_or (read_digits s 3 2) (bad "invalid offset minutes")
    refuse_if (ltb 23 offset_hour || ltb 59 offset_minute) "timezone offset out of range"
    let magnitude = pos (offset_hour * 3600 + offset_minute * 60)
    ok ((if sign == b'-' then pos 0 -ℤ magnitude else magnitude), drop 5 s)

  -- The zone: seconds ahead of UTC, and what follows it.
  unfoldable pub read_zone : Text → Result (ℤ × Text) ParseError
  unfolding read_offset read_slice
  read_zone [] = err (bad "missing timezone designator")
  read_zone (b ∷ s) =
      if b == b'Z' || b == b'z'
      then ok (pos 0, s)
      else if b == b'+' || b == b'-'
      then read_offset b s
      else err (bad "expected 'Z' or a numeric timezone offset")

  unfoldable pub parse_rfc3339 : Text → Result ℤ ParseError
  unfolding read_civil check_civil read_fraction read_zone unix_time
  parse_rfc3339 bytes = do
    refuse_if (ltb (length bytes) 20) "too short to be a valid RFC 3339 timestamp"
    c ← read_civil bytes
    check_civil c
    (has_nonzero_fraction, zone) ← read_fraction (drop 19 bytes)
    (offset_seconds, rest) ← read_zone zone
    refuse_if (not (length rest == 0)) "unexpected trailing characters"
    ok (unix_time c has_nonzero_fraction offset_seconds)
