-- ===== src/Prelude/Decimal.antt =====
-- Decimal numbers as Rust prints them (`to_string`, `{}`) and reads them (`str::parse::<u64>`).
pub mod Laws
use Prim.Native.Nat.{ℕ, zero, suc, ◌+◌, ◌-◌, ◌*◌, ◌/◌, ◌%◌, ◌^◌, ◌≤◌, ◌<◌}
use mathlib.Core.Path.{◌≡◌, refl}
use mathlib.Core.Bool.{Bool, true, false}
use mathlib.Core.Option.{Option, none, some}
use mathlib.Core.List.{List, [], ◌∷◌}
use attestation_verify.Prelude.Tests.{ltb, ◌==◌, if◌then◌else◌}
use attestation_verify.Prelude.Text.{Text, is_digit}

abbrev pub u64_mod : ℕ
u64_mod = 2 ^ 64

-- Each round puts the last digit in front; a number has fewer rounds than its value.
digits_onto : ℕ → ℕ → Text → Text
digits_onto zero n out = out
digits_onto (suc fuel) n out =
    let rest = digits_onto fuel (n / 10) ((b'0' + n % 10) ∷ out) in
    if ltb n 10 then (b'0' + n) ∷ out else rest

unfoldable pub to_string : ℕ → Text
unfolding digits_onto
to_string n = digits_onto (suc n) n []

-- `checked_mul` and `checked_add` in u64.
unfoldable pub read_u64 : Text → ℕ → Option ℕ
read_u64 [] n = some n
read_u64 (c ∷ s) n =
    let next = n * 10 + (c - b'0') in
    let rest = read_u64 s next in
    if is_digit c then (if ltb next u64_mod then rest else none) else none

abbrev read_digits_u64 : Text → Option ℕ
read_digits_u64 [] = none
read_digits_u64 (c ∷ s) = read_u64 (c ∷ s) 0

-- `s.parse::<u64>()`: one "+" may stand in front of the digits.
unfoldable pub parse_u64 : Text → Option ℕ
unfolding read_u64
parse_u64 [] = none
parse_u64 (c ∷ s) = if c == b'+' then read_digits_u64 s else read_digits_u64 (c ∷ s)
