-- ===== src/Prelude/Decimal/Laws.antt =====
-- Printing and reading decimal numbers: what the digits stand for, and that a print is read back.
use Prim.Native.Nat.{ℕ, zero, suc, ◌+◌, ◌-◌, ◌*◌, ◌/◌, ◌%◌, ◌≤◌, ◌<◌}
use mathlib.Core.Path.{◌≡◌, refl, sym, ap, ap₂, ◌∙◌}
use mathlib.Core.Logic.{◌≢◌, ◌⊎◌, inl, inr}
use mathlib.Core.Bool.{false}
use mathlib.Core.Option.{some}
use mathlib.Core.List.{[], ◌∷◌, ◌++◌}
use native.Mathlib.Omega.{arith}
use attestation_verify.Prelude.Tests.{ltb, ◌==◌, Bool-cases}
use attestation_verify.Prelude.Lists.{All}
use attestation_verify.Prelude.Text.{Text}
use attestation_verify.Prelude.Decimal.{
  u64_mod, digits_onto, to_string, read_u64, read_digits_u64, parse_u64,
}

abbrev pub IsDigit : ℕ → Type 0
IsDigit c = (b'0' ≤ c) × (c ≤ b'9')

-- The number that a run of digits spells behind the digits of `n`.
abbrev pub value_from : ℕ → Text → ℕ
value_from n [] = n
value_from n (c ∷ s) = value_from (n * 10 + (c - b'0')) s

abbrev pub value : Text → ℕ
value s = value_from 0 s

value-digits_onto :
    (fuel n : ℕ) (out : Text) → n < fuel → value_from 0 (digits_onto fuel n out) ≡ value_from n out
unfolding digits_onto
value-digits_onto zero n out h = absurd (omega arith)
value-digits_onto (suc fuel) n out h = elim (Bool-cases (ltb n 10)) [
  | inl lt ↦ rw lt (ap (λ (m : ℕ). value_from m out) (omega arith))
  | inr ge ↦ rw ge (
      value-digits_onto fuel (n / 10) ((b'0' + n % 10) ∷ out) (ground arith)
      ∙ ap (λ (m : ℕ). value_from m out) (omega arith))
]

-- The digits of a number spell it.
pub value-to_string : (n : ℕ) → value (to_string n) ≡ n
unfolding to_string
value-to_string n = value-digits_onto (suc n) n [] (omega arith)

pub to_string_inj : (m n : ℕ) → to_string m ≡ to_string n → m ≡ n
to_string_inj m n e = sym (value-to_string m) ∙ ap value e ∙ value-to_string n

digits_onto-All :
    (fuel n : ℕ) (out : Text) → n < fuel → All IsDigit out → All IsDigit (digits_onto fuel n out)
unfolding digits_onto
digits_onto-All zero n out h d = absurd (omega arith)
digits_onto-All (suc fuel) n out h d = elim (Bool-cases (ltb n 10)) [
  | inl lt ↦ rw lt (((omega arith), (ground arith)), d)
  | inr ge ↦
      rw ge (digits_onto-All fuel (n / 10) _ (ground arith) (((omega arith), (omega arith)), d))
]

pub to_string-All : (n : ℕ) → All IsDigit (to_string n)
unfolding to_string
to_string-All n = digits_onto-All (suc n) n [] (omega arith) tt

-- A run of digits ends at the first byte that is none.
pub digits_end :
    (c : ℕ) (s s' rest rest' : Text)
    → ¬ IsDigit c
    → All IsDigit s
    → All IsDigit s'
    → s ++ (c ∷ rest) ≡ s' ++ (c ∷ rest')
    → (s ≡ s') × (rest ≡ rest')
digits_end c [] [] rest rest' n d d' e = (refl, cc)
digits_end c [] (x ∷ s') rest rest' n d d' e = absurd (n (ground arith))
digits_end c (x ∷ s) [] rest rest' n d d' e = absurd (n (ground arith))
digits_end c (x ∷ s) (y ∷ s') rest rest' n d d' e =
    let tails : s ++ (c ∷ rest) ≡ s' ++ (c ∷ rest') = cc in
    let (p, q) = digits_end c s s' rest rest' n d.1 d'.1 tails in (ap₂ ◌∷◌ (cc) p, q)

le-value_from : (s : Text) (n : ℕ) → n ≤ value_from n s
le-value_from [] n = omega arith
le-value_from (c ∷ s) n = omega (arith, le-value_from s (n * 10 + (c - b'0')))

read_u64_sound :
    (s : Text) (n r : ℕ)
    → n < u64_mod
    → read_u64 s n ≡ some r
    → All IsDigit s × (r ≡ value_from n s) × (r < u64_mod)
unfolding read_u64
read_u64_sound [] n r fits h = ground arith
read_u64_sound (c ∷ s) n r fits h = ground (arith, read_u64_sound s (n * 10 + (c - b'0')) r)

read_u64_complete :
    (s : Text) (n : ℕ)
    → All IsDigit s
    → value_from n s < u64_mod
    → read_u64 s n ≡ some (value_from n s)
unfolding read_u64
read_u64_complete [] n d h = refl
read_u64_complete (c ∷ s) n d h =
    ground
      (arith, read_u64_complete s (n * 10 + (c - b'0')) d.1, le-value_from s (n * 10 + (c - b'0')))

-- One digit at least, and the number fits.
abbrev pub IsU64 : Text → Type 0
IsU64 s = (s ≢ []) × All IsDigit s × (value s < u64_mod)

read_digits_u64_sound : (s : Text) {r : ℕ} → read_digits_u64 s ≡ some r → IsU64 s × (r ≡ value s)
read_digits_u64_sound [] e = cc
read_digits_u64_sound (c ∷ s) {r} e =
    let (d, exact, fits) = read_u64_sound (c ∷ s) 0 r (omega arith) e in
    (((λ z. cc), d, omega arith), exact)

read_digits_u64_complete : (s : Text) → IsU64 s → read_digits_u64 s ≡ some (value s)
read_digits_u64_complete [] h = absurd (h.0 refl)
read_digits_u64_complete (c ∷ s) h = read_u64_complete (c ∷ s) 0 h.1 h.2

-- `parse::<u64>` accepts one or more digits of a number below 2 ^ 64, with or without a "+" in
-- front, and nothing else.
pub parse_u64_sound :
    (s : Text) {r : ℕ}
    → parse_u64 s ≡ some r
    → (t : Text) × ((s ≡ t) ⊎ (s ≡ b'+' ∷ t)) × IsU64 t × (r ≡ value t)
unfolding parse_u64
parse_u64_sound [] e = cc
parse_u64_sound (c ∷ s) {r} e = elim (Bool-cases (c == b'+')) [
  | inl plus ↦
      let (u, v) = read_digits_u64_sound s (rw (plus, parse_u64) at e) in
      (s, inr (ap (λ (x : ℕ). x ∷ s) (ground arith)), u, v)
  | inr other ↦
      let (u, v) = read_digits_u64_sound (c ∷ s) (rw (other, parse_u64) at e) in
      (c ∷ s, inl refl, u, v)
]

pub parse_u64_plus : (t : Text) → IsU64 t → parse_u64 (b'+' ∷ t) ≡ some (value t)
unfolding parse_u64
parse_u64_plus t h = read_digits_u64_complete t h

pub parse_u64_digits : (t : Text) → IsU64 t → parse_u64 t ≡ some (value t)
unfolding parse_u64
parse_u64_digits [] h = absurd (h.0 refl)
parse_u64_digits (c ∷ t) h =
    let other : (c == b'+') ≡ false = ground arith in
    rw (other, parse_u64) (read_digits_u64_complete (c ∷ t) h)

to_string-ne-nil : (n : ℕ) → to_string n ≢ []
unfolding to_string
to_string-ne-nil n e =
    let zero_is : n ≡ 0 = sym (value-to_string n) ∙ ap value e in
    let printed : to_string 0 ≡ [] = sym (ap to_string zero_is) ∙ e in cc

-- A u64 is read back from its print.
pub parse_u64-to_string : (n : ℕ) → n < u64_mod → parse_u64 (to_string n) ≡ some n
parse_u64-to_string n h =
    parse_u64_digits (to_string n) (to_string-ne-nil n, to_string-All n, rw (value-to_string n) h)
    ∙ ap some (value-to_string n)
