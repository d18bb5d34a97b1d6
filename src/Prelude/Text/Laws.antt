-- ===== src/Prelude/Text/Laws.antt =====
-- What the tests on byte strings decide.
use mathlib.Core.Path.{◌≡◌, refl, ap₂}
use mathlib.Core.Logic.{◌↔◌}
use mathlib.Core.Bool.{true}
use mathlib.Core.List.{[], ◌∷◌, map}
use native.Mathlib.Omega.{arith}
use attestation_verify.Prelude.Tests.{==_iff, and_true, true_and}
use attestation_verify.Prelude.Lists.{cons_head, cons_tail}
use attestation_verify.Prelude.Text.{Text, str_eq, to_ascii_lowercase, eq_ignore_ascii_case}

pub str_eq→eq : (a b : Text) → str_eq a b ≡ true → a ≡ b
unfolding str_eq
str_eq→eq [] [] h = refl
str_eq→eq [] (y ∷ b) h = cc
str_eq→eq (x ∷ a) [] h = cc
str_eq→eq (x ∷ a) (y ∷ b) h = ap₂ ◌∷◌ ((==_iff x y).0 (ground arith)) (str_eq→eq a b (ground arith))

pub str_eq_refl : (a : Text) → str_eq a a ≡ true
unfolding str_eq
str_eq_refl [] = refl
str_eq_refl (x ∷ a) = ground (arith, str_eq_refl a)

pub eq→str_eq : (a b : Text) → a ≡ b → str_eq a b ≡ true
eq→str_eq a b e = rw e (str_eq_refl b)

pub str_eq_iff : (a b : Text) → (str_eq a b ≡ true) ↔ (a ≡ b)
str_eq_iff a b = (str_eq→eq a b, eq→str_eq a b)

-- `eq_ignore_ascii_case` compares the lower-case forms.
pub eq_ignore_ascii_case_iff :
    (a b : Text)
    → (eq_ignore_ascii_case a b ≡ true) ↔ (map to_ascii_lowercase a ≡ map to_ascii_lowercase b)
unfolding eq_ignore_ascii_case
eq_ignore_ascii_case_iff [] [] = (λ h. refl, λ h. refl)
eq_ignore_ascii_case_iff [] (y ∷ b) = (λ h. absurd (cc h), λ h. absurd (cc h))
eq_ignore_ascii_case_iff (x ∷ a) [] = (λ h. absurd (cc h), λ h. absurd (cc h))
eq_ignore_ascii_case_iff (x ∷ a) (y ∷ b) =
    let ih = eq_ignore_ascii_case_iff a b in
    (
      (λ h.
          let (first, rest) = and_true _ _ h in
          ap₂ ◌∷◌ ((==_iff (to_ascii_lowercase x) (to_ascii_lowercase y)).0 first) (ih.0 rest)),
      λ h.
          let first : to_ascii_lowercase x ≡ to_ascii_lowercase y = cons_head h in
          let tail : map to_ascii_lowercase a ≡ map to_ascii_lowercase b = cons_tail h in
          true_and ((==_iff (to_ascii_lowercase x) (to_ascii_lowercase y)).1 first) (ih.1 tail),
    )
