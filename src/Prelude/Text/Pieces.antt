-- ===== src/Prelude/Text/Pieces.antt =====
-- What the searches on text find: prefixes, separators and the bytes in front of them.
use Prim.Native.Nat.{ℕ}
use mathlib.Core.Path.{◌≡◌, refl, sym, ap, ap₂, ◌∙◌, subst}
use mathlib.Core.Logic.{inl, inr}
use mathlib.Core.Bool.{true, false}
use mathlib.Core.Option.{Option, none, some}
use mathlib.Core.List.{[], ◌∷◌, ◌++◌}
use native.Mathlib.Omega.{arith}
use attestation_verify.Prelude.Tests.{◌==◌, Bool-cases}
use attestation_verify.Prelude.Options.{Option-cases, some_inj}
use attestation_verify.Prelude.Text.{Text, contains, split_once, strip_prefix, starts_with}

pub strip_prefix_sound : (s p : Text) {r : Text} → strip_prefix s p ≡ some r → s ≡ p ++ r
unfolding strip_prefix
strip_prefix_sound s [] e = cc
strip_prefix_sound [] (y ∷ p) e = cc
strip_prefix_sound (x ∷ s) (y ∷ p) e = elim (Bool-cases (x == y)) [
  | inl same ↦ ap₂ ◌∷◌ (ground arith) (strip_prefix_sound s p (rw (same, strip_prefix) at e))
  | inr other ↦ absurd (cc (rw (other, strip_prefix) at e))
]

pub strip_prefix-append : (p r : Text) → strip_prefix (p ++ r) p ≡ some r
unfolding strip_prefix
strip_prefix-append [] r = refl
strip_prefix-append (y ∷ p) r =
    let same : (y == y) ≡ true = ground arith in rw (same, strip_prefix) (strip_prefix-append p r)

some_pair :
    {a b a' b' : Text}
    → ◌≡◌ {A = Option (Text × Text)} (some (a, b)) (some (a', b'))
    → (a ≡ a') × (b ≡ b')
some_pair e =
    let p = some_inj e in (ap (λ (q : Text × Text). q.0) p, ap (λ (q : Text × Text). q.1) p)

contains_cons : (x c : ℕ) (s : Text) → (x == c) ≡ false → contains (x ∷ s) c ≡ contains s c
unfolding contains
contains_cons x c s h = rw (h, contains)

-- What stands in front of the separator has none in it.
pub split_once_sound :
    (s : Text) (c : ℕ) {a b : Text}
    → split_once s c ≡ some (a, b)
    → (s ≡ a ++ (c ∷ b)) × (contains a c ≡ false)
unfolding split_once contains
split_once_sound [] c e = cc
split_once_sound (x ∷ s) c {a} {b} e = elim (Bool-cases (x == c)) [
  | inl here ↦
      let (front, back) =
        some_pair {a = []} {b = s} {a' = a} {b' = b} (rw (here, split_once) at e) in
      let x_is : x ≡ c = ground arith in
      (
        subst (λ (t : Text). x ∷ s ≡ t ++ (c ∷ b)) front (ap₂ ◌∷◌ x_is back),
        ap (λ (t : Text). contains t c) (sym front),
      )
  | inr later ↦ elim (Option-cases (split_once s c)) [
    | inl missing ↦
        let at_x : split_once (x ∷ s) c ≡ none = rw (later, split_once) (rw missing) in cc
    | inr ((a0, b0), found) ↦
        let at_x : split_once (x ∷ s) c ≡ some (x ∷ a0, b0) = rw (later, split_once) (rw found) in
        let (front, back) = some_pair {a = x ∷ a0} {b = b0} {a' = a} {b' = b} (sym at_x ∙ e) in
        let (whole, absent) = split_once_sound s c found in
        (
          subst (λ (t : Text). x ∷ s ≡ t ++ (c ∷ b)) front
              (ap (λ (t : Text). x ∷ t) (whole ∙ ap (λ (t : Text). a0 ++ (c ∷ t)) back)),
          subst (λ (t : Text). contains t c ≡ false) front (contains_cons x c a0 later ∙ absent),
        )
  ]
]

pub split_once-append :
    (a b : Text) (c : ℕ) → contains a c ≡ false → split_once (a ++ (c ∷ b)) c ≡ some (a, b)
unfolding split_once contains
split_once-append [] b c h = let same : (c == c) ≡ true = ground arith in rw (same, split_once)
split_once-append (x ∷ a) b c h =
    let other : (x == c) ≡ false = ground arith in
    let rest : contains a c ≡ false = ground arith in
    rw (other, split_once) (rw (split_once-append a b c rest))

pub split_once_absent : (s : Text) (c : ℕ) → contains s c ≡ false → split_once s c ≡ none
unfolding split_once contains
split_once_absent [] c h = refl
split_once_absent (x ∷ s) c h =
    let other : (x == c) ≡ false = ground arith in
    let rest : contains s c ≡ false = ground arith in
    rw (other, split_once) (rw (split_once_absent s c rest))

pub contains-append :
    (a b : Text) (c : ℕ)
    → contains (a ++ b) c ≡ false
    → (contains a c ≡ false) × (contains b c ≡ false)
unfolding contains
contains-append [] b c h = (refl, h)
contains-append (x ∷ a) b c h = ground (arith, contains-append a b c)

pub starts_with_sound : (s p : Text) → starts_with s p ≡ true → (r : Text) × (s ≡ p ++ r)
unfolding starts_with
starts_with_sound s [] h = (s, refl)
starts_with_sound [] (y ∷ p) h = cc
starts_with_sound (x ∷ s) (y ∷ p) h =
    let (r, e) = starts_with_sound s p (ground arith) in (r, ap₂ ◌∷◌ (ground arith) e)

pub starts_with-append : (p r : Text) → starts_with (p ++ r) p ≡ true
unfolding starts_with
starts_with-append [] r = refl
starts_with-append (y ∷ p) r = ground (arith, starts_with-append p r)
