-- ===== src/X509/Extensions.antt =====
-- What the search for an extension finds.
use attestation_verify.Prelude.{
  ◌≡◌, ◌↔◌, refl, sym, ap, ◌∙◌, subst, Bool, true, false, Bool-cases, some, none, List, [], ◌∷◌,
  ◌++◌, keep, ok, ok_inj, some_inj, All, inl, inr,
}
use attestation_verify.Prelude.Text.{Text}
use attestation_verify.Crates.{Extension}
use attestation_verify.X509.{has_oid, at_most_one, find_extension}

-- Nothing in the list passes the test.
abbrev pub NoneOf {ℓ} : {A : Type ℓ} → (A → Bool) → List A → Type 0
NoneOf p xs = All (λ x. p x ≡ false) xs

-- One element passes the test, and no other in front of it or behind it.
abbrev pub OnlyOf {ℓ} : {A : Type ℓ} → (A → Bool) → A → List A → Type ℓ
OnlyOf {A = A} p x xs =
    (before : List A) × (after : List A) × (xs ≡ before ++ x ∷ after)
    × (p x ≡ true)
    × NoneOf p before
    × NoneOf p after

cons_inj {ℓ} : {A : Type ℓ} (x y : A) (xs ys : List A) → x ∷ xs ≡ y ∷ ys → (x ≡ y) × (xs ≡ ys)
cons_inj x y xs ys e = (cc e, cc e)

module _ {ℓ} {A : Type ℓ} (p : A → Bool) where
  keep_none : (xs : List A) → NoneOf p xs → keep p xs ≡ []
  unfolding keep
  keep_none [] h = refl
  keep_none (x ∷ xs) (away, rest) = rw (away, keep) (keep_none xs rest)

  keep_here : (x : A) (xs : List A) → p x ≡ true → keep p (x ∷ xs) ≡ x ∷ keep p xs
  unfolding keep
  keep_here x xs here = rw (here, keep) refl

  keep_away : (x : A) (xs : List A) → p x ≡ false → keep p (x ∷ xs) ≡ keep p xs
  unfolding keep
  keep_away x xs away = rw (away, keep) refl

  none_kept : (xs : List A) → keep p xs ≡ [] → NoneOf p xs
  none_kept [] h = tt
  none_kept (x ∷ xs) h = elim (Bool-cases (p x)) [
    | inl here ↦ let kept = keep_here x xs here in absurd (cc (h, kept))
    | inr away ↦ (away, none_kept xs (sym (keep_away x xs away) ∙ h))
  ]

  keep_only :
      (before : List A) (x : A) (after : List A)
      → p x ≡ true
      → NoneOf p before
      → NoneOf p after
      → keep p (before ++ x ∷ after) ≡ x ∷ []
  keep_only [] x after here nb na = keep_here x after here ∙ ap (λ t. x ∷ t) (keep_none after na)
  keep_only (y ∷ before) x after here (away, nb) na =
      keep_away y (before ++ x ∷ after) away ∙ keep_only before x after here nb na

  only_kept : (xs : List A) (x : A) → keep p xs ≡ x ∷ [] → OnlyOf p x xs
  unfolding keep
  only_kept [] x h = absurd (cc h)
  only_kept (y ∷ xs) x h = elim (Bool-cases (p y)) [
    | inl here ↦
        let kept = sym (keep_here y xs here) ∙ h in
        let same = cons_inj y x (keep p xs) [] kept in
        (
          [],
          xs,
          ap (λ t. t ∷ xs) same.0,
          subst (λ t. p t ≡ true) same.0 here,
          tt,
          none_kept xs same.1,
        )
    | inr away ↦
        let (before, after, split, found, nb, na) =
          only_kept xs x (sym (keep_away y xs away) ∙ h) in
        (y ∷ before, after, ap (λ t. y ∷ t) split, found, (away, nb), na)
  ]

-- No extension has the object identifier.
abbrev pub IsAbsent : Text → List Extension → Type 0
IsAbsent oid es = NoneOf (has_oid oid) es

-- One extension has it, and no other.
abbrev pub IsOnly : Text → Extension → List Extension → Type 0
IsOnly oid e es = OnlyOf (has_oid oid) e es

absent_lem : (es : List Extension) → at_most_one es ≡ ok none → es ≡ []
absent_lem [] h = refl
absent_lem (e ∷ []) h = absurd (cc h)
absent_lem (e ∷ f ∷ es) h = absurd (cc h)

only_lem : (es : List Extension) (e : Extension) → at_most_one es ≡ ok (some e) → es ≡ e ∷ []
only_lem [] e h = absurd (cc h)
only_lem (f ∷ []) e h = ap (λ t. t ∷ []) (some_inj (ok_inj h))
only_lem (f ∷ g ∷ es) e h = absurd (cc h)

module _ (oid : Text) (es : List Extension) where
  pub find_extension-none_iff : (find_extension es oid ≡ ok none) ↔ IsAbsent oid es
  unfolding find_extension
  find_extension-none_iff = (
    (λ h. none_kept (has_oid oid) es (absent_lem (keep (has_oid oid) es) h)),
    λ h. ap at_most_one (keep_none (has_oid oid) es h),
  )

  pub find_extension-some_iff :
      (e : Extension) → (find_extension es oid ≡ ok (some e)) ↔ IsOnly oid e es
  unfolding find_extension
  find_extension-some_iff e = (
    (λ h. only_kept (has_oid oid) es e (only_lem (keep (has_oid oid) es) e h)),
    λ (before, after, split, found, nb, na).
        ap (λ (t : List Extension). at_most_one (keep (has_oid oid) t)) split
        ∙ ap at_most_one (keep_only (has_oid oid) before e after found nb na),
  )
