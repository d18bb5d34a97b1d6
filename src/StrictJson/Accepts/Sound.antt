-- ===== src/StrictJson/Accepts/Sound.antt =====
-- What a visit that returns a value saw.
use attestation_verify.Prelude.{
  ℕ, ◌+◌, ◌≤◌, ◌≡◌, refl, sym, ap, ap₂, ◌∙◌, subst, true, Bool-cases, inl, inr, Result, ok, err,
  arith, ltb,
}
use attestation_verify.Prelude.Text.{Text}
use attestation_verify.Limits.{max_json_nodes}
use attestation_verify.StrictJson.Tree.{
  from_f64, Source, visits_bool, visits_i64, visits_u64, visits_f64, visits_str, visits_unit,
  visits_none, visits_some, visits_seq, visits_map, fails, Items, last_item, item, no_item, Fields,
  last_field, field, no_field, Value, number, array, object, Values, cons, Members, no_member,
  member,
}
use attestation_verify.StrictJson.{
  Visit, after, pure, charge, is_finite, contains_key, insert, visit, visit_items, visit_fields,
  float_value,
}
use attestation_verify.StrictJson.Accepts.{
  size, size_items, size_fields, value_of, values_of, members_of, IsStrict, AreStrict, HaveNewKeys,
  append_members, append_members-insert, append_members-nil, Apart, insert-Apart,
}

-- The value and the count of a visit that went well.
pair_inj :
    {A : Type 0} {a b : A} {n m : ℕ}
    → ◌≡◌ {A = Result A Text × ℕ} (ok a, n) (ok b, m)
    → (a ≡ b) × (n ≡ m)
pair_inj e = (cc (ap (λ (p : Result _ Text × ℕ). p.0) e), ap (λ (p : Result _ Text × ℕ). p.1) e)

went_on {κ} :
    {A B : Type 0} {C : Type κ} (p : Result A Text × ℕ) (f : A → Visit B) {b : B} {m : ℕ}
    → after p f ≡ (ok b, m)
    → ((a : A) (k : ℕ) → p ≡ (ok a, k) → f a k ≡ (ok b, m) → C)
    → C
went_on (ok a, n) f e next = next a n refl e
went_on (err x, n) f e next = absurd (cc (ap (λ (p : Result _ Text × ℕ). p.0) e))

charge_sound : (n k : ℕ) → charge n ≡ (ok tt, k) → (k ≡ n + 1) × (k ≤ max_json_nodes)
unfolding charge
charge_sound n k e = elim (Bool-cases (ltb max_json_nodes (n + 1))) [
  | inl over ↦ absurd (cc (ap (λ (p : Result (Unit {0}) Text × ℕ). p.0) (rw over at e)))
  | inr fits ↦
      let count : n + 1 ≡ k = ap (λ (p : Result (Unit {0}) Text × ℕ). p.1) (rw fits at e) in
      (sym count, ground arith)
]

pub charge_ok : (n m : ℕ) → n + 1 ≡ m → m ≤ max_json_nodes → charge n ≡ (ok tt, m)
unfolding charge
charge_ok n m e h = ground arith

-- What a visit that went well has shown.
abbrev Shows : Type 0 → ℕ → ℕ → ℕ → Type 0
Shows P n m size = P × (m ≡ n + size) × (n ≤ max_json_nodes → m ≤ max_json_nodes)

-- A scalar is charged, and is its value.
scalar_sound :
    (v w : Value) (n m : ℕ) → after (charge n) (λ _. pure w) ≡ (ok v, m) → Shows (v ≡ w) n m 1
scalar_sound v w n m e = went_on (charge n) _ e (λ u k charged e.
    let (count, fits) = charge_sound n k charged in
    let (same, counts) = pair_inj e in
    (sym same, omega (arith, count, counts), λ h. omega (arith, counts, fits)))

float_sound :
    (bits : ℕ) (v : Value) (n m : ℕ)
    → after (charge n) (λ _. float_value bits) ≡ (ok v, m)
    → Shows ((is_finite bits ≡ true) × (v ≡ number (from_f64 bits))) n m 1
float_sound bits v n m e = went_on (charge n) _ e (λ u k charged e.
    let (count, fits) = charge_sound n k charged in
    elim (Bool-cases (is_finite bits)) [
      | inl finite ↦
          let (same, counts) = pair_inj (rw finite at e) in
          ((finite, sym same), omega (arith, count, counts), λ h. omega (arith, counts, fits))
      | inr infinite ↦ absurd (cc (ap (λ (p : Result Value Text × ℕ). p.0) (rw infinite at e)))
    ])

-- The same with the part of `IsStrict` that a scalar has.
strict_scalar :
    (v w : Value) (n m : ℕ)
    → after (charge n) (λ _. pure w) ≡ (ok v, m)
    → Shows (Unit {0} × (v ≡ w)) n m 1
strict_scalar v w n m e =
    let (same, count, fits) = scalar_sound v w n m e in ((tt, same), count, fits)

mutual
  unfolding visit size value_of IsStrict append_members

  pub visit_sound :
      (s : Source) (v : Value) (n m : ℕ)
      → visit s n ≡ (ok v, m)
      → Shows (IsStrict s × (v ≡ value_of s)) n m (size s)
  visit_sound (visits_bool b) v n m e = strict_scalar v _ n m e
  visit_sound (visits_i64 x) v n m e = strict_scalar v _ n m e
  visit_sound (visits_u64 x) v n m e = strict_scalar v _ n m e
  visit_sound (visits_f64 bits) v n m e = float_sound bits v n m e
  visit_sound (visits_str x) v n m e = strict_scalar v _ n m e
  visit_sound visits_unit v n m e = strict_scalar v _ n m e
  visit_sound visits_none v n m e = strict_scalar v _ n m e
  visit_sound (visits_some s) v n m e = visit_sound s v n m e
  visit_sound (fails x) v n m e = absurd (cc (ap (λ (p : Result Value Text × ℕ). p.0) e))
  visit_sound (visits_seq items) v n m e = went_on (charge n) _ e (λ u k charged e.
      went_on (visit_items items k) _ e (λ out j visited e.
        let (count, fits) = charge_sound n k charged in
        let ((all, sames), counts, fit) = items_sound items out k j visited in
        let (whole, end) = pair_inj e in
        (
          (all, sym whole ∙ ap array sames),
          omega (arith, count, counts, end),
          λ h. subst (λ (t : ℕ). t ≤ max_json_nodes) end (fit fits),
        )))
  visit_sound (visits_map fields) v n m e = went_on (charge n) _ e (λ u k charged e.
      went_on (visit_fields fields no_member k) _ e (λ out j visited e.
        let (count, fits) = charge_sound n k charged in
        let ((apart, keys, sames), counts, fit) = fields_sound fields no_member out k j visited in
        let (whole, end) = pair_inj e in
        (
          (keys, sym whole ∙ ap object sames),
          omega (arith, count, counts, end),
          λ h. subst (λ (t : ℕ). t ≤ max_json_nodes) end (fit fits),
        )))

  items_sound :
      (items : Items) (vs : Values) (n m : ℕ)
      → visit_items items n ≡ (ok vs, m)
      → Shows (AreStrict items × (vs ≡ values_of items)) n m (size_items items)
  items_sound last_item vs n m e =
      let (same, counts) = pair_inj e in
      ((tt, sym same), omega (arith, counts), λ h. omega (arith, counts))
  items_sound (no_item x) vs n m e = absurd (cc (ap (λ (p : Result Values Text × ℕ). p.0) e))
  items_sound (item s rest) vs n m e = went_on (visit s n) _ e (λ v k one e.
      went_on (visit_items rest k) _ e (λ out j more e.
        let ((strict, same), count, fits) = visit_sound s v n k one in
        let ((all, sames), counts, fit) = items_sound rest out k j more in
        let (whole, end) = pair_inj e in
        (
          ((strict, all), sym whole ∙ ap₂ cons same sames),
          omega (arith, count, counts, end),
          λ h. subst (λ (t : ℕ). t ≤ max_json_nodes) end (fit (fits h)),
        )))

  fields_sound :
      (fields : Fields) (out ms : Members) (n m : ℕ)
      → visit_fields fields out n ≡ (ok ms, m)
      → Shows
          (Apart out fields × HaveNewKeys fields × (ms ≡ append_members out (members_of fields)))
          n
          m
          (size_fields fields)
  fields_sound last_field out ms n m e =
      let (same, counts) = pair_inj e in
      (
        (tt, tt, sym same ∙ sym (append_members-nil out)),
        omega (arith, counts),
        λ h. omega (arith, counts),
      )
  fields_sound (no_field x) out ms n m e = absurd (cc (ap (λ (p : Result Members Text × ℕ). p.0) e))
  fields_sound (field key s rest) out ms n m e = elim (Bool-cases (contains_key out key)) [
    | inl there ↦ absurd (cc (ap (λ (p : Result Members Text × ℕ). p.0) (rw there at e)))
    | inr away ↦ went_on (visit s n) _ (rw away at e) (λ v k one e.
        let ((strict, same), count, fits) = visit_sound s v n k one in
        let ((apart, keys, sames), counts, fit) = fields_sound rest (insert out key v) ms k m e in
        let (gone, new) = insert-Apart out key v rest apart in
        (
          (
            (away, gone),
            (new, strict, keys),
            sames
                ∙ append_members-insert out key v (members_of rest)
                ∙ ap (λ (t : Value). append_members out (member key t (members_of rest))) same,
          ),
          omega (arith, count, counts),
          λ h. fit (fits h),
        ))
  ]
