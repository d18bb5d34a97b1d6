-- ===== src/StrictJson/Accepts/Decides.antt =====
-- The visitor accepts the strict documents within the limit, and no others.
pub mod Over
use attestation_verify.Prelude.{
  ℕ, zero, suc, ◌+◌, ◌≤◌, ◌<◌, ◌≡◌, ◌≢◌, refl, sym, ap, ap₂, ◌∙◌, subst, Bool, true, false, not,
  Bool-cases, inl, inr, ◌↔◌, Result, ok, err, Result-cases, map_err-eq-ok, arith, ltb,
  if◌then◌else◌, lt→ltb, leb→le, ltb→lt,
}
use attestation_verify.Prelude.Text.{Bytes, Text}
use attestation_verify.Limits.{max_json_nodes}
use attestation_verify.Errors.{Error, resource_limit, too_many_json_nodes}
use attestation_verify.StrictJson.Tree.{
  Number, from_i64, from_u64, from_f64, Source, visits_bool, visits_i64, visits_u64, visits_f64,
  visits_str, visits_unit, visits_none, visits_some, visits_seq, visits_map, fails, Items,
  last_item, item, no_item, Fields, last_field, field, no_field, Value, null, bool, number, string,
  array, object, Values, nil, cons, Members, no_member, member,
}
use attestation_verify.StrictJson.{
  Visit, after, ◌>>=◌, pure, charge, budget_message, is_finite, contains_key, insert, visit,
  visit_items, visit_fields, JsonReader, finish, parse_strict, float_value, visit_error,
  read_strict, parse_error,
}
use attestation_verify.StrictJson.Accepts.{
  size, size_items, size_fields, value_of, values_of, members_of, IsNew, IsStrict, AreStrict,
  HaveNewKeys, append_members, append_members-insert, append_members-nil, Apart, Apart-insert,
  insert-Apart, Apart-no_member,
}
use attestation_verify.StrictJson.Accepts.Sound.{charge_ok, visit_sound}

mutual
  unfolding visit size value_of IsStrict append_members

  visit_complete :
      (s : Source) (n m : ℕ)
      → IsStrict s
      → n + size s ≡ m
      → m ≤ max_json_nodes
      → visit s n ≡ (ok (value_of s), m)
  visit_complete (visits_bool b) n m h c fits = rw (charge_ok n m c fits) refl
  visit_complete (visits_i64 x) n m h c fits = rw (charge_ok n m c fits) refl
  visit_complete (visits_u64 x) n m h c fits = rw (charge_ok n m c fits) refl
  visit_complete (visits_f64 bits) n m h c fits = rw (charge_ok n m c fits, h) refl
  visit_complete (visits_str x) n m h c fits = rw (charge_ok n m c fits) refl
  visit_complete visits_unit n m h c fits = rw (charge_ok n m c fits) refl
  visit_complete visits_none n m h c fits = rw (charge_ok n m c fits) refl
  visit_complete (visits_some s) n m h c fits = visit_complete s n m h c fits
  visit_complete (fails x) n m h c fits = absurd h
  visit_complete (visits_seq items) n m h c fits =
      rw
        (
          charge_ok n (n + 1) refl (omega (arith, c, fits)),
          items_complete items (n + 1) m h (omega (arith, c)) fits,
        )
        refl
  visit_complete (visits_map fields) n m h c fits =
      rw
        (
          charge_ok n (n + 1) refl (omega (arith, c, fits)),
          fields_complete fields no_member (n + 1) m (Apart-no_member fields) h (omega (arith, c))
              fits,
        )
        refl

  items_complete :
      (items : Items) (n m : ℕ)
      → AreStrict items
      → n + size_items items ≡ m
      → m ≤ max_json_nodes
      → visit_items items n ≡ (ok (values_of items), m)
  items_complete last_item n m h c fits = ap (λ (t : ℕ). (ok nil, t)) (omega (arith, c))
  items_complete (no_item x) n m h c fits = absurd h
  items_complete (item s rest) n m (strict, all) c fits =
      rw
        (
          visit_complete s n (n + size s) strict refl (omega (arith, c, fits)),
          items_complete rest (n + size s) m all (omega (arith, c)) fits,
        )
        refl

  fields_complete :
      (fields : Fields) (out : Members) (n m : ℕ)
      → Apart out fields
      → HaveNewKeys fields
      → n + size_fields fields ≡ m
      → m ≤ max_json_nodes
      → visit_fields fields out n ≡ (ok (append_members out (members_of fields)), m)
  fields_complete last_field out n m apart h c fits =
      ap₂ (λ (o : Members) (t : ℕ). (ok o, t)) (sym (append_members-nil out)) (omega (arith, c))
  fields_complete (no_field x) out n m apart h c fits = absurd h
  fields_complete (field key s rest) out n m (away, apart) (new, strict, keys) c fits =
      rw (away, visit_complete s n (n + size s) strict refl (omega (arith, c, fits)))
        (fields_complete rest (insert out key (value_of s)) (n + size s) m
            (Apart-insert out key (value_of s) rest apart new) keys (omega (arith, c)) fits
          ∙ ap (λ (o : Members). (ok o, m))
              (append_members-insert out key (value_of s) (members_of rest)))

module _ (reader : JsonReader) where
  finish_sound :
      (p : Result Value Text × ℕ) (end : Result (Unit {0}) Text) (v : Value)
      → finish p end ≡ ok v
      → (m : ℕ) × (p ≡ (ok v, m)) × (end ≡ ok tt)
  finish_sound (ok w, m) (ok u) v e = (m, cc e, refl)
  finish_sound (ok w, m) (err x) v e = absurd (cc e)
  finish_sound (err x, m) end v e = absurd (cc e)

  -- A document is accepted exactly when its keys differ in every object, its floats are finite,
  -- nothing in it is an error of the deserializer, nothing stands behind it, and it has at most
  -- 262144 nodes; the result is then its value.
  pub parse_strict_iff :
      (bytes : Bytes) (v : Value)
      → (parse_strict reader bytes ≡ ok v) ↔ (
          IsStrict (reader.source bytes)
          × (size (reader.source bytes) ≤ max_json_nodes)
          × (reader.end bytes ≡ ok tt)
          × (v ≡ value_of (reader.source bytes)))
  unfolding parse_strict
  parse_strict_iff bytes v = (
    (λ e.
        let (m, visited, end) =
          finish_sound (visit (reader.source bytes) 0) (reader.end bytes) v e in
        let ((strict, same), count, fits) = visit_sound (reader.source bytes) v 0 m visited in
        (strict, omega (arith, count, fits), end, same)),
    λ (strict, small, end, same).
        rw
          (
            visit_complete (reader.source bytes) 0 (size (reader.source bytes)) strict (omega arith)
                small,
            end,
            same,
          )
          refl,
  )

  -- A value that is read comes from a strict document within the limit.
  abbrev pub IsReadFrom : Bytes → Type 0
  IsReadFrom bytes =
      IsStrict (reader.source bytes)
      × (size (reader.source bytes) ≤ max_json_nodes)
      × (reader.end bytes ≡ ok tt)

  pub read_strict-IsReadFrom :
      {A : Type 0} (from_value : Value → Result A Text) (bytes : Bytes) (a : A)
      → read_strict reader from_value bytes ≡ ok a
      → IsReadFrom bytes × (from_value (value_of (reader.source bytes)) ≡ ok a)
  unfolding read_strict
  read_strict-IsReadFrom from_value bytes a e = elim (Result-cases (parse_strict reader bytes)) [
    | inl (v, parsed) ↦
        let (strict, small, end, same) = (parse_strict_iff bytes v).0 parsed in
        (
          (strict, small, end),
          subst (λ (t : Value). from_value t ≡ ok a) same
              (map_err-eq-ok (from_value v) parse_error (rw (parsed, read_strict) at e)),
        )
    | inr (bad, refused) ↦ absurd (cc (rw (refused, read_strict) at e))
  ]
