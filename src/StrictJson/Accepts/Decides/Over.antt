-- ===== src/StrictJson/Accepts/Decides/Over.antt =====
-- A document that is over the limit, and has no other defect, is refused for its size.
use attestation_verify.Prelude.{
  ℕ, suc, ◌+◌, ◌≤◌, ◌<◌, ◌≡◌, refl, Bool-cases, inl, inr, Result, err, arith, leb,
}
use attestation_verify.Prelude.Text.{Bytes, Text}
use attestation_verify.Limits.{max_json_nodes}
use attestation_verify.Errors.{resource_limit, too_many_json_nodes}
use attestation_verify.StrictJson.Tree.{
  Source, visits_bool, visits_i64, visits_u64, visits_f64, visits_str, visits_unit, visits_none,
  visits_some, visits_seq, visits_map, fails, Items, last_item, item, no_item, Fields, last_field,
  field, no_field, Members, no_member,
}
use attestation_verify.StrictJson.{
  charge, budget_message, insert, visit, visit_items, visit_fields, JsonReader, parse_strict,
}
use attestation_verify.StrictJson.Accepts.{
  size, size_items, size_fields, value_of, IsStrict, AreStrict, HaveNewKeys, Apart, Apart-insert,
  Apart-no_member,
}
use attestation_verify.StrictJson.Accepts.Decides.{visit_complete, charge_ok}

-- The budget is spent: an error, and a count of one above the limit.
abbrev IsOver : {A : Type 0} → Result A Text × ℕ → Type 0
IsOver p = p ≡ (err budget_message, suc max_json_nodes)

charge-IsOver : (n : ℕ) → n ≡ max_json_nodes → IsOver (charge n)
unfolding charge
charge-IsOver n e = rw e refl

mutual
  unfolding visit size IsStrict

  visit-IsOver :
      (s : Source) (n : ℕ)
      → IsStrict s
      → n ≤ max_json_nodes
      → max_json_nodes < n + size s
      → IsOver (visit s n)
  visit-IsOver (visits_bool b) n h fits over = rw (charge-IsOver n (omega arith)) refl
  visit-IsOver (visits_i64 x) n h fits over = rw (charge-IsOver n (omega arith)) refl
  visit-IsOver (visits_u64 x) n h fits over = rw (charge-IsOver n (omega arith)) refl
  visit-IsOver (visits_f64 bits) n h fits over = rw (charge-IsOver n (omega arith)) refl
  visit-IsOver (visits_str x) n h fits over = rw (charge-IsOver n (omega arith)) refl
  visit-IsOver visits_unit n h fits over = rw (charge-IsOver n (omega arith)) refl
  visit-IsOver visits_none n h fits over = rw (charge-IsOver n (omega arith)) refl
  visit-IsOver (visits_some s) n h fits over = visit-IsOver s n h fits over
  visit-IsOver (fails x) n h fits over = absurd h
  visit-IsOver (visits_seq items) n h fits over = elim (Bool-cases (leb (n + 1) max_json_nodes)) [
    | inl more ↦
        rw
          (
            charge_ok n (n + 1) refl (ground arith),
            visit_items-IsOver items (n + 1) h (ground arith) (omega arith),
          )
          refl
    | inr full ↦ rw (charge-IsOver n (ground arith)) refl
  ]
  visit-IsOver (visits_map fields) n h fits over = elim (Bool-cases (leb (n + 1) max_json_nodes)) [
    | inl more ↦
        rw
          (
            charge_ok n (n + 1) refl (ground arith),
            visit_fields-IsOver fields no_member (n + 1) (Apart-no_member fields) h (ground arith)
                (omega arith),
          )
          refl
    | inr full ↦ rw (charge-IsOver n (ground arith)) refl
  ]

  visit_items-IsOver :
      (items : Items) (n : ℕ)
      → AreStrict items
      → n ≤ max_json_nodes
      → max_json_nodes < n + size_items items
      → IsOver (visit_items items n)
  visit_items-IsOver last_item n h fits over = absurd (omega (arith, fits, over))
  visit_items-IsOver (no_item x) n h fits over = absurd h
  visit_items-IsOver (item s rest) n (strict, all) fits over =
      elim (Bool-cases (leb (n + size s) max_json_nodes)) [
        | inl more ↦
            rw
              (
                visit_complete s n (n + size s) strict refl (ground arith),
                visit_items-IsOver rest (n + size s) all (ground arith) (omega arith),
              )
              refl
        | inr full ↦ rw (visit-IsOver s n strict fits (ground arith)) refl
      ]

  visit_fields-IsOver :
      (fields : Fields) (out : Members) (n : ℕ)
      → Apart out fields
      → HaveNewKeys fields
      → n ≤ max_json_nodes
      → max_json_nodes < n + size_fields fields
      → IsOver (visit_fields fields out n)
  visit_fields-IsOver last_field out n apart h fits over = absurd (omega (arith, fits, over))
  visit_fields-IsOver (no_field x) out n apart h fits over = absurd h
  visit_fields-IsOver (field key s rest) out n (away, apart) (new, strict, keys) fits over =
      elim (Bool-cases (leb (n + size s) max_json_nodes)) [
        | inl more ↦
            rw (away, visit_complete s n (n + size s) strict refl (ground arith))
              (visit_fields-IsOver rest (insert out key (value_of s)) (n + size s)
                (Apart-insert out key (value_of s) rest apart new) keys (ground arith)
                (omega arith))
        | inr full ↦ rw (away, visit-IsOver s n strict fits (ground arith)) refl
      ]

-- A document without other defects that has more than 262144 nodes is refused with the error for
-- that limit, and not with a parse error.
pub parse_strict_over :
    (reader : JsonReader) (bytes : Bytes)
    → IsStrict (reader.source bytes)
    → max_json_nodes < size (reader.source bytes)
    → parse_strict reader bytes ≡ err (resource_limit (too_many_json_nodes max_json_nodes))
unfolding parse_strict
parse_strict_over reader bytes strict large =
    rw (visit-IsOver (reader.source bytes) 0 strict (omega arith) (omega arith)) refl
