-- ===== src/StrictJson.antt =====
-- src/strict_json.rs: strict JSON. The deserializer of serde_json is a parameter: it gives what it
-- hands to a visitor, a tree of visits, in which an error of its own may stand at any place.
pub mod Tree
pub mod Accepts
mod Tests
use attestation_verify.Prelude.{
  ℕ, ◌+◌, ◌-◌, ◌/◌, ◌%◌, ◌^◌, Bool, true, false, not, ◌==◌, ltb, ◌++◌, Result, ok, err, map_err,
  if◌then◌else◌, String,
}
use attestation_verify.Prelude.Int.{ℤ}
use attestation_verify.Prelude.Decimal.{to_string}
use attestation_verify.Prelude.Text.{Bytes, Text, codes, str_eq}
use attestation_verify.Limits.{max_json_nodes}
use attestation_verify.Errors.{Error, parse, json, resource_limit, too_many_json_nodes, from_parse}
use attestation_verify.StrictJson.Tree.{
  Number, from_i64, from_u64, from_f64, Source, visits_bool, visits_i64, visits_u64, visits_f64,
  visits_str, visits_unit, visits_none, visits_some, visits_seq, visits_map, fails, Items,
  last_item, item, no_item, Fields, last_field, field, no_field, Value, null, bool, number, string,
  array, object, Values, nil, cons, Members, no_member, member,
}

-- The visitor's methods return the count of nodes as well, which is shared by all of them and which
-- an error leaves as it is.
abbrev pub Visit : Type 0 → Type 0
Visit A = ℕ → Result A Text × ℕ

infixl 5 ◌>>=◌ ◌>>◌
abbrev pub after : {A B : Type 0} → Result A Text × ℕ → (A → Visit B) → Result B Text × ℕ
after (ok a, n) f = f a n
after (err e, n) f = (err e, n)

abbrev pub ◌>>=◌ : {A B : Type 0} → Visit A → (A → Visit B) → Visit B
◌>>=◌ m f n = after (m n) f

abbrev pub ◌>>◌ : {B : Type 0} → Visit (Unit {0}) → Visit B → Visit B
m >> k = m >>= λ _. k

abbrev pub pure : {A : Type 0} → A → Visit A
pure a n = (ok a, n)

abbrev pub raise : {A : Type 0} → Text → Visit A
raise e n = (err e, n)

abbrev pub budget_message : Text
budget_message =
    codes "JSON document exceeds the limit of "
    ++ (to_string max_json_nodes ++ codes " value nodes")

-- The count stops one above the limit, far from where `saturating_add` would matter.
unfoldable pub charge : Visit (Unit {0})
charge n = if ltb max_json_nodes (n + 1) then (err budget_message, n + 1) else (ok tt, n + 1)

-- A 64-bit float, by its bits, is finite if not all bits of its exponent are set.
abbrev pub is_finite : ℕ → Bool
is_finite bits = not ((bits / 2 ^ 52) % 2 ^ 11 == 2 ^ 11 - 1)

-- `serde_json::Map` as the list of its members in the order in which they were inserted; the code
-- reads it by key.
unfoldable pub contains_key : Members → Text → Bool
unfolding str_eq
contains_key no_member key = false
contains_key (member k v rest) key = elim (str_eq k key) [
  | true ↦ true
  | false ↦ contains_key rest key
]

unfoldable pub insert : Members → Text → Value → Members
insert no_member key value = member key value no_member
insert (member k v rest) key value = member k v (insert rest key value)

abbrev pub duplicate_message : Text → Text
duplicate_message key = codes "duplicate JSON object key `" ++ (key ++ codes "`")

abbrev pub float_value : ℕ → Visit Value
float_value bits =
    if is_finite bits
    then pure (number (from_f64 bits))
    else raise (codes "JSON number is not finite")

unfoldable mutual
  unfolding charge contains_key insert

  -- `deserialize_any` with the visitor: the method that the deserializer calls.
  pub visit : Source → Visit Value
  visit (visits_bool v) = charge >> pure (bool v)
  visit (visits_i64 v) = charge >> pure (number (from_i64 v))
  visit (visits_u64 v) = charge >> pure (number (from_u64 v))
  visit (visits_f64 bits) = charge >> float_value bits
  visit (visits_str v) = charge >> pure (string v)
  visit visits_unit = charge >> pure null
  visit visits_none = charge >> pure null
  visit (visits_some s) = visit s
  visit (visits_seq items) = charge >> (visit_items items >>= λ out. pure (array out))
  visit (visits_map fields) = charge >> (visit_fields fields no_member >>= λ out. pure (object out))
  visit (fails e) = raise e

  -- The loop of `visit_seq`.
  pub visit_items : Items → Visit Values
  visit_items last_item = pure nil
  visit_items (item s rest) = visit s >>= λ elem. visit_items rest >>= λ out. pure (cons elem out)
  visit_items (no_item e) = raise e

  -- The loop of `visit_map`.
  pub visit_fields : Fields → Members → Visit Members
  visit_fields last_field out = pure out
  visit_fields (field key s rest) out =
      if contains_key out key
      then raise (duplicate_message key)
      else (visit s >>= λ value. visit_fields rest (insert out key value))
  visit_fields (no_field e) out = raise e

-- serde_json's deserializer: what it hands to a visitor, and its check that nothing is left.
pub record JsonReader : Type 0 where
  pub source : Bytes → Source
  pub end : Bytes → Result (Unit {0}) Text

abbrev pub parse_error : Text → Error
parse_error e = parse (json e)

-- The error of a visit, by the count that it left.
abbrev pub visit_error : Text → ℕ → Error
visit_error e nodes =
    if ltb max_json_nodes nodes
    then resource_limit (too_many_json_nodes max_json_nodes)
    else parse_error e

abbrev pub finish : Result Value Text × ℕ → Result (Unit {0}) Text → Result Value Error
finish (err e, nodes) end = err (visit_error e nodes)
finish (ok value, nodes) (err e) = err (parse_error e)
finish (ok value, nodes) (ok u) = ok value

module _ (reader : JsonReader) where
  unfoldable pub parse_strict : Bytes → Result Value Error
  unfolding visit
  parse_strict bytes = finish (visit (reader.source bytes) 0) (reader.end bytes)

  -- `parse_strict(bytes)?`, and `serde_json::from_value(value)` with its error, where `from_value` is
  -- what serde derives for the type.
  unfoldable pub read_strict : {A : Type 0} → (Value → Result A Text) → Bytes → Result A Error
  unfolding parse_strict
  read_strict from_value bytes = elim (parse_strict bytes) [
    | ok value ↦ map_err (from_value value) parse_error
    | err e ↦ err e
  ]
