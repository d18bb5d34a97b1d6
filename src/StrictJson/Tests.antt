-- ===== src/StrictJson/Tests.antt =====
-- The unit tests of src/strict_json.rs, on what serde_json hands over, and the theorems at them.
use attestation_verify.Prelude.{ℕ, zero, suc, ◌≡◌, ◌≤◌, ◌<◌, refl, true, ok, err, [], ◌∷◌, arith}
use attestation_verify.Prelude.Text.{Text, codes}
use attestation_verify.Limits.{max_json_nodes}
use attestation_verify.Errors.{resource_limit, too_many_json_nodes}
use attestation_verify.StrictJson.Tree.{
  from_u64, Source, visits_bool, visits_u64, visits_f64, visits_seq, visits_map, Items, last_item,
  item, last_field, field, no_field, Value, bool, number, array, object, nil, cons, no_member,
  member,
}
use attestation_verify.StrictJson.{JsonReader, parse_strict, parse_error, duplicate_message}
use attestation_verify.StrictJson.Accepts.{size, size_items, value_of, IsStrict, AreStrict}
use attestation_verify.StrictJson.Accepts.Decides.{parse_strict_iff}
use attestation_verify.StrictJson.Accepts.Decides.Over.{parse_strict_over}

abbrev a : Text
a = b'a' ∷ []

abbrev b : Text
b = b'b' ∷ []

-- A document of one source, whatever the bytes, with nothing behind it.
abbrev reader : Source → JsonReader
reader s = record { source = λ bytes. s; end = λ bytes. ok tt }

-- {"a":1,"b":[1,{"a":true}]}
abbrev document : Source
document = visits_map (
    field a (visits_u64 1) (
      field b
        (visits_seq (
          item (visits_u64 1)
            (item (visits_map (field a (visits_bool true) last_field)) last_item)))
        last_field))

abbrev document_value : Value
document_value = object (
    member a (number (from_u64 1)) (
      member b
        (array (cons (number (from_u64 1)) (cons (object (member a (bool true) no_member)) nil)))
        no_member))

accepts_well_formed_json : parse_strict (reader document) [] ≡ ok document_value
unfolding parse_strict
accepts_well_formed_json = refl

-- {"a":[{"b":1,"b":2}]}
rejects_duplicate_key_inside_array_element :
    parse_strict
      (reader (
        visits_map (
          field a
            (visits_seq (
              item
                (visits_map (field b (visits_u64 1) (field b (visits_u64 2) last_field)))
                last_item))
            last_field)))
      []
    ≡ err (parse_error (duplicate_message b))
unfolding parse_strict
rejects_duplicate_key_inside_array_element = refl

rejects_trailing_garbage :
    parse_strict (record { source = λ bytes. document; end = λ bytes. err a }) []
    ≡ err (parse_error a)
unfolding parse_strict
rejects_trailing_garbage = refl

-- {"a":
rejects_truncated_json : parse_strict (reader (visits_map (no_field a))) [] ≡ err (parse_error a)
unfolding parse_strict
rejects_truncated_json = refl

-- The bits of an infinite float.
rejects_infinity :
    parse_strict (reader (visits_f64 0x7FF0000000000000)) []
    ≡ err (parse_error (codes "JSON number is not finite"))
unfolding parse_strict
rejects_infinity = refl

parse_strict_iff_example :
    IsStrict document
    × (size document ≤ max_json_nodes)
    × ((reader document).end [] ≡ ok tt)
    × (document_value ≡ value_of document)
parse_strict_iff_example =
    (parse_strict_iff (reader document) [] document_value).0 accepts_well_formed_json

-- [0,0,...]
zero_array : ℕ → Items
zero_array zero = last_item
zero_array (suc n) = item (visits_u64 0) (zero_array n)

zero_array-AreStrict : (n : ℕ) → AreStrict (zero_array n)
unfolding zero_array IsStrict
zero_array-AreStrict zero = tt
zero_array-AreStrict (suc n) = (tt, zero_array-AreStrict n)

size_items-zero_array : (n : ℕ) → size_items (zero_array n) ≡ n
unfolding zero_array size
size_items-zero_array zero = refl
size_items-zero_array (suc n) = omega (arith, size_items-zero_array n)

abbrev large : Source
large = visits_seq (zero_array max_json_nodes)

large-IsStrict : IsStrict large
unfolding IsStrict
large-IsStrict = zero_array-AreStrict max_json_nodes

size-large : max_json_nodes < size large
unfolding size
size-large = omega (arith, size_items-zero_array max_json_nodes)

parse_strict_over_example :
    parse_strict (reader large) [] ≡ err (resource_limit (too_many_json_nodes max_json_nodes))
parse_strict_over_example = parse_strict_over (reader large) [] large-IsStrict size-large
