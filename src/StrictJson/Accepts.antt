-- ===== src/StrictJson/Accepts.antt =====
-- Which documents are accepted: those that are well formed, whose objects repeat no key, and that
-- have no more nodes than the limit.
pub mod Sound
pub mod Decides
use attestation_verify.Prelude.{
  ℕ, zero, suc, ◌+◌, ◌≤◌, ◌<◌, ◌≡◌, ◌≢◌, refl, sym, ap, ap₂, ◌∙◌, subst, Bool, true, false, not,
  ◌||◌, Bool-cases, ◌⊎◌, inl, inr, ◌↔◌, Result, ok, err, arith, ltb, if◌then◌else◌, false≢true,
}
use attestation_verify.Prelude.Text.{Bytes, Text, str_eq}
use attestation_verify.Prelude.Text.Laws.{str_eq→eq, eq→str_eq}
use attestation_verify.Limits.{max_json_nodes}
use attestation_verify.Errors.{Error, resource_limit, too_many_json_nodes}
use attestation_verify.StrictJson.Tree.{
  Number, from_i64, from_u64, from_f64, Source, visits_bool, visits_i64, visits_u64, visits_f64,
  visits_str, visits_unit, visits_none, visits_some, visits_seq, visits_map, fails, Items,
  last_item, item, no_item, Fields, last_field, field, no_field, Value, null, bool, number, string,
  array, object, Values, nil, cons, Members, no_member, member,
}
use attestation_verify.StrictJson.{
  Visit, after, charge, budget_message, is_finite, contains_key, insert, visit, visit_items,
  visit_fields, JsonReader, finish, parse_strict, float_value, visit_error,
}

-- The number of values in a document: its nodes.
unfoldable mutual
  pub size : Source → ℕ
  size (visits_some s) = size s
  size (visits_seq items) = suc (size_items items)
  size (visits_map fields) = suc (size_fields fields)
  size (fails e) = 0
  size _ = 1

  pub size_items : Items → ℕ
  size_items (item s rest) = size s + size_items rest
  size_items _ = 0

  pub size_fields : Fields → ℕ
  size_fields (field key s rest) = size s + size_fields rest
  size_fields _ = 0

-- The value of a document.
unfoldable mutual
  pub value_of : Source → Value
  value_of (visits_bool v) = bool v
  value_of (visits_i64 v) = number (from_i64 v)
  value_of (visits_u64 v) = number (from_u64 v)
  value_of (visits_f64 bits) = number (from_f64 bits)
  value_of (visits_str v) = string v
  value_of visits_unit = null
  value_of visits_none = null
  value_of (visits_some s) = value_of s
  value_of (visits_seq items) = array (values_of items)
  value_of (visits_map fields) = object (members_of fields)
  value_of (fails e) = null

  pub values_of : Items → Values
  values_of (item s rest) = cons (value_of s) (values_of rest)
  values_of _ = nil

  pub members_of : Fields → Members
  members_of (field key s rest) = member key (value_of s) (members_of rest)
  members_of _ = no_member

-- The key is none of the fields'.
abbrev pub IsNew : Text → Fields → Type 0
IsNew key (field k s rest) = (key ≢ k) × IsNew key rest
IsNew key last_field = Unit
IsNew key (no_field e) = Unit

-- No part is an error, no float is infinite, and the keys of an object differ from one another.
unfoldable mutual
  pub IsStrict : Source → Type 0
  IsStrict (visits_f64 bits) = is_finite bits ≡ true
  IsStrict (visits_some s) = IsStrict s
  IsStrict (visits_seq items) = AreStrict items
  IsStrict (visits_map fields) = HaveNewKeys fields
  IsStrict (fails e) = ⊥
  IsStrict _ = Unit

  pub AreStrict : Items → Type 0
  AreStrict last_item = Unit
  AreStrict (item s rest) = IsStrict s × AreStrict rest
  AreStrict (no_item e) = ⊥

  pub HaveNewKeys : Fields → Type 0
  HaveNewKeys last_field = Unit
  HaveNewKeys (field key s rest) = IsNew key rest × IsStrict s × HaveNewKeys rest
  HaveNewKeys (no_field e) = ⊥

append_members : Members → Members → Members
append_members no_member ms = ms
append_members (member k v rest) ms = member k v (append_members rest ms)

append_members-insert :
    (out : Members) (k : Text) (v : Value) (ms : Members)
    → append_members (insert out k v) ms ≡ append_members out (member k v ms)
unfolding append_members insert
append_members-insert no_member k v ms = refl
append_members-insert (member j w rest) k v ms = ap (member j w) (append_members-insert rest k v ms)

append_members-nil : (out : Members) → append_members out no_member ≡ out
unfolding append_members
append_members-nil no_member = refl
append_members-nil (member k v rest) = ap (member k v) (append_members-nil rest)

ne→str_eq : (a b : Text) → a ≢ b → str_eq a b ≡ false
ne→str_eq a b h = elim (Bool-cases (str_eq a b)) [
  | inl same ↦ absurd (h (str_eq→eq a b same))
  | inr other ↦ other
]

str_eq→ne : (a b : Text) → str_eq a b ≡ false → a ≢ b
str_eq→ne a b h e = false≢true (sym h ∙ eq→str_eq a b e)

-- A key is in a map after an insertion if it was there, or is the one that was inserted.
contains_key-insert_away :
    (out : Members) (k : Text) (v : Value) (key : Text)
    → contains_key out key ≡ false
    → k ≢ key
    → contains_key (insert out k v) key ≡ false
unfolding contains_key insert
contains_key-insert_away no_member k v key h ne = rw (ne→str_eq k key ne, contains_key) refl
contains_key-insert_away (member j w rest) k v key h ne = elim (Bool-cases (str_eq j key)) [
  | inl here ↦ absurd (cc (rw (here, contains_key) at h))
  | inr away ↦
      rw (away, contains_key)
        (contains_key-insert_away rest k v key (rw (away, contains_key) at h) ne)
]

contains_key-insert_apart :
    (out : Members) (k : Text) (v : Value) (key : Text)
    → contains_key (insert out k v) key ≡ false
    → (contains_key out key ≡ false) × (k ≢ key)
unfolding contains_key insert
contains_key-insert_apart no_member k v key h = elim (Bool-cases (str_eq k key)) [
  | inl here ↦ absurd (cc (rw (here, contains_key) at h))
  | inr away ↦ (refl, str_eq→ne k key away)
]
contains_key-insert_apart (member j w rest) k v key h = elim (Bool-cases (str_eq j key)) [
  | inl here ↦ absurd (cc (rw (here, contains_key) at h))
  | inr away ↦
      let (gone, ne) = contains_key-insert_apart rest k v key (rw (away, contains_key) at h) in
      (rw (away, contains_key) gone, ne)
]

-- No key of the fields is in the map.
abbrev Apart : Members → Fields → Type 0
Apart out (field key s rest) = (contains_key out key ≡ false) × Apart out rest
Apart out last_field = Unit
Apart out (no_field e) = Unit

Apart-insert :
    (out : Members) (k : Text) (v : Value) (fs : Fields)
    → Apart out fs
    → IsNew k fs
    → Apart (insert out k v) fs
Apart-insert out k v last_field a n = tt
Apart-insert out k v (no_field e) a n = tt
Apart-insert out k v (field key s rest) (away, a) (ne, n) =
    (contains_key-insert_away out k v key away ne, Apart-insert out k v rest a n)

insert-Apart :
    (out : Members) (k : Text) (v : Value) (fs : Fields)
    → Apart (insert out k v) fs
    → Apart out fs × IsNew k fs
insert-Apart out k v last_field a = (tt, tt)
insert-Apart out k v (no_field e) a = (tt, tt)
insert-Apart out k v (field key s rest) (away, a) =
    let (gone, ne) = contains_key-insert_apart out k v key away in
    let (apart, new) = insert-Apart out k v rest a in ((gone, apart), (ne, new))

Apart-no_member : (fs : Fields) → Apart no_member fs
unfolding contains_key
Apart-no_member last_field = tt
Apart-no_member (no_field e) = tt
Apart-no_member (field key s rest) = (refl, Apart-no_member rest)
