-- ===== src/StrictJson/Tree.antt =====
-- The trees of src/strict_json.rs: what a deserializer hands to a visitor, and the values.
use attestation_verify.Prelude.{ℕ, Bool}
use attestation_verify.Prelude.Int.{ℤ}
use attestation_verify.Prelude.Text.{Text}

-- A float stands by the 64 bits that it is stored in.
pub data Number : Type 0 where
  from_i64 : ℤ → Number
  from_u64 : ℕ → Number
  from_f64 : ℕ → Number

-- `fails`, `no_item` and `no_field` are errors of the deserializer, with their messages.
mutual
  pub data Source : Type 0 where
    visits_bool : Bool → Source
    visits_i64 : ℤ → Source
    visits_u64 : ℕ → Source
    visits_f64 : ℕ → Source
    visits_str : Text → Source
    visits_unit : Source
    visits_none : Source
    visits_some : Source → Source
    visits_seq : Items → Source
    visits_map : Fields → Source
    fails : Text → Source

  pub data Items : Type 0 where
    last_item : Items
    item : Source → Items → Items
    no_item : Text → Items

  pub data Fields : Type 0 where
    last_field : Fields
    field : Text → Source → Fields → Fields
    no_field : Text → Fields

-- `serde_json::Value`
mutual
  pub data Value : Type 0 where
    null : Value
    bool : Bool → Value
    number : Number → Value
    string : Text → Value
    array : Values → Value
    object : Members → Value

  pub data Values : Type 0 where
    nil : Values
    cons : Value → Values → Values

  pub data Members : Type 0 where
    no_member : Members
    member : Text → Value → Members → Members
