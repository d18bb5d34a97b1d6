-- ===== src/Statement.antt =====
-- src/statement.rs: the in-toto statement. What serde derives for
-- the raw shape is a parameter.
pub mod Found
mod Tests
use attestation_verify.Prelude.{
  ℕ, suc, Bool, true, false, not, Option, some, none, List, [], ◌∷◌, ◌++◌, is_empty, find_first,
  Result, ok, err, ◌>>=◌, ◌>>◌, map_err, if◌then◌else◌, is_some, String,
}
use attestation_verify.Prelude.Text.{Bytes, Text, codes, str_eq}
use attestation_verify.Prelude.Decimal.{to_string}
use attestation_verify.Limits.{max_statement_subjects}
use attestation_verify.Errors.{
  Error, parse, malformed_subject, unsupported, statement_type, too_many_subjects, from_limit,
}
use attestation_verify.StrictJson.Tree.{Value}
use attestation_verify.StrictJson.{JsonReader, read_strict}
use attestation_verify.Crates.{Crates}
use attestation_verify.ParseUtil.{check_input_size, check_count}
use attestation_verify.Subject.{Subject, from_digest_hex}

abbrev pub expected_statement_type : Text
expected_statement_type = codes "https://in-toto.io/Statement/v1"

-- The digest map, by key.
pub record RawStatementSubject : Type 0 where
  pub name : Option Text
  pub digest : List (Text × Text)

pub record RawStatement : Type 0 where
  pub type_ : Text
  pub subject : List RawStatementSubject
  pub predicate_type : Text
  pub predicate : Value

pub record StatementSubject : Type 0 where
  pub name : Option Text
  pub sha256 : Option Subject

pub record Statement : Type 0 where
  pub subjects : List StatementSubject
  pub predicate_type : Text
  pub predicate : Value

-- `digest.get(key)`
unfoldable pub get : List (Text × Text) → Text → Option Text
unfolding str_eq
get [] key = none
get ((k, v) ∷ digest) key = elim (str_eq k key) [ true ↦ some v | false ↦ get digest key ]

abbrev pub bad_subject : ℕ → Text → Error
bad_subject index reason =
    parse (malformed_subject (codes "subject[" ++ (to_string index ++ reason)))

module _ (crates : Crates) where
  abbrev pub optional_digest : ℕ → Option Text → Result (Option Subject) Error
  optional_digest index none = ok none
  optional_digest index (some hex) =
      map_err (from_digest_hex crates hex)
        (λ (e : Error). bad_subject index (codes "] has a malformed sha256 digest"))
      >>= λ subject. ok (some subject)

  unfoldable pub subject_from_raw : ℕ → RawStatementSubject → Result StatementSubject Error
  unfolding get
  subject_from_raw index raw = do
    if is_empty raw.digest
        then err (bad_subject index (codes "] has an empty digest map"))
        else ok tt
    sha256 ← optional_digest index (get raw.digest (codes "sha256"))
    ok (record { name = raw.name; sha256 = sha256 })

  -- `.enumerate().map(…).collect()`
  unfoldable pub subjects_from_raw :
      ℕ → List RawStatementSubject → Result (List StatementSubject) Error
  unfolding subject_from_raw
  subjects_from_raw index [] = ok []
  subjects_from_raw index (raw ∷ rest) =
      subject_from_raw index raw >>= λ s. subjects_from_raw (suc index) rest >>= λ ss. ok (s ∷ ss)

  unfoldable pub statement_from_raw : RawStatement → Result Statement Error
  unfolding str_eq subjects_from_raw
  statement_from_raw raw = do
    if not (str_eq raw.type_ expected_statement_type)
        then err (unsupported (statement_type raw.type_))
        else ok tt
    from_limit (check_count raw.subject max_statement_subjects too_many_subjects)
    subjects ← subjects_from_raw 0 raw.subject
    ok (record {
      subjects = subjects;
      predicate_type = raw.predicate_type;
      predicate = raw.predicate;
    })

  unfoldable pub from_payload :
      JsonReader → (Value → Result RawStatement Text) → Bytes → Result Statement Error
  unfolding read_strict statement_from_raw
  from_payload reader statement_of bytes = do
    from_limit (check_input_size bytes)
    raw ← read_strict reader statement_of bytes
    statement_from_raw raw

-- `s.sha256.as_ref() == Some(subject)`
abbrev pub has_digest : Option Subject → Subject → Bool
has_digest none subject = false
has_digest (some s) subject = str_eq s.bytes subject.bytes

unfoldable pub find_subject : Statement → Subject → Option StatementSubject
unfolding find_first str_eq
find_subject statement subject =
    find_first (λ (s : StatementSubject). has_digest s.sha256 subject) statement.subjects

abbrev pub contains_subject : Statement → Subject → Bool
contains_subject statement subject = is_some (find_subject statement subject)
