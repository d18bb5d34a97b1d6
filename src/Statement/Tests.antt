-- ===== src/Statement/Tests.antt =====
-- Runs of src/statement.rs, and its theorems at concrete inputs.
use attestation_verify.Prelude.{◌≤◌, ◌≡◌, ◌↔◌, refl, [], ◌∷◌, some, none, Result, ok, length}
use attestation_verify.Prelude.Text.{Text, codes}
use attestation_verify.StrictJson.Tree.{Value, null}
use attestation_verify.StrictJson.Accepts.{value_of}
use attestation_verify.StrictJson.Accepts.Decides.{IsReadFrom}
use attestation_verify.Limits.{max_input_bytes, max_statement_subjects}
use attestation_verify.Samples.{toy_crates, toy_reader, zeros_32}
use attestation_verify.Subject.{Subject}
use attestation_verify.Statement.{
  RawStatement, StatementSubject, Statement, expected_statement_type, from_payload, find_subject,
}
use attestation_verify.Statement.Found.{IsResult, find_subject_iff, from_payload_bounds}

abbrev raw : RawStatement
raw = record {
  type_ = expected_statement_type;
  subject =
      record { name = none; digest = (codes "sha512", []) ∷ [] }
      ∷ record { name = some (b'a' ∷ []); digest = (codes "sha256", zeros_32) ∷ [] }
      ∷ [];
  predicate_type = [];
  predicate = null;
}

abbrev statement_of : Value → Result RawStatement Text
statement_of v = ok raw

abbrev artifact : Subject
artifact = record { bytes = zeros_32 }

abbrev statement : Statement
statement = record {
  subjects =
      record { name = none; sha256 = none }
      ∷ record { name = some (b'a' ∷ []); sha256 = some artifact }
      ∷ [];
  predicate_type = [];
  predicate = null;
}

parsed : from_payload toy_crates toy_reader statement_of [] ≡ ok statement
unfolding from_payload codes
parsed = refl

-- Two subjects have the digest, behind one without.
abbrev named : StatementSubject
named = record { name = some (b'a' ∷ []); sha256 = some artifact }

abbrev twice : Statement
twice = record {
  subjects =
      record { name = none; sha256 = none }
      ∷ named
      ∷ record { name = none; sha256 = some artifact }
      ∷ [];
  predicate_type = [];
  predicate = null;
}

find_subject_iff_example :
    (find_subject twice artifact ≡ some named) ↔ IsResult artifact twice.subjects (some named)
find_subject_iff_example = find_subject_iff twice artifact (some named)

found_first : find_subject twice artifact ≡ some named
unfolding find_subject
found_first = refl

from_payload_bounds_example :
    (0 ≤ max_input_bytes)
    × (2 ≤ max_statement_subjects)
    × (raw : RawStatement) × (statement_of (value_of (toy_reader.source [])) ≡ ok raw)
    × IsReadFrom toy_reader []
    × (raw.type_ ≡ expected_statement_type)
    × (2 ≡ length raw.subject)
    × (statement.predicate_type ≡ raw.predicate_type)
from_payload_bounds_example =
    from_payload_bounds toy_crates toy_reader statement_of [] statement parsed
