-- ===== src/Statement/Found.antt =====
-- Finding the artifact among a statement's subjects, and the bounds on a parsed statement.
use attestation_verify.Prelude.{
  unnegated, ℕ, suc, ◌≤◌, ◌≡◌, ◌↔◌, refl, sym, ap, ◌∙◌, subst, true, not, Option, some, none, List,
  [], ◌∷◌, length, find_first, find_first-eq-some, find_first-eq-none, find_first-append, All,
  All-map, ◌++◌, ◌≢◌, Bool-cases, inl, inr, false, Result, ok, ok_inj, passed, refused_not, arith,
  false≢true,
}
use attestation_verify.Prelude.Text.{Bytes, Text, str_eq}
use attestation_verify.Prelude.Text.Laws.{str_eq→eq, eq→str_eq}
use attestation_verify.Limits.{max_input_bytes, max_statement_subjects}
use attestation_verify.Errors.{from_limit, ResourceLimitError, too_many_subjects}
use attestation_verify.StrictJson.Tree.{Value}
use attestation_verify.StrictJson.{JsonReader, read_strict}
use attestation_verify.StrictJson.Accepts.{value_of}
use attestation_verify.StrictJson.Accepts.Decides.{IsReadFrom, read_strict-IsReadFrom}
use attestation_verify.Crates.{Crates}
use attestation_verify.ParseUtil.{check_input_size, check_count}
use attestation_verify.Subject.{Subject}
use attestation_verify.Statement.{
  RawStatement, RawStatementSubject, StatementSubject, Statement, expected_statement_type,
  subject_from_raw, subjects_from_raw, statement_from_raw, from_payload, has_digest, find_subject,
}

pub has_digest_iff :
    (o : Option Subject) (subject : Subject) → (has_digest o subject ≡ true) ↔ (o ≡ some subject)
has_digest_iff none subject = (λ h. absurd (false≢true h), λ h. absurd (cc h))
has_digest_iff (some s) subject = (
  (λ h. ap (λ (b : Bytes). some (record { bytes = b })) (str_eq→eq s.bytes subject.bytes h)),
  λ h. eq→str_eq s.bytes subject.bytes (ap bytes_of h),
)
  where
    bytes_of : Option Subject → Bytes
    bytes_of none = []
    bytes_of (some s) = s.bytes

not_away :
    (s : StatementSubject) (subject : Subject)
    → has_digest s.sha256 subject ≡ false
    → s.sha256 ≢ some subject
not_away s subject away h = false≢true (sym away ∙ (has_digest_iff s.sha256 subject).1 h)

away_of :
    (s : StatementSubject) (subject : Subject)
    → s.sha256 ≢ some subject
    → has_digest s.sha256 subject ≡ false
away_of s subject other = elim (Bool-cases (has_digest s.sha256 subject)) [
  | inl here ↦ absurd (other ((has_digest_iff s.sha256 subject).0 here))
  | inr away ↦ away
]

-- The first subject with the digest: those in front of it have another, or none.
abbrev pub IsFirst : Subject → List StatementSubject → StatementSubject → Type 0
IsFirst subject subjects s =
    (front : List StatementSubject) × (back : List StatementSubject) × (subjects
      ≡ front ++ (s ∷ back))
    × All (λ (x : StatementSubject). x.sha256 ≢ some subject) front
    × (s.sha256 ≡ some subject)

-- What a search of the subjects ends with.
abbrev pub IsResult : Subject → List StatementSubject → Option StatementSubject → Type 0
IsResult subject subjects none = All (λ (x : StatementSubject). x.sha256 ≢ some subject) subjects
IsResult subject subjects (some s) = IsFirst subject subjects s

-- The search returns a subject exactly when this is the first of the statement's subjects with the
-- artifact's digest, and nothing exactly when no subject has that digest.
pub find_subject_iff :
    (statement : Statement) (subject : Subject) (found : Option StatementSubject)
    → (find_subject statement subject ≡ found) ↔ IsResult subject statement.subjects found
unfolding find_subject
find_subject_iff statement subject none =
    let missing =
      find_first-eq-none (λ (s : StatementSubject). has_digest s.sha256 subject)
        statement.subjects in
    (
      (λ e. All-map (λ s. not_away s subject) statement.subjects (missing.0 e)),
      λ h. missing.1 (All-map (λ s. away_of s subject) statement.subjects h),
    )
find_subject_iff statement subject (some s) = (
  (λ e.
      let (front, back, parts, away, here) =
        find_first-eq-some (λ (s : StatementSubject). has_digest s.sha256 subject)
          statement.subjects e in
      (
        front,
        back,
        parts,
        All-map (λ x. not_away x subject) front away,
        (has_digest_iff s.sha256 subject).0 here,
      )),
  λ (front, back, parts, others, here).
      ap (find_first (λ (s : StatementSubject). has_digest s.sha256 subject)) parts
      ∙ find_first-append (λ (s : StatementSubject). has_digest s.sha256 subject) front back s
          (All-map (λ x. away_of x subject) front others)
          ((has_digest_iff s.sha256 subject).1 here),
)

module _ (crates : Crates) where
  subjects_from_raw-length :
      (index : ℕ) (raws : List RawStatementSubject) (ss : List StatementSubject)
      → subjects_from_raw crates index raws ≡ ok ss
      → length ss ≡ length raws
  unfolding subjects_from_raw
  subjects_from_raw-length index [] ss e = ap length (sym (ok_inj e))
  subjects_from_raw-length index (raw ∷ raws) ss e =
      passed (subject_from_raw crates index raw) _ e (λ s one e.
        passed (subjects_from_raw crates (suc index) raws) _ e (λ rest more e.
          sym (ap length (ok_inj e))
          ∙ ap suc (subjects_from_raw-length (suc index) raws rest more)))

  within_count :
      {A : Type 0} (items : List A) (limit : ℕ) (make_err : ℕ → ℕ → ResourceLimitError)
      → from_limit (check_count items limit make_err) ≡ ok tt
      → length items ≤ limit
  within_count items limit make_err e = ground arith

  within_size :
      (bytes : Bytes) → from_limit (check_input_size bytes) ≡ ok tt → length bytes ≤ max_input_bytes
  within_size bytes e = ground arith

  module _ (reader : JsonReader) (statement_of : Value → Result RawStatement Text) where
    -- A parsed statement comes from a payload of at most 8 MiB and 262144 nodes, in which no object
    -- repeats a key and behind which nothing stands, that declares the in-toto type; it has as many
    -- subjects as the payload lists, at most 1024, and the payload's predicate type.
    pub from_payload_bounds :
        (bytes : Bytes) (statement : Statement)
        → from_payload crates reader statement_of bytes ≡ ok statement
        → (length bytes ≤ max_input_bytes)
          × (length statement.subjects ≤ max_statement_subjects)
          × (raw : RawStatement) × (statement_of (value_of (reader.source bytes)) ≡ ok raw)
          × IsReadFrom reader bytes
          × (raw.type_ ≡ expected_statement_type)
          × (length statement.subjects ≡ length raw.subject)
          × (statement.predicate_type ≡ raw.predicate_type)
    unfolding from_payload statement_from_raw
    from_payload_bounds bytes statement e =
        passed (from_limit (check_input_size bytes)) _ e (λ u small e.
          passed (read_strict reader statement_of bytes) _ e (λ raw read e.
            refused_not (not (str_eq raw.type_ expected_statement_type)) _ _ e (λ typed e.
              passed (from_limit (check_count raw.subject max_statement_subjects too_many_subjects))
                _ e
                (λ u few e. passed (subjects_from_raw crates 0 raw.subject) _ e (λ ss made e.
                  let count = subjects_from_raw-length 0 raw.subject ss made in
                  let bound =
                    within_count raw.subject max_statement_subjects too_many_subjects few in
                  subst
                    (λ (t : Statement).
                      (length bytes ≤ max_input_bytes)
                      × (length t.subjects ≤ max_statement_subjects)
                      × (raw : RawStatement) × (statement_of (value_of (reader.source bytes))
                          ≡ ok raw)
                      × IsReadFrom reader bytes
                      × (raw.type_ ≡ expected_statement_type)
                      × (length t.subjects ≡ length raw.subject)
                      × (t.predicate_type ≡ raw.predicate_type))
                    (ok_inj e)
                    (
                      within_size bytes small,
                      omega (arith, count, bound),
                      raw,
                      (read_strict-IsReadFrom reader statement_of bytes raw read).1,
                      (read_strict-IsReadFrom reader statement_of bytes raw read).0,
                      str_eq→eq _ _ (unnegated _ typed),
                      count,
                      refl,
                    ))))))
