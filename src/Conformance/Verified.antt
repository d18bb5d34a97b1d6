-- ===== src/Conformance/Verified.antt =====
-- What a run of the client of tools/conformance/src/main.rs that ends well guarantees.
pub mod Run
use attestation_verify.Prelude.{
  ◌≡◌, ◌⊎◌, inl, inr, refl, sym, ap, ap₂, subst, ◌∙◌, Bool-cases, true, Bool, false, not, unnegated,
  List, [], ◌∷◌, ◌++◌, Option, some, none, Option-cases, is_empty, find_first, find_first_sound,
  Exists, Result, ok, ok_or, ok_or-eq-ok, ok_inj, some_inj, map_err, map_err-eq-ok, passed,
  refused_not,
}
use attestation_verify.Prelude.Text.{Bytes, Text, codes, str_eq, strip_prefix, contains_str}
use attestation_verify.Prelude.Text.Laws.{str_eq→eq}
use attestation_verify.Prelude.Text.Pieces.{strip_prefix_sound}
use attestation_verify.Bundle.{Bundle}
use attestation_verify.Bundle.Raw.{from_json}
use attestation_verify.Trust.{TrustStore, TransparencyLog}
use attestation_verify.Subject.{Subject, sha256_of, from_digest_hex}
use attestation_verify.Policy.{
  CheckpointOriginPolicy, CheckpointOriginPolicyBuilder, checkpoint_log_key_id, allow_origin,
  build_origin_policy, validate_checkpoint_origin, insert_origin, RepositoryIdentity,
  parse_repository, glob, ref, WorkflowPath, new_workflow_path, GithubPolicy, GithubPolicyBuilder,
  SourcePolicy, SignerPolicy, build_github_policy,
}
use attestation_verify.Policy.Identity.{build_github_policy_iff, parse_repository_iff}
use attestation_verify.Policy.Origins.{validate_checkpoint_origin_iff}
use attestation_verify.Conformance.Failures.{Failure, library, io, from_library, from_io}
use attestation_verify.Conformance.Shape.{
  public_good_checkpoint_origin, is_supported, public_good_origin_policy,
}
use attestation_verify.Conformance.Identity.{GithubIdentity, parse_github_identity}
use attestation_verify.Verifier.{Verifier, build}
use attestation_verify.Verifier.Report.{VerificationReport}
use attestation_verify.Verifier.Digest.{verify_digest, verify_bytes}
use attestation_verify.Conformance.{
  Client, policy_for, digest_prefix, is_digest, verify_file, verify_operand, run_verify, run,
}

-- The client's checkpoint-origin policy: the one origin, for the key of a log that is not said to be
-- an Ed25519 key.
abbrev pub AllowsPublicGood : (Bytes → Bytes) → TrustStore → CheckpointOriginPolicy → Type 0
AllowsPublicGood digest store origins =
    Exists
      (λ (log : TransparencyLog).
        (contains_str log.public_key.key_details (codes "ED25519") ≡ false)
        × (origins.bindings
            ≡ record {
              key_id = checkpoint_log_key_id digest log;
              origins = public_good_checkpoint_origin ∷ [];
            }
              ∷ []))
      store.tlogs

abbrev new_builder : (Bytes → Bytes) → TransparencyLog → Text → CheckpointOriginPolicyBuilder
new_builder digest log origin = record {
  bindings = record { key_id = checkpoint_log_key_id digest log; origins = origin ∷ [] } ∷ [];
}

negated : (b : Bool) → not b ≡ true → b ≡ false
negated false h = refl
negated true h = absurd (cc h)

public_good_origin_policy_sound :
    (digest : Bytes → Bytes) (store : TrustStore) (origins : CheckpointOriginPolicy)
    → public_good_origin_policy digest store ≡ ok origins
    → AllowsPublicGood digest store origins
unfolding public_good_origin_policy allow_origin insert_origin
public_good_origin_policy_sound digest store origins e =
    passed (ok_or (find_first is_supported store.tlogs) _) _ e (λ log found e.
      passed
        (from_library
          (allow_origin digest (record { bindings = [] }) log public_good_checkpoint_origin))
        _ e
        (λ b allowed e.
          passed (validate_checkpoint_origin public_good_checkpoint_origin) _
            (map_err-eq-ok
              (allow_origin digest (record { bindings = [] }) log public_good_checkpoint_origin)
              library allowed)
            (λ o valid made.
              let o_is =
                ((validate_checkpoint_origin_iff public_good_checkpoint_origin o).0 valid).0 in
              let built : from_library (build_origin_policy (new_builder digest log o))
                  ≡ ok origins =
                ap (λ (t : CheckpointOriginPolicyBuilder). from_library (build_origin_policy t))
                  (ok_inj made)
                ∙ e in
              let origins_are : origins.bindings ≡ (new_builder digest log o).bindings =
                ap (λ (p : CheckpointOriginPolicy). p.bindings) (sym (ok_inj built)) in
              let (x, i, at, (same, supported)) =
                find_first_sound is_supported store.tlogs (ok_or-eq-ok _ _ found) in
              (
                x,
                i,
                at,
                (
                  negated _ supported,
                  origins_are
                      ∙ ap₂ (λ (l : TransparencyLog) (t : Text). (new_builder digest l t).bindings)
                          (sym same) o_is,
                ),
              ))))

-- The client's policy for an identity.
abbrev pub pinned : RepositoryIdentity → GithubIdentity → GithubPolicy
pinned repository identity = record {
  source = record { repository = repository; git_ref = glob (codes "*"); commit = none };
  signer = record {
    repository = repository;
    path = record { path = identity.workflow_path };
    revision = ref identity.workflow_ref;
  };
}

abbrev new_policy_of : SourcePolicy → SignerPolicy → GithubPolicy
new_policy_of source signer = record { source = source; signer = signer }

module _ (client : Client) where
  open client use {deps, bundle_of, root_of, json, debug_str, embedded, read}
  open deps use {crates, reader}

  policy_for_sound :
      (repository : RepositoryIdentity) (identity : GithubIdentity) (path : WorkflowPath)
      (policy : GithubPolicy)
      → new_workflow_path identity.workflow_path ≡ ok path
      → policy_for client repository path identity.workflow_ref ≡ ok policy
      → policy ≡ pinned repository identity
  policy_for_sound repository identity path policy made e =
      refused_not (is_empty identity.workflow_path) _ _ made (λ filled made.
        let source = (pinned repository identity).source in
        let signer_at : WorkflowPath → SignerPolicy =
          λ p. record { repository = repository; path = p; revision = ref identity.workflow_ref } in
        let builder : GithubPolicyBuilder = record {
          source = some source;
          signer = some (signer_at path);
        } in
        let (source_is, signer_is, _, _) =
          (build_github_policy_iff builder policy).0
            (map_err-eq-ok (build_github_policy builder) library e) in
        ap₂ (λ (s : SourcePolicy) (t : SignerPolicy). new_policy_of s t) (sym (some_inj source_is))
          (sym (some_inj signer_is) ∙ ap signer_at (sym (ok_inj made))))

  -- The artifact that an operand names: a digest behind "sha256:", or the content of a file.
  abbrev pub IsNamed : Text → Subject → Type 0
  IsNamed operand subject =
      ((digest : Text) × (operand ≡ digest_prefix ++ digest)
        × (is_digest digest ≡ true)
        × (from_digest_hex crates digest ≡ ok subject))
      ⊎ ((bytes : Bytes) × (read operand ≡ ok bytes) × (subject ≡ sha256_of crates bytes))

  abbrev IsOfOperand : Verifier → Text → Bundle → VerificationReport → Type 0
  IsOfOperand v operand bundle report =
      (subject : Subject) × IsNamed operand subject
      × (verify_digest deps v subject bundle ≡ ok report)

  verify_file_sound :
      (v : Verifier) (operand : Text) (bundle : Bundle) (report : VerificationReport)
      → verify_file client v operand bundle ≡ ok report
      → IsOfOperand v operand bundle report
  unfolding verify_bytes
  verify_file_sound v operand bundle report e =
      passed (from_io (read operand)) _ e (λ bytes there e. (
        sha256_of crates bytes,
        inr (bytes, map_err-eq-ok (read operand) io there, refl),
        map_err-eq-ok (verify_bytes deps v bytes bundle) library e,
      ))

  verify_operand_sound :
      (v : Verifier) (operand : Text) (bundle : Bundle) (report : VerificationReport)
      → verify_operand client v operand bundle ≡ ok report
      → IsOfOperand v operand bundle report
  unfolding verify_operand
  verify_operand_sound v operand bundle report e =
      elim (Option-cases (strip_prefix operand digest_prefix)) [
        | inl absent ↦ verify_file_sound v operand bundle report (rw absent at e)
        | inr (digest, found) ↦ elim (Bool-cases (is_digest digest)) [
          | inr other ↦ verify_file_sound v operand bundle report (rw (found, other) at e)
          | inl hex ↦
              passed (from_library (from_digest_hex crates digest)) _ (rw (found, hex) at e)
                (λ subject named e. (
                  subject,
                  inl (
                    digest,
                    strip_prefix_sound operand digest_prefix found,
                    hex,
                    map_err-eq-ok (from_digest_hex crates digest) library named,
                  ),
                  map_err-eq-ok (verify_digest deps v subject bundle) library e,
                ))
        ]
      ]
