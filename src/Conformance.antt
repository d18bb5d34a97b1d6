-- ===== src/Conformance.antt =====
-- tools/conformance/src/main.rs: the verification client for the official conformance suite. The file
-- system, the parsers and the cryptography that it reaches are parameters.
pub mod Failures
pub mod Arguments
pub mod Identity
pub mod Shape
pub mod Verified
mod Tests
use attestation_verify.Prelude.{
  Bool, true, false, ◌&&◌, not, any, ◌==◌, Option, none, some, List, [], ◌∷◌, ◌++◌, length, Result,
  ok, err, ◌>>=◌, ◌>>◌, if◌then◌else◌, String,
}
use attestation_verify.Prelude.Text.{Bytes, Text, codes, str_eq, strip_prefix, is_ascii_hexdigit}
use attestation_verify.StrictJson.Tree.{Value}
use attestation_verify.Bundle.{Bundle}
use attestation_verify.Bundle.Raw.{RawBundle, from_json}
use attestation_verify.Trust.{TrustStore}
use attestation_verify.Trust.Raw.{RawTrustedRoot, store_from_json, embedded_public_good}
use attestation_verify.Subject.{from_digest_hex}
use attestation_verify.Policy.{
  RepositoryIdentity, parse_repository, glob, new_workflow_path, WorkflowPath, ref, GithubPolicy,
  with_source, with_signer, build_github_policy,
}
use attestation_verify.PolicyMatch.{expected_issuer}
use attestation_verify.Verifier.{
  Verifier, builder, with_trust_store, with_github_policy, with_checkpoint_origin_policy, build,
}
use attestation_verify.Verifier.Report.{VerificationReport}
use attestation_verify.Verifier.Digest.{Dependencies, verify_digest, verify_bytes}
use attestation_verify.Conformance.Failures.{
  Failure, message, refuse_if, ok_or_message, from_library, from_io,
}
use attestation_verify.Conformance.Arguments.{
  no_arguments, read_arguments, Request, check_arguments,
}
use attestation_verify.Conformance.Identity.{GithubIdentity, parse_github_identity}
use attestation_verify.Conformance.Shape.{
  public_good_origin_policy, JsonView, reject_unsupported_bundle_shape,
}

-- `read` is `std::fs::read`, `debug_str` the print of a string by `{:?}`, and `embedded` the trusted
-- root that the crate carries.
pub record Client : Type 1 where
  pub deps : Dependencies
  pub bundle_of : Value → Result RawBundle Text
  pub root_of : Value → Result RawTrustedRoot Text
  pub json : JsonView
  pub debug_str : Text → Text
  pub embedded : Bytes
  pub read : Text → Result Bytes Text

abbrev pub digest_prefix : Text
unfolding codes
digest_prefix = codes "sha256:"

-- 64 hexadecimal digits, in either case.
abbrev pub is_digest : Text → Bool
unfolding any
is_digest digest = length digest == 64 && not (any (λ c. not (is_ascii_hexdigit c)) digest)

module _ (client : Client) where
  open client use {deps, bundle_of, root_of, json, debug_str, embedded, read}
  open deps use {crates, reader}

  -- The policy of the client: both repositories are that of the identity, any source ref is good, and
  -- the signer's workflow and ref are those of the identity.
  abbrev pub policy_for : RepositoryIdentity → WorkflowPath → Text → Result GithubPolicy Failure
  policy_for repository path workflow_ref = from_library (
      build_github_policy (
        with_signer
          (with_source (record { source = none; signer = none })
            (record { repository = repository; git_ref = glob (codes "*"); commit = none }))
          (record { repository = repository; path = path; revision = ref workflow_ref })))

  abbrev pub load_trust_store : Option Text → Result TrustStore Failure
  unfolding store_from_json embedded_public_good
  load_trust_store none = from_library (embedded_public_good crates reader root_of embedded)
  load_trust_store (some path) =
      from_io (read path) >>= λ bytes. from_library (store_from_json crates reader root_of bytes)

  abbrev pub verify_file : Verifier → Text → Bundle → Result VerificationReport Failure
  unfolding verify_bytes
  verify_file verifier path bundle =
      from_io (read path) >>= λ bytes. from_library (verify_bytes deps verifier bytes bundle)

  -- `Some(digest)` and `None` of the prefix, each with its branches.
  abbrev pub verify_named :
      Verifier → Text → Bundle → Option Text → Result VerificationReport Failure
  unfolding verify_digest
  verify_named verifier operand bundle none = verify_file verifier operand bundle
  verify_named verifier operand bundle (some digest) =
      if is_digest digest
      then (from_library (from_digest_hex crates digest) >>= λ subject.
          from_library (verify_digest deps verifier subject bundle))
      else verify_file verifier operand bundle

  unfoldable pub verify_operand : Verifier → Text → Bundle → Result VerificationReport Failure
  unfolding strip_prefix verify_digest verify_bytes
  verify_operand verifier operand bundle =
      verify_named verifier operand bundle (strip_prefix operand digest_prefix)

  -- `EXPECTED_ISSUER` of this file is the text of that of src/policy_match.rs.
  abbrev pub issuer_message : Text → Text
  issuer_message issuer =
      codes "unsupported certificate OIDC issuer "
      ++ (debug_str issuer
          ++ (codes "; this crate only verifies GitHub Actions issuer "
              ++ debug_str expected_issuer))

  -- The options are read first; what is printed at the end is not modelled.
  unfoldable pub run_verify : List Text → Result (Unit {0}) Failure
  unfolding read_arguments check_arguments str_eq parse_github_identity parse_repository
      build_github_policy store_from_json embedded_public_good public_good_origin_policy
      reject_unsupported_bundle_shape from_json build verify_operand
  run_verify args = do
    arguments ← read_arguments debug_str args no_arguments
    request ← check_arguments arguments
    refuse_if (not (str_eq request.certificate_issuer expected_issuer))
        (issuer_message request.certificate_issuer)
    identity ← parse_github_identity debug_str request.certificate_identity
    repository ← from_library (parse_repository debug_str identity.repository)
    path ← from_library (new_workflow_path identity.workflow_path)
    policy ← policy_for repository path identity.workflow_ref
    trust_store ← load_trust_store request.trusted_root_path
    checkpoint_origin_policy ← public_good_origin_policy crates.digest trust_store
    bundle_bytes ← from_io (read request.bundle_path)
    reject_unsupported_bundle_shape json debug_str bundle_bytes
    bundle ← from_library (from_json crates reader bundle_of bundle_bytes)
    verifier ← from_library (
        build crates.digest (
          with_checkpoint_origin_policy
            (with_github_policy (with_trust_store builder trust_store) policy)
            checkpoint_origin_policy))
    report ← verify_operand verifier request.artifact_or_digest bundle
    ok tt

  unfoldable pub run : List Text → Result (Unit {0}) Failure
  unfolding str_eq run_verify
  run [] = err (message (codes "missing conformance subcommand"))
  run (subcommand ∷ args) =
      if str_eq subcommand (codes "sign-bundle")
      then err (
          message (
            codes
              "unsupported: this client is verification-only; run sigstore-conformance with --skip-signing"))
      else if str_eq subcommand (codes "verify-bundle")
      then run_verify args
      else err (
          message (
            codes "unsupported conformance subcommand "
            ++ (debug_str subcommand ++ codes "; expected sign-bundle or verify-bundle")))
