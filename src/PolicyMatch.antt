-- ===== src/PolicyMatch.antt =====
-- src/policy_match.rs: the certificate's claims against the caller's policy. `hex_encode` of the
-- crate hex is a parameter.
pub mod Glob
pub mod Uris
pub mod Satisfies
mod Tests
use attestation_verify.Prelude.{
  Bool, true, false, ◌&&◌, not, Option, none, some, ◌++◌, ◌∷◌, ℕ, if◌then◌else◌, Result, ok, err,
  ◌>>=◌, ◌>>◌, ok_or,
}
use attestation_verify.Prelude.Text.{Bytes, Text, codes, str_eq, eq_ignore_ascii_case}
use attestation_verify.Prelude.Decimal.{to_string}
use attestation_verify.Errors.{
  Error, policy, PolicyError, missing_identity_claim, issuer_mismatch, source_repository_mismatch,
  source_owner_id_mismatch, source_repository_id_mismatch, source_ref_mismatch,
  source_commit_mismatch, signer_repository_mismatch, signer_workflow_path_mismatch,
  signer_revision_mismatch,
}
use attestation_verify.Policy.{
  RepositoryIdentity, RefPolicy, exact, glob, WorkflowRevisionPolicy, any_revision, ref, sha,
  CommitSha, to_hex, GithubPolicy,
}
use attestation_verify.Fulcio.{FulcioClaims}
use attestation_verify.PolicyMatch.Glob.{glob_match}
use attestation_verify.PolicyMatch.Uris.{
  SignerUriParts, require_claim, parse_github_repo_uri, parse_signer_san_uri,
}

abbrev pub expected_issuer : Text
unfolding codes
expected_issuer = codes "https://token.actions.githubusercontent.com"

pub record MatchedIdentity : Type 0 where
  pub issuer : Text
  pub source_repository : Text
  pub source_ref : Text
  pub signer_repository : Text
  pub signer_workflow_path : Text

-- The refusal of a check that compares what was found with what the policy expects.
abbrev pub demand : Bool → PolicyError → Result (Unit {0}) Error
demand test e = if test then ok tt else err (policy e)

-- `format!("{owner}/{name}")`
abbrev pub slashed : Text → Text → Text
slashed owner name = owner ++ (b'/' ∷ name)

unfoldable pub check_repository_match :
    Text → Text → RepositoryIdentity → (Text → Text → PolicyError) → Result (Unit {0}) Error
unfolding eq_ignore_ascii_case
check_repository_match owner name expected make_err =
    demand (eq_ignore_ascii_case owner expected.owner && eq_ignore_ascii_case name expected.name)
      (make_err (slashed expected.owner expected.name) (slashed owner name))

unfoldable pub check_pinned_id :
    Option ℕ → Option Text → Text → (Text → Text → PolicyError) → Result (Unit {0}) Error
unfolding str_eq to_string
check_pinned_id none found_claim claim_name make_err = ok tt
check_pinned_id (some expected_id) found_claim claim_name make_err =
    require_claim found_claim claim_name >>= λ found.
    demand (str_eq found (to_string expected_id)) (make_err (to_string expected_id) found)

unfoldable pub check_ref_policy : Text → RefPolicy → Result (Unit {0}) Error
unfolding str_eq glob_match
check_ref_policy found_ref (exact expected) =
    demand (str_eq found_ref expected) (source_ref_mismatch expected found_ref)
check_ref_policy found_ref (glob pattern) =
    demand (glob_match pattern found_ref) (source_ref_mismatch pattern found_ref)

module _ (hex_encode : Bytes → Text) where
  -- The optional exact commit of `match_policy`.
  unfoldable pub check_source_commit : Option CommitSha → Option Text → Result (Unit {0}) Error
  unfolding eq_ignore_ascii_case
  check_source_commit none digest_claim = ok tt
  check_source_commit (some expected_commit) digest_claim =
      require_claim digest_claim (codes "source_repository_digest") >>= λ found.
      demand (eq_ignore_ascii_case found (to_hex hex_encode expected_commit))
        (source_commit_mismatch (to_hex hex_encode expected_commit) found)

  unfoldable pub check_signer_revision :
      FulcioClaims → SignerUriParts → WorkflowRevisionPolicy → Result (Unit {0}) Error
  unfolding str_eq eq_ignore_ascii_case
  check_signer_revision claims signer any_revision = ok tt
  check_signer_revision claims signer (ref expected_ref) =
      demand (str_eq signer.git_ref expected_ref)
        (signer_revision_mismatch expected_ref signer.git_ref)
  check_signer_revision claims signer (sha expected_sha) =
      require_claim claims.build_signer_digest (codes "build_signer_digest") >>= λ found.
      demand (eq_ignore_ascii_case found (to_hex hex_encode expected_sha))
        (signer_revision_mismatch (to_hex hex_encode expected_sha) found)

  unfoldable pub match_policy : FulcioClaims → GithubPolicy → Result MatchedIdentity Error
  unfolding str_eq parse_github_repo_uri parse_signer_san_uri check_repository_match check_pinned_id
      check_ref_policy check_source_commit check_signer_revision
  match_policy claims required = do
    issuer ← require_claim claims.issuer (codes "issuer")
    demand (str_eq issuer expected_issuer) (issuer_mismatch expected_issuer issuer)
    source_uri ← require_claim claims.source_repository_uri (codes "source_repository_uri")
    (source_owner, source_name) ← parse_github_repo_uri source_uri (codes "source_repository_uri")
    check_repository_match source_owner source_name required.source.repository
        source_repository_mismatch
    check_pinned_id required.source.repository.owner_id claims.source_repository_owner_id
        (codes "source_repository_owner_id") source_owner_id_mismatch
    check_pinned_id required.source.repository.repository_id claims.source_repository_id
        (codes "source_repository_id") source_repository_id_mismatch
    source_ref ← require_claim claims.source_repository_ref (codes "source_repository_ref")
    check_ref_policy source_ref required.source.git_ref
    check_source_commit required.source.commit claims.source_repository_digest
    san_uri ← require_claim claims.san_uri (codes "san_uri")
    signer ← parse_signer_san_uri san_uri
    check_repository_match signer.owner signer.name required.signer.repository
        signer_repository_mismatch
    demand (str_eq signer.workflow_path required.signer.path.path)
        (signer_workflow_path_mismatch required.signer.path.path signer.workflow_path)
    check_signer_revision claims signer required.signer.revision
    ok (record {
      issuer = issuer;
      source_repository = slashed source_owner source_name;
      source_ref = source_ref;
      signer_repository = slashed signer.owner signer.name;
      signer_workflow_path = signer.workflow_path;
    })
