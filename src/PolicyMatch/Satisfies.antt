-- ===== src/PolicyMatch/Satisfies.antt =====
-- What it means that claims satisfy a policy, and that `match_policy` decides it.
pub mod Ran
pub mod Decides
use attestation_verify.Prelude.{ℕ, ◌≡◌, Option, some, none, map, Bool, true}
use attestation_verify.Prelude.Text.{Bytes, Text, to_ascii_lowercase}
use attestation_verify.Prelude.Decimal.{to_string}
use attestation_verify.Policy.{
  RepositoryIdentity, RefPolicy, exact, glob, WorkflowRevisionPolicy, any_revision, ref, sha,
  CommitSha, GithubPolicy,
}
use attestation_verify.Fulcio.{FulcioClaims}
use attestation_verify.PolicyMatch.{MatchedIdentity, expected_issuer, slashed}
use attestation_verify.PolicyMatch.Glob.Decides.{Matches}
use attestation_verify.PolicyMatch.Uris.{SignerUriParts}
use attestation_verify.PolicyMatch.Uris.Accepts.{
  repo_uri, IsRepository, san_uri, IsWorkflowIdentity,
}

-- Equal up to the case of ASCII letters.
abbrev pub SameLetters : Text → Text → Type 0
SameLetters a b = map to_ascii_lowercase a ≡ map to_ascii_lowercase b

abbrev pub IsExpectedRepository : Text → Text → RepositoryIdentity → Type 0
IsExpectedRepository owner name expected =
    SameLetters owner expected.owner × SameLetters name expected.name

-- A pinned id is claimed, as its decimal print.
abbrev pub HasPinnedId : Option ℕ → Option Text → Type 0
HasPinnedId none claim = Unit
HasPinnedId (some n) claim = claim ≡ some (to_string n)

abbrev pub IsRef : Text → RefPolicy → Type 0
IsRef found (exact expected) = found ≡ expected
IsRef found (glob pattern) = Matches pattern found

-- The identity that is reported of what was found.
abbrev pub matched : Text → Text → Text → Text → SignerUriParts → MatchedIdentity
matched issuer owner name source_ref signer = record {
  issuer = issuer;
  source_repository = slashed owner name;
  source_ref = source_ref;
  signer_repository = slashed signer.owner signer.name;
  signer_workflow_path = signer.workflow_path;
}

module _ (hex_encode : Bytes → Text) where
  abbrev pub HasCommit : CommitSha → Option Text → Type 0
  HasCommit c claim = (found : Text) × (claim ≡ some found) × SameLetters found (hex_encode c.bytes)

  abbrev pub HasSourceCommit : Option CommitSha → Option Text → Type 0
  HasSourceCommit none claim = Unit
  HasSourceCommit (some c) claim = HasCommit c claim

  abbrev pub HasRevision : FulcioClaims → SignerUriParts → WorkflowRevisionPolicy → Type 0
  HasRevision claims signer any_revision = Unit
  HasRevision claims signer (ref expected) = signer.git_ref ≡ expected
  HasRevision claims signer (sha c) = HasCommit c claims.build_signer_digest

  abbrev pub Satisfies : FulcioClaims → GithubPolicy → MatchedIdentity → Type 0
  Satisfies claims required m =
      (owner : Text) × (name : Text) × (source_ref : Text) × (signer : SignerUriParts)
      × (claims.issuer ≡ some expected_issuer)
      × (claims.source_repository_uri ≡ some (repo_uri owner name))
      × IsRepository owner name
      × IsExpectedRepository owner name required.source.repository
      × HasPinnedId required.source.repository.owner_id claims.source_repository_owner_id
      × HasPinnedId required.source.repository.repository_id claims.source_repository_id
      × (claims.source_repository_ref ≡ some source_ref)
      × IsRef source_ref required.source.git_ref
      × HasSourceCommit required.source.commit claims.source_repository_digest
      × (claims.san_uri ≡ some (san_uri signer))
      × IsWorkflowIdentity signer
      × IsExpectedRepository signer.owner signer.name required.signer.repository
      × (signer.workflow_path ≡ required.signer.path.path)
      × HasRevision claims signer required.signer.revision
      × (m ≡ matched expected_issuer owner name source_ref signer)
