-- ===== src/Verifier/Tests.antt =====
-- Runs of src/verifier.rs, and its theorem at a concrete input.
use attestation_verify.Prelude.{◌≡◌, refl, none, [], ◌∷◌, ok, err}
use attestation_verify.Prelude.Text.{Bytes, codes}
use attestation_verify.Samples.{short_digest, sample_log}
use attestation_verify.Trust.{TrustStore}
use attestation_verify.Policy.{
  RepositoryIdentity, GithubPolicy, CheckpointOriginPolicy, exact, any_revision, policy_error,
}
use attestation_verify.Verifier.{
  Verifier, builder, with_trust_store, with_github_policy, with_checkpoint_origin_policy, build,
}
use attestation_verify.Verifier.Configured.{IsConfigured, build_iff}

abbrev repository : RepositoryIdentity
repository = record { owner = b'a' ∷ []; name = b'b' ∷ []; owner_id = none; repository_id = none }

abbrev github : GithubPolicy
github = record {
  source = record { repository = repository; git_ref = exact (b'r' ∷ []); commit = none };
  signer = record {
    repository = repository;
    path = record { path = b'p' ∷ [] };
    revision = any_revision;
  };
}

abbrev store : TrustStore
store = record {
  media_type = [];
  tlogs = sample_log ∷ [];
  ctlogs = [];
  certificate_authorities = [];
  timestamp_authorities = [];
  fingerprint = [];
  source = [];
}

-- One key, with one origin.
abbrev allowing : Bytes → CheckpointOriginPolicy
allowing key = record { bindings = record { key_id = key; origins = (b'o' ∷ []) ∷ [] } ∷ [] }

abbrev known : CheckpointOriginPolicy
known = allowing (short_digest sample_log.public_key.raw_bytes)

abbrev verifier : Verifier
verifier = record { trust_store = store; github_policy = github; checkpoint_origin_policy = known }

built :
    build short_digest (
      with_checkpoint_origin_policy
        (with_github_policy (with_trust_store builder store) github)
        known)
    ≡ ok verifier
unfolding build
built = refl

unknown_key :
    build short_digest (
      with_checkpoint_origin_policy
        (with_github_policy (with_trust_store builder store) github)
        (allowing []))
    ≡ err (policy_error (codes "checkpoint origin policy references unknown trust-store log key"))
unfolding build
unknown_key = refl

no_store :
    build short_digest (with_github_policy builder github)
    ≡ err (policy_error (codes "trust_store is required"))
unfolding build
no_store = refl

build_iff_example :
    IsConfigured short_digest
      (with_checkpoint_origin_policy
        (with_github_policy (with_trust_store builder store) github)
        known)
      verifier
build_iff_example =
    (build_iff short_digest
        (with_checkpoint_origin_policy (with_github_policy (with_trust_store builder store) github)
          known)
        verifier).0
      built
