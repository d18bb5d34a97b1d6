-- ===== src/Policy/Tests.antt =====
-- Runs of src/policy.rs, and its theorems at concrete inputs.
use attestation_verify.Prelude.{
  ◌≡◌, ◌↔◌, refl, ◌∷◌, [], ok, err, some, none, is_some, true, false, All,
}
use attestation_verify.Prelude.Text.{Bytes, Text, codes}
use attestation_verify.Samples.{toy_crates, short_digest, sample_log}
use attestation_verify.Policy.{
  CheckpointOriginPolicyBuilder, CheckpointOriginBinding, new_binding, new_commit_sha, add_binding,
  validate_checkpoint_origins, RepositoryIdentity, GithubPolicyBuilder, GithubPolicy, exact,
  any_revision, allow_origin, allow_origins, allows_bindings, checkpoint_log_key_id,
  parse_repository, build_github_policy, policy_error, with_owner_id,
}
use attestation_verify.Policy.Origins.{IsBinding, allow_origins-IsBinding}
use attestation_verify.Policy.Origins.Refines.{
  Grants, grant_all, Built, fresh, granted, bound, IsGranted, allows-IsGranted,
}
use attestation_verify.Policy.Identity.{build_github_policy_iff}

abbrev origin : Text
origin = b'o' ∷ []

abbrev other : Text
other = b'p' ∷ []

abbrev empty_builder : CheckpointOriginPolicyBuilder
empty_builder = record { bindings = [] }

abbrev id : Bytes
id = checkpoint_log_key_id short_digest sample_log

abbrev one : CheckpointOriginPolicyBuilder
one = record { bindings = record { key_id = id; origins = origin ∷ [] } ∷ [] }

abbrev two : CheckpointOriginPolicyBuilder
two = record { bindings = record { key_id = id; origins = origin ∷ other ∷ [] } ∷ [] }

built_two :
    allow_origins short_digest empty_builder sample_log (origin ∷ other ∷ origin ∷ []) ≡ ok two
unfolding allow_origins
built_two = refl

built_one : allow_origin short_digest empty_builder sample_log origin ≡ ok one
unfolding allow_origin
built_one = refl

-- One call for one origin, and one for a binding of two.
abbrev pair : CheckpointOriginBinding
pair = record { key_id = id; origins = other ∷ origin ∷ [] }

abbrev grants : Grants
grants = grant_all sample_log (other ∷ origin ∷ []) ((sample_log, origin) ∷ [])

paired : new_binding short_digest sample_log (other ∷ origin ∷ []) ≡ ok pair
unfolding validate_checkpoint_origins
paired = refl

built : Built short_digest grants (add_binding one pair)
built =
    bound sample_log (other ∷ origin ∷ []) pair (granted sample_log origin fresh built_one) paired

allows-IsGranted_example :
    (allows_bindings (add_binding one pair).bindings id other ≡ true)
    ↔ IsGranted short_digest id other grants
allows-IsGranted_example = allows-IsGranted short_digest built id other

allow_origins-IsBinding_example : All IsBinding two.bindings
allow_origins-IsBinding_example =
    allow_origins-IsBinding short_digest (origin ∷ other ∷ origin ∷ []) empty_builder two sample_log
      tt built_two

abbrev repository : RepositoryIdentity
repository = record { owner = b'a' ∷ []; name = b'b' ∷ []; owner_id = none; repository_id = none }

abbrev same_text : Text → Text
same_text s = s

abbrev slashed_text : Text
slashed_text = b'a' ∷ b'/' ∷ b'b' ∷ []

refused_repository :
    parse_repository same_text (b'/' ∷ b'b' ∷ [])
    ≡ err (policy_error (codes "repository owner must not be empty"))
unfolding parse_repository
refused_repository = refl

abbrev required : GithubPolicy
required = record {
  source = record {
    repository = with_owner_id repository 7;
    git_ref = exact origin;
    commit = none;
  };
  signer = record {
    repository = repository;
    path = record { path = other };
    revision = any_revision;
  };
}

abbrev halves : GithubPolicyBuilder
halves = record { source = some required.source; signer = some required.signer }

build_github_policy_iff_example : (build_github_policy halves ≡ ok required) ↔ (
    (halves.source ≡ some required.source)
    × (halves.signer ≡ some required.signer)
    × (is_some required.signer.repository.owner_id ≡ false)
    × (is_some required.signer.repository.repository_id ≡ false))
build_github_policy_iff_example = build_github_policy_iff halves required

-- 20 bytes for the stand-in decoder, and one more.
abbrev sha_text : Text
sha_text = codes "0123456789abcdef0123"

commits :
    (new_commit_sha toy_crates sha_text ≡ ok (record { bytes = sha_text }))
    × (new_commit_sha toy_crates (codes "z")
        ≡ err (policy_error (codes "invalid commit sha: invalid hex in field `commit_sha`: z")))
unfolding codes
commits = (refl, refl)
