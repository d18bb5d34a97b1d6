-- ===== src/PolicyMatch/Tests.antt =====
-- Runs of src/policy_match.rs, and its theorems at concrete inputs.
use attestation_verify.Prelude.{◌≡◌, ◌↔◌, refl, [], ok, err, some, none}
use attestation_verify.Prelude.Text.{Bytes, Text, codes}
use attestation_verify.Policy.{GithubPolicy, RepositoryIdentity, glob, ref, with_owner_id}
use attestation_verify.Fulcio.{FulcioClaims}
use attestation_verify.PolicyMatch.{MatchedIdentity, expected_issuer, match_policy}
use attestation_verify.PolicyMatch.Uris.{
  SignerUriParts, malformed_claim, parse_github_repo_uri, parse_signer_san_uri,
}
use attestation_verify.PolicyMatch.Uris.Accepts.{
  repo_uri, IsRepository, san_uri, IsWorkflowIdentity, parse_github_repo_uri_iff,
  parse_signer_san_uri_iff,
}
use attestation_verify.PolicyMatch.Satisfies.{Satisfies, matched}
use attestation_verify.PolicyMatch.Satisfies.Decides.{match_policy_iff}

abbrev signer : SignerUriParts
unfolding codes
signer = record {
  owner = codes "cli";
  name = codes "cli";
  workflow_path = codes ".github/workflows/d.yml";
  git_ref = codes "refs/heads/trunk";
}

runs :
    (parse_signer_san_uri
        (codes "https://github.com/cli/cli/.github/workflows/d.yml@refs/heads/trunk")
      ≡ ok signer)
    × (parse_signer_san_uri (codes "https://github.com/cli/cli/.github/workflows/d.yml@a@b")
        ≡ err (
            malformed_claim
              (codes "san_uri")
              (codes "ambiguous additional '@' in workflow identity")))
    × (parse_signer_san_uri (codes "https://github.com/cli@a")
        ≡ err (malformed_claim (codes "san_uri") (codes "missing repository name")))
unfolding parse_signer_san_uri codes
runs = (refl, refl, refl)

parse_github_repo_uri_iff_example :
    (parse_github_repo_uri (repo_uri signer.owner signer.name) [] ≡ ok (signer.owner, signer.name))
    ↔ ((repo_uri signer.owner signer.name ≡ repo_uri signer.owner signer.name)
        × IsRepository signer.owner signer.name)
parse_github_repo_uri_iff_example =
    parse_github_repo_uri_iff (repo_uri signer.owner signer.name) [] signer.owner signer.name

parse_signer_san_uri_iff_example :
    (parse_signer_san_uri (san_uri signer) ≡ ok signer)
    ↔ ((san_uri signer ≡ san_uri signer) × IsWorkflowIdentity signer)
parse_signer_san_uri_iff_example = parse_signer_san_uri_iff (san_uri signer) signer

abbrev claims : FulcioClaims
unfolding codes
claims = record {
  san_uri = some (san_uri signer);
  issuer = some expected_issuer;
  build_signer_uri = none;
  build_signer_digest = none;
  runner_environment = none;
  source_repository_uri = some (codes "https://github.com/CLI/cli");
  source_repository_digest = none;
  source_repository_ref = some (codes "refs/tags/v1");
  source_repository_id = none;
  source_repository_owner_uri = none;
  source_repository_owner_id = some (codes "59704711");
  build_config_uri = none;
  build_config_digest = none;
  build_trigger = none;
  run_invocation_uri = none;
}

abbrev repository : RepositoryIdentity
unfolding codes
repository = record {
  owner = codes "cli";
  name = codes "cli";
  owner_id = none;
  repository_id = none;
}

abbrev required : GithubPolicy
unfolding codes
required = record {
  source = record {
    repository = with_owner_id repository 59704711;
    git_ref = glob (codes "refs/tags/*");
    commit = none;
  };
  signer = record {
    repository = repository;
    path = record { path = codes ".github/workflows/d.yml" };
    revision = ref (codes "refs/heads/trunk");
  };
}

abbrev found : MatchedIdentity
unfolding codes
found = matched expected_issuer (codes "CLI") (codes "cli") (codes "refs/tags/v1") signer

abbrev same_text : Bytes → Text
same_text b = b

accepted : match_policy same_text claims required ≡ ok found
unfolding match_policy claims
accepted = refl

match_policy_iff_example :
    (match_policy same_text claims required ≡ ok found) ↔ Satisfies same_text claims required found
match_policy_iff_example = match_policy_iff same_text claims required found
