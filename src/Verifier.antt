-- ===== src/Verifier.antt =====
-- src/verifier.rs: the verifier and its builder.
pub mod Configured
pub mod Report
pub mod Digest
mod Tests
use attestation_verify.Prelude.{
  Option, some, none, List, [], ◌∷◌, any, not, Bool, true, false, Result, ok, err, ◌>>=◌, ◌>>◌,
  ok_or, if◌then◌else◌,
}
use attestation_verify.Prelude.Text.{Bytes, codes, str_eq}
use attestation_verify.Errors.{Error}
use attestation_verify.Trust.{TransparencyLog, TrustStore}
use attestation_verify.Policy.{
  CheckpointOriginBinding, CheckpointOriginPolicy, GithubPolicy, reject_signer_id_pins,
  policy_error,
}

pub record Verifier : Type 0 where
  pub trust_store : TrustStore
  pub github_policy : GithubPolicy
  pub checkpoint_origin_policy : CheckpointOriginPolicy

pub record VerifierBuilder : Type 0 where
  pub trust_store : Option TrustStore
  pub github_policy : Option GithubPolicy
  pub checkpoint_origin_policy : Option CheckpointOriginPolicy

-- `Verifier::builder`
abbrev pub builder : VerifierBuilder
builder = record { trust_store = none; github_policy = none; checkpoint_origin_policy = none }

abbrev pub with_trust_store : VerifierBuilder → TrustStore → VerifierBuilder
with_trust_store b store = record {
  trust_store = some store;
  github_policy = b.github_policy;
  checkpoint_origin_policy = b.checkpoint_origin_policy;
}

abbrev pub with_github_policy : VerifierBuilder → GithubPolicy → VerifierBuilder
with_github_policy b p = record {
  trust_store = b.trust_store;
  github_policy = some p;
  checkpoint_origin_policy = b.checkpoint_origin_policy;
}

abbrev pub with_checkpoint_origin_policy :
    VerifierBuilder → CheckpointOriginPolicy → VerifierBuilder
with_checkpoint_origin_policy b p = record {
  trust_store = b.trust_store;
  github_policy = b.github_policy;
  checkpoint_origin_policy = some p;
}

-- `digest` is SHA-256.
module _ (digest : Bytes → Bytes) where
  abbrev pub known_key : List TransparencyLog → CheckpointOriginBinding → Bool
  known_key tlogs binding =
      any (λ log. str_eq (digest log.public_key.raw_bytes) binding.key_id) tlogs

  -- The loop over the bindings of the policy.
  unfoldable pub check_bindings :
      List TransparencyLog → List CheckpointOriginBinding → Result (Unit {0}) Error
  unfolding any str_eq
  check_bindings tlogs [] = ok tt
  check_bindings tlogs (binding ∷ bindings) = do
    if not (known_key tlogs binding)
        then err
            (policy_error (codes "checkpoint origin policy references unknown trust-store log key"))
        else ok tt
    check_bindings tlogs bindings

  unfoldable pub build : VerifierBuilder → Result Verifier Error
  unfolding reject_signer_id_pins check_bindings
  build b = do
    trust_store ← ok_or b.trust_store (policy_error (codes "trust_store is required"))
    github_policy ← ok_or b.github_policy (policy_error (codes "github_policy is required"))
    checkpoint_origin_policy ←
        ok_or b.checkpoint_origin_policy
          (policy_error (codes "checkpoint_origin_policy is required"))
    reject_signer_id_pins github_policy.signer
    check_bindings trust_store.tlogs checkpoint_origin_policy.bindings
    ok (record {
      trust_store = trust_store;
      github_policy = github_policy;
      checkpoint_origin_policy = checkpoint_origin_policy;
    })
