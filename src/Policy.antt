-- ===== src/Policy.antt =====
-- src/policy.rs: the identity policy and the checkpoint-origin policy, with their constructors.
-- SHA-256 (`digest`), the crate hex and `{:?}` of a string (`debug_str`) are parameters.
pub mod Origins
pub mod Identity
mod Tests
use attestation_verify.Prelude.{
  ℕ, Bool, true, false, ◌||◌, not, Option, none, some, is_some, List, [], ◌∷◌, ◌++◌, is_empty, any,
  keep, if◌then◌else◌, Result, ok, err, ◌>>=◌, ◌>>◌, ok_or, map_err, traverse, String,
}
use attestation_verify.Prelude.Text.{Bytes, Text, codes, str_eq, contains, split_once}
use attestation_verify.Errors.{
  Error, ParseError, policy, PolicyError, invalid_configuration, display_parse,
}
use attestation_verify.Crates.{Crates}
use attestation_verify.ParseUtil.{strict_hex}
use attestation_verify.Trust.{TransparencyLog}

abbrev pub policy_error : Text → Error
policy_error reason = policy (invalid_configuration reason)

abbrev pub reject_if : Bool → Text → Result (Unit {0}) Error
reject_if test reason = if test then err (policy_error reason) else ok tt

pub record CheckpointOriginBinding : Type 0 where
  pub key_id : Bytes
  pub origins : List Text

pub record CheckpointOriginPolicy : Type 0 where
  pub bindings : List CheckpointOriginBinding

pub record CheckpointOriginPolicyBuilder : Type 0 where
  pub bindings : List CheckpointOriginBinding

unfoldable pub validate_checkpoint_origin : Text → Result Text Error
unfolding contains
validate_checkpoint_origin origin = do
  reject_if (is_empty origin) (codes "checkpoint origin must not be empty")
  reject_if (contains origin b'\r' || contains origin b'\n')
      (codes "checkpoint origin must not contain CR or LF")
  ok origin

unfoldable pub validate_checkpoint_origins : List Text → Result (List Text) Error
unfolding traverse validate_checkpoint_origin
validate_checkpoint_origins origins = do
  origins ← traverse validate_checkpoint_origin origins
  reject_if (is_empty origins) (codes "checkpoint origin binding must contain at least one origin")
  ok origins

abbrev pub origin_among : List Text → Text → Bool
origin_among origins origin = any (λ (allowed : Text). str_eq allowed origin) origins

-- `allows`: the bindings of the key, and among their origins the one asked for.
unfoldable pub allows_bindings : List CheckpointOriginBinding → Bytes → Text → Bool
unfolding any keep str_eq
allows_bindings bindings key_id origin =
    any (λ (b : CheckpointOriginBinding). origin_among b.origins origin)
      (keep (λ (b : CheckpointOriginBinding). str_eq b.key_id key_id) bindings)

abbrev pub allows : CheckpointOriginPolicy → Bytes → Text → Bool
allows p key_id origin = allows_bindings p.bindings key_id origin

abbrev pub new_policy : List CheckpointOriginBinding → Result CheckpointOriginPolicy Error
new_policy bindings = do
  reject_if (is_empty bindings) (codes "checkpoint origin policy must not be empty")
  ok (record { bindings = bindings })

abbrev pub build_origin_policy : CheckpointOriginPolicyBuilder → Result CheckpointOriginPolicy Error
build_origin_policy b = new_policy b.bindings

abbrev pub add_binding :
    CheckpointOriginPolicyBuilder → CheckpointOriginBinding → CheckpointOriginPolicyBuilder
add_binding b binding = record { bindings = b.bindings ++ binding ∷ [] }

-- `binding.origins.push(origin)`, unless it is there.
abbrev pub add_origin : CheckpointOriginBinding → Text → CheckpointOriginBinding
add_origin b origin = record {
  key_id = b.key_id;
  origins = if origin_among b.origins origin then b.origins else b.origins ++ origin ∷ [];
}

-- The first binding of the key takes the origin; where there is none, a new one is pushed.
unfoldable pub insert_origin :
    List CheckpointOriginBinding → Bytes → Text → List CheckpointOriginBinding
unfolding str_eq any
insert_origin [] key_id origin = record { key_id = key_id; origins = origin ∷ [] } ∷ []
insert_origin (b ∷ bindings) key_id origin = elim (str_eq b.key_id key_id) [
  | true ↦ add_origin b origin ∷ bindings
  | false ↦ b ∷ insert_origin bindings key_id origin
]

module _ (digest : Bytes → Bytes) where
  abbrev pub checkpoint_log_key_id : TransparencyLog → Bytes
  checkpoint_log_key_id log = digest log.public_key.raw_bytes

  abbrev pub new_binding : TransparencyLog → List Text → Result CheckpointOriginBinding Error
  unfolding validate_checkpoint_origins
  new_binding log origins = do
    origins ← validate_checkpoint_origins origins
    ok (record { key_id = checkpoint_log_key_id log; origins = origins })

  abbrev pub for_log : TransparencyLog → List Text → Result CheckpointOriginPolicy Error
  unfolding validate_checkpoint_origins
  for_log log origins = do binding ← new_binding log origins; new_policy (binding ∷ [])

  unfoldable pub allow_origin :
      CheckpointOriginPolicyBuilder
      → TransparencyLog
      → Text
      → Result CheckpointOriginPolicyBuilder Error
  unfolding validate_checkpoint_origin insert_origin
  allow_origin b log origin = do
    origin ← validate_checkpoint_origin origin
    ok (record { bindings = insert_origin b.bindings (checkpoint_log_key_id log) origin })

  unfoldable pub allow_origins :
      CheckpointOriginPolicyBuilder
      → TransparencyLog
      → List Text
      → Result CheckpointOriginPolicyBuilder Error
  unfolding allow_origin
  allow_origins b log [] = ok b
  allow_origins b log (origin ∷ origins) =
      allow_origin b log origin >>= λ b'. allow_origins b' log origins

pub record RepositoryIdentity : Type 0 where
  pub owner : Text
  pub name : Text
  pub owner_id : Option ℕ
  pub repository_id : Option ℕ

unfoldable pub new_repository : Text → Text → Result RepositoryIdentity Error
new_repository owner name = do
  reject_if (is_empty owner) (codes "repository owner must not be empty")
  reject_if (is_empty name) (codes "repository name must not be empty")
  ok (record { owner = owner; name = name; owner_id = none; repository_id = none })

module _ (debug_str : Text → Text) where
  unfoldable pub parse_repository : Text → Result RepositoryIdentity Error
  unfolding split_once contains new_repository
  parse_repository owner_slash_name = do
    (owner, name) ←
        ok_or (split_once owner_slash_name b'/')
          (policy_error (codes "expected \"owner/name\", got " ++ debug_str owner_slash_name))
    reject_if (contains name b'/')
        (codes "expected exactly one '/' in \"owner/name\", got " ++ debug_str owner_slash_name)
    new_repository owner name

abbrev pub with_owner_id : RepositoryIdentity → ℕ → RepositoryIdentity
with_owner_id r owner_id = record {
  owner = r.owner;
  name = r.name;
  owner_id = some owner_id;
  repository_id = r.repository_id;
}

abbrev pub with_repository_id : RepositoryIdentity → ℕ → RepositoryIdentity
with_repository_id r repository_id = record {
  owner = r.owner;
  name = r.name;
  owner_id = r.owner_id;
  repository_id = some repository_id;
}

pub data RefPolicy : Type 0 where
  exact : Text → RefPolicy
  glob : Text → RefPolicy

pub record WorkflowPath : Type 0 where
  pub path : Text

abbrev pub new_workflow_path : Text → Result WorkflowPath Error
new_workflow_path path = do
  reject_if (is_empty path) (codes "workflow path must not be empty")
  ok (record { path = path })

pub record CommitSha : Type 0 where
  pub bytes : Bytes

abbrev pub bad_commit : ParseError → Error
bad_commit e = policy_error (codes "invalid commit sha: " ++ display_parse e)

-- The crate hex decodes into exactly 20 bytes.
module _ (crates : Crates) where
  abbrev pub new_commit_sha : Text → Result CommitSha Error
  new_commit_sha sha =
      map_err (strict_hex crates 20 (codes "commit_sha") sha) bad_commit >>= λ bytes.
      ok (record { bytes = bytes })

abbrev pub to_hex : (Bytes → Text) → CommitSha → Text
to_hex hex_encode c = hex_encode c.bytes

pub data WorkflowRevisionPolicy : Type 0 where
  any_revision : WorkflowRevisionPolicy
  ref : Text → WorkflowRevisionPolicy
  sha : CommitSha → WorkflowRevisionPolicy

pub record SourcePolicy : Type 0 where
  pub repository : RepositoryIdentity
  pub git_ref : RefPolicy
  pub commit : Option CommitSha

pub record SignerPolicy : Type 0 where
  pub repository : RepositoryIdentity
  pub path : WorkflowPath
  pub revision : WorkflowRevisionPolicy

pub record GithubPolicy : Type 0 where
  pub source : SourcePolicy
  pub signer : SignerPolicy

pub record GithubPolicyBuilder : Type 0 where
  pub source : Option SourcePolicy
  pub signer : Option SignerPolicy

abbrev pub with_source : GithubPolicyBuilder → SourcePolicy → GithubPolicyBuilder
with_source b source = record { source = some source; signer = b.signer }

abbrev pub with_signer : GithubPolicyBuilder → SignerPolicy → GithubPolicyBuilder
with_signer b signer = record { source = b.source; signer = some signer }

unfoldable pub reject_signer_id_pins : SignerPolicy → Result (Unit {0}) Error
reject_signer_id_pins signer =
    reject_if (is_some signer.repository.owner_id || is_some signer.repository.repository_id) (
      codes
        "signer repository numeric id pins cannot be enforced: a Fulcio certificate carries no authenticated signer-repository owner or repository id claim, only the signer's owner/name in the SAN URI. Remove with_owner_id/with_repository_id from the signer repository (source-side numeric id pins are enforced)")

unfoldable pub build_github_policy : GithubPolicyBuilder → Result GithubPolicy Error
unfolding reject_signer_id_pins
build_github_policy b = do
  source ← ok_or b.source (policy_error (codes "source policy is required"))
  signer ← ok_or b.signer (policy_error (codes "signer policy is required"))
  reject_signer_id_pins signer
  ok (record { source = source; signer = signer })
