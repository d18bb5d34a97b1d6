-- ===== src/Conformance/Identity.antt =====
-- tools/conformance/src/main.rs: the GitHub workflow identity that an invocation names.
pub mod Accepts
use attestation_verify.Prelude.{
  Bool, ltb, not, Option, none, some, ◌++◌, [], ◌∷◌, length, is_empty, Result, ok, err, ◌>>=◌, ◌>>◌,
  if◌then◌else◌, String,
}
use attestation_verify.Prelude.Text.{Text, codes, split_once, strip_prefix, starts_with}
use attestation_verify.PolicyMatch.Uris.{next_part, next_part_of, non_empty}
use attestation_verify.Conformance.Failures.{Failure, refuse_if, ok_or_message}

abbrev pub github_identity_prefix : Text
unfolding codes
github_identity_prefix = codes "https://github.com/"

abbrev pub client_path_prefix : Text
unfolding codes
client_path_prefix = codes ".github/workflows/"

pub record GithubIdentity : Type 0 where
  pub repository : Text
  pub workflow_path : Text
  pub workflow_ref : Text

-- The two filters on the third part.
abbrev pub workflow_file : Option Text → Option Text
workflow_file none = none
workflow_file (some s) =
    if starts_with s client_path_prefix
    then (if ltb (length client_path_prefix) (length s) then some s else none)
    else none

module _ (debug_str : Text → Text) where
  unfoldable pub parse_github_identity : Text → Result GithubIdentity Failure
  unfolding strip_prefix split_once starts_with
  parse_github_identity identity = do
    rest ← ok_or_message (strip_prefix identity github_identity_prefix) (
        codes "unsupported certificate identity "
        ++ (debug_str identity ++ codes ": expected a GitHub workflow URI"))
    (repository_and_path, workflow_ref) ←
        ok_or_message (split_once rest b'@')
          (codes "certificate identity is missing the workflow @revision separator")
    refuse_if (is_empty workflow_ref) (codes "certificate identity has an empty workflow revision")
    let (first, behind_first) = next_part repository_and_path
    owner ←
        ok_or_message (non_empty (some first))
          (codes "certificate identity is missing the GitHub repository owner")
    let (second, third) = next_part_of behind_first
    name ←
        ok_or_message (non_empty second)
          (codes "certificate identity is missing the GitHub repository name")
    workflow_path ←
        ok_or_message (workflow_file third)
          (codes "certificate identity is missing a .github/workflows/ path")
    ok (record {
      repository = owner ++ (b'/' ∷ name);
      workflow_path = workflow_path;
      workflow_ref = workflow_ref;
    })
