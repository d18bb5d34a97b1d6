-- ===== src/PolicyMatch/Uris.antt =====
-- src/policy_match.rs: the claims that are GitHub URIs, and how they are taken apart.
pub mod Accepts
use attestation_verify.Prelude.{
  ◌||◌, not, Option, none, some, ◌++◌, is_empty, if◌then◌else◌, Result, ok, err, ◌>>=◌, ◌>>◌, ok_or,
  Bool, true, false,
}
use attestation_verify.Prelude.Text.{Text, codes, contains, split_once, strip_prefix, starts_with}
use attestation_verify.Errors.{Error, policy, missing_identity_claim, malformed_identity_claim}

abbrev pub github_uri_prefix : Text
unfolding codes
github_uri_prefix = codes "https://github.com/"

abbrev pub workflow_path_prefix : Text
unfolding codes
workflow_path_prefix = codes ".github/workflows/"

abbrev pub require_claim : Option Text → Text → Result Text Error
require_claim claim name = ok_or claim (policy (missing_identity_claim name))

abbrev pub malformed_claim : Text → Text → Error
malformed_claim claim reason = policy (malformed_identity_claim claim reason)

abbrev pub reject_claim : Bool → Text → Text → Result (Unit {0}) Error
reject_claim test claim reason = if test then err (malformed_claim claim reason) else ok tt

unfoldable pub parse_github_repo_uri : Text → Text → Result (Text × Text) Error
unfolding strip_prefix split_once contains
parse_github_repo_uri uri claim = do
  rest ←
      ok_or (strip_prefix uri github_uri_prefix)
        (malformed_claim claim (codes "missing \"https://github.com/\" prefix"))
  (owner, name) ←
      ok_or (split_once rest b'/')
        (malformed_claim claim (codes "missing '/' between owner and repository name"))
  reject_claim (is_empty owner || is_empty name) claim (codes "empty owner or repository name")
  reject_claim (contains name b'/') claim
      (codes "unexpected extra path segment after repository name")
  ok (owner, name)

pub record SignerUriParts : Type 0 where
  pub owner : Text
  pub name : Text
  pub workflow_path : Text
  pub git_ref : Text

abbrev pub cut : Text → Option (Text × Text) → Text × Option Text
cut s none = (s, none)
cut s (some (a, b)) = (a, some b)

-- `parts.next()` of a `splitn`: the piece in front of the separator, or all that is left, and what
-- is left behind it.
abbrev pub next_part : Text → Text × Option Text
next_part s = cut s (split_once s b'/')

-- The second `parts.next()`: there is none when the first one took everything.
abbrev pub next_part_of : Option Text → Option Text × Option Text
next_part_of none = (none, none)
next_part_of (some s) = let (a, b) = next_part s in (some a, b)

-- `.filter(|s| !s.is_empty())`
abbrev pub non_empty : Option Text → Option Text
non_empty none = none
non_empty (some s) = if is_empty s then none else some s

abbrev san_claim : Text
san_claim = codes "san_uri"

unfoldable pub parse_signer_san_uri : Text → Result SignerUriParts Error
unfolding strip_prefix split_once contains starts_with
parse_signer_san_uri uri = do
  rest ←
      ok_or (strip_prefix uri github_uri_prefix)
        (malformed_claim san_claim (codes "missing \"https://github.com/\" prefix"))
  (repo_and_path, git_ref) ←
      ok_or (split_once rest b'@')
        (malformed_claim san_claim (codes "missing '@' revision separator"))
  reject_claim (contains git_ref b'@') san_claim
      (codes "ambiguous additional '@' in workflow identity")
  reject_claim (is_empty git_ref) san_claim (codes "empty revision after '@'")
  let (first, behind_first) = next_part repo_and_path
  owner ←
      ok_or (non_empty (some first)) (malformed_claim san_claim (codes "missing repository owner"))
  let (second, third) = next_part_of behind_first
  name ← ok_or (non_empty second) (malformed_claim san_claim (codes "missing repository name"))
  workflow_path ← ok_or third (malformed_claim san_claim (codes "missing workflow path"))
  reject_claim (not (starts_with workflow_path workflow_path_prefix)) san_claim
      (codes "workflow path does not start with \".github/workflows/\"")
  ok (record { owner = owner; name = name; workflow_path = workflow_path; git_ref = git_ref })
