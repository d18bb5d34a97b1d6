-- ===== src/Policy/Identity.antt =====
-- The identities that a policy is made of, and the policy that its builder builds.
use attestation_verify.Prelude.{
  ◌≡◌, ◌↔◌, refl, subst, false, ◌||◌, ◌∷◌, ◌++◌, some, none, is_empty, is_some, ok, ok_or,
  ok_or-eq-ok, passed, refused_not, ok_inj, or_false, ℕ, length, map_err, map_err-eq-ok,
}
use attestation_verify.Errors.{hex}
use attestation_verify.Crates.{Crates}
use attestation_verify.ParseUtil.{strict_hex}
use attestation_verify.Prelude.Text.{Bytes, codes, Text, split_once, contains}
use attestation_verify.Prelude.Text.Pieces.{split_once_sound, split_once-append}
use attestation_verify.Policy.{
  RepositoryIdentity, new_repository, parse_repository, GithubPolicy, GithubPolicyBuilder,
  reject_signer_id_pins, build_github_policy, CommitSha, bad_commit, new_commit_sha,
}

abbrev pub IsOwnerName : Text → RepositoryIdentity → Type 0
IsOwnerName s r =
    (s ≡ r.owner ++ (b'/' ∷ r.name))
    × (is_empty r.owner ≡ false)
    × (is_empty r.name ≡ false)
    × (contains r.owner b'/' ≡ false)
    × (contains r.name b'/' ≡ false)
    × (r.owner_id ≡ none)
    × (r.repository_id ≡ none)

module _ (debug_str : Text → Text) where
  parse_repository_sound :
      (s : Text) (r : RepositoryIdentity) → parse_repository debug_str s ≡ ok r → IsOwnerName s r
  unfolding parse_repository new_repository
  parse_repository_sound s r e = passed (ok_or (split_once s b'/') _) _ e (λ (owner, name) parts e.
      refused_not (contains name b'/') _ _ e (λ single e.
        refused_not (is_empty owner) _ _ e (λ owned e. refused_not (is_empty name) _ _ e (λ named e.
          let (cut, first) = split_once_sound s b'/' (ok_or-eq-ok _ _ parts) in
          subst (IsOwnerName s) (ok_inj e) (cut, owned, named, first, single, refl, refl)))))

  parse_repository_complete :
      (s : Text) (r : RepositoryIdentity) → IsOwnerName s r → parse_repository debug_str s ≡ ok r
  unfolding parse_repository new_repository
  parse_repository_complete s r (whole, owned, named, first, single, no_id, no_repo) = rw whole (
      rw (split_once-append r.owner r.name b'/' first, parse_repository)
        (rw single (rw owned (rw named (rw no_id (rw no_repo refl))))))

  -- "owner/name" is parsed exactly when both sides of its only "/" are not empty, into these sides
  -- with no id pinned.
  pub parse_repository_iff :
      (s : Text) (r : RepositoryIdentity) → (parse_repository debug_str s ≡ ok r) ↔ IsOwnerName s r
  parse_repository_iff s r = (parse_repository_sound s r, parse_repository_complete s r)

-- A policy is built exactly when both halves were given and the signer's repository pins no id, and
-- it is made of these halves.
pub build_github_policy_iff :
    (b : GithubPolicyBuilder) (p : GithubPolicy)
    → (build_github_policy b ≡ ok p) ↔ (
        (b.source ≡ some p.source)
        × (b.signer ≡ some p.signer)
        × (is_some p.signer.repository.owner_id ≡ false)
        × (is_some p.signer.repository.repository_id ≡ false))
unfolding build_github_policy reject_signer_id_pins
build_github_policy_iff b p = (
  (λ e. passed (ok_or b.source _) _ e (λ source sourced e.
      passed (ok_or b.signer _) _ e (λ signer signed e.
        refused_not (is_some signer.repository.owner_id || is_some signer.repository.repository_id)
          _ _ e
          (λ unpinned e.
            let (no_owner, no_repo) = or_false _ _ unpinned in
            subst
              (λ (q : GithubPolicy).
                (b.source ≡ some q.source)
                × (b.signer ≡ some q.signer)
                × (is_some q.signer.repository.owner_id ≡ false)
                × (is_some q.signer.repository.repository_id ≡ false))
              (ok_inj e) (ok_or-eq-ok _ _ sourced, ok_or-eq-ok _ _ signed, no_owner, no_repo))))),
  λ (sourced, signed, no_owner, no_repo). rw sourced (rw signed (rw no_owner (rw no_repo refl))),
)

-- A commit pin that is made of a text has 20 bytes, the ones that the text stands for; the crate's
-- decoder gives as many bytes as it is asked for.
pub new_commit_sha-decoded :
    (crates : Crates)
    → ((n : ℕ) (s : Text) (b : Bytes) → crates.hex_decode n s ≡ ok b → length b ≡ n)
    → (sha : Text) (c : CommitSha) → new_commit_sha crates sha ≡ ok c
    → (length c.bytes ≡ 20) × (crates.hex_decode 20 sha ≡ ok c.bytes)
new_commit_sha-decoded crates sized sha c e =
    passed (map_err (strict_hex crates 20 (codes "commit_sha") sha) _) _ e (λ b made e.
      let decoded =
        map_err-eq-ok (crates.hex_decode 20 sha) (hex (codes "commit_sha"))
          (map_err-eq-ok (strict_hex crates 20 (codes "commit_sha") sha) bad_commit made) in
      subst (λ (d : CommitSha). (length d.bytes ≡ 20) × (crates.hex_decode 20 sha ≡ ok d.bytes))
        (ok_inj e) (sized 20 sha b decoded, decoded))
