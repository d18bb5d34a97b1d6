-- ===== src/Conformance/Identity/Accepts.antt =====
-- Which workflow identities the client of tools/conformance/src/main.rs accepts.
use attestation_verify.Prelude.{
  ◌≡◌, ◌↔◌, ◌<◌, refl, sym, ap, ap₂, subst, ◌∙◌, ◌∷◌, ◌++◌, true, false, ok, some, none, Option,
  is_empty, length, ltb, ltb→lt, lt→ltb, passed, refused_not, ok_inj, some_inj, ok_or-eq-ok, ok_or,
  Bool-cases, inl, inr,
}
use attestation_verify.Prelude.Text.{Text, contains, split_once, strip_prefix, starts_with}
use attestation_verify.Prelude.Text.Pieces.{
  strip_prefix_sound, strip_prefix-append, split_once_sound, split_once-append,
}
use attestation_verify.PolicyMatch.Uris.{next_part, next_part_of, non_empty}
use attestation_verify.PolicyMatch.Uris.Accepts.{
  next_part_sound, non_empty_sound, next_part_of_sound,
}
use attestation_verify.Conformance.Identity.{
  github_identity_prefix, client_path_prefix, GithubIdentity, workflow_file, parse_github_identity,
}

-- `{owner}/{name}/{path}`
abbrev pub front : Text → Text → Text → Text
front owner name path = owner ++ (b'/' ∷ (name ++ (b'/' ∷ path)))

-- An identity is `https://github.com/{owner}/{name}/{path}@{ref}`.
abbrev pub IsIdentity : Text → GithubIdentity → Type 0
IsIdentity identity p =
    (owner : Text) × (name : Text) × (identity
      ≡ github_identity_prefix ++ (front owner name p.workflow_path ++ (b'@' ∷ p.workflow_ref)))
    × (p.repository ≡ owner ++ (b'/' ∷ name))
    × (is_empty owner ≡ false)
    × (is_empty name ≡ false)
    × (is_empty p.workflow_ref ≡ false)
    × (contains owner b'/' ≡ false)
    × (contains name b'/' ≡ false)
    × (contains (front owner name p.workflow_path) b'@' ≡ false)
    × (starts_with p.workflow_path client_path_prefix ≡ true)
    × (length client_path_prefix < length p.workflow_path)

workflow_file_sound :
    (o : Option Text) {path : Text}
    → workflow_file o ≡ some path
    → (o ≡ some path)
      × (starts_with path client_path_prefix ≡ true)
      × (length client_path_prefix < length path)
workflow_file_sound none e = cc
workflow_file_sound (some s) {path} e = elim (Bool-cases (starts_with s client_path_prefix)) [
  | inr other ↦ absurd (cc (rw other at e))
  | inl prefixed ↦ elim (Bool-cases (ltb (length client_path_prefix) (length s))) [
    | inr short ↦ absurd (cc (rw (prefixed, short) at e))
    | inl longer ↦
        let same : ◌≡◌ {A = Option Text} (some s) (some path) = rw (prefixed, longer) at e in
        subst
          (λ (t : Text).
            ◌≡◌ {A = Option Text} (some s) (some t)
            × (starts_with t client_path_prefix ≡ true)
            × (length client_path_prefix < length t))
          (some_inj same) (refl, prefixed, ltb→lt _ _ longer)
  ]
]

parse_sound :
    (debug_str : Text → Text) (identity : Text) (p : GithubIdentity)
    → parse_github_identity debug_str identity ≡ ok p
    → IsIdentity identity p
unfolding parse_github_identity
parse_sound debug_str identity p e =
    passed (ok_or (strip_prefix identity github_identity_prefix) _) _ e (λ rest found e.
      passed (ok_or (split_once rest b'@') _) _ e (λ (parts, ref) cut e.
        refused_not (is_empty ref) _ _ e (λ filled e.
          passed (ok_or (non_empty (some (next_part parts).0)) _) _ e (λ owner owned e.
            passed (ok_or (non_empty (next_part_of (next_part parts).1).0) _) _ e (λ name named e.
              passed (ok_or (workflow_file (next_part_of (next_part parts).1).1) _) _ e
                (λ path pathed e.
                  let whole =
                    strip_prefix_sound identity github_identity_prefix (ok_or-eq-ok _ _ found) in
                  let (rest_is, single) = split_once_sound rest b'@' (ok_or-eq-ok _ _ cut) in
                  let (owner_is, owner_filled) =
                    non_empty_sound (some (next_part parts).0) (ok_or-eq-ok _ _ owned) in
                  let (third, prefixed, longer) =
                    workflow_file_sound (next_part_of (next_part parts).1).1
                      (ok_or-eq-ok _ _ pathed) in
                  let (s, behind, tail, name_filled, name_single) =
                    next_part_of_sound (next_part parts).1 (ok_or-eq-ok _ _ named) third in
                  let (head, owner_single) = next_part_sound parts behind in
                  let o = some_inj owner_is in
                  let parts_is : parts ≡ front owner name path =
                    head ∙ ap₂ (λ (t u : Text). t ++ (b'/' ∷ u)) o tail in
                  subst (IsIdentity identity) (ok_inj e) (
                    owner,
                    name,
                    whole
                        ∙ ap (λ (t : Text). github_identity_prefix ++ t)
                            (rest_is ∙ ap (λ (t : Text). t ++ (b'@' ∷ ref)) parts_is),
                    refl,
                    owner_filled,
                    name_filled,
                    filled,
                    ap (λ (t : Text). contains t b'/') (sym o) ∙ owner_single,
                    name_single,
                    ap (λ (t : Text). contains t b'@') (sym parts_is) ∙ single,
                    prefixed,
                    longer,
                  )))))))

parse_complete :
    (debug_str : Text → Text) (identity : Text) (p : GithubIdentity)
    → IsIdentity identity p
    → parse_github_identity debug_str identity ≡ ok p
unfolding parse_github_identity
parse_complete debug_str identity p
      (owner, name, whole, repository, owned, named, filled, o, n, at, prefixed, longer) =
    rw whole (
      rw
        (
          strip_prefix-append github_identity_prefix
              (front owner name p.workflow_path ++ (b'@' ∷ p.workflow_ref)),
          parse_github_identity,
        )
        (rw (split_once-append (front owner name p.workflow_path) p.workflow_ref b'@' at) (
          rw filled (
            rw (split_once-append owner (name ++ (b'/' ∷ p.workflow_path)) b'/' o) (
              rw owned (
                rw (split_once-append name p.workflow_path b'/' n)
                  (rw named (rw prefixed (rw (lt→ltb _ _ longer) (rw repository refl))))))))))

-- The client accepts an identity exactly when it is `https://github.com/{owner}/{name}/{path}@{ref}`
-- for a nonempty owner, name and ref, no "/" in owner or name, no "@" in front of the ref, and a path
-- that goes on behind `.github/workflows/`; the repository, the path and the ref are what is returned.
pub parse_github_identity_iff :
    (debug_str : Text → Text) (identity : Text) (p : GithubIdentity)
    → (parse_github_identity debug_str identity ≡ ok p) ↔ IsIdentity identity p
parse_github_identity_iff debug_str identity p =
    (parse_sound debug_str identity p, parse_complete debug_str identity p)
