-- ===== src/PolicyMatch/Uris/Accepts.antt =====
-- The two parsers of claims accept exactly the URIs of their shape, and take them apart without loss.
use attestation_verify.Prelude.{
  ◌≡◌, ◌↔◌, refl, sym, ap, ap₂, ◌∙◌, ◌∷◌, [], ◌++◌, true, false, not, ◌||◌, ok, some, none, Option,
  is_empty, passed, refused_not, subst, ok_inj, some_inj, inl, inr, ok_or-eq-ok, Option-cases,
  arith, ok_or,
}
use attestation_verify.Prelude.Text.{Text, contains, split_once, strip_prefix, starts_with}
use attestation_verify.Prelude.Text.Pieces.{
  strip_prefix_sound, strip_prefix-append, split_once_sound, split_once-append,
}
use attestation_verify.PolicyMatch.Uris.{
  github_uri_prefix, workflow_path_prefix, parse_github_repo_uri, parse_signer_san_uri,
  SignerUriParts, next_part, next_part_of, non_empty,
}

-- `https://github.com/{owner}/{name}`
abbrev pub repo_uri : Text → Text → Text
repo_uri owner name = github_uri_prefix ++ (owner ++ (b'/' ∷ name))

abbrev pub IsRepository : Text → Text → Type 0
IsRepository owner name =
    (is_empty owner ≡ false)
    × (is_empty name ≡ false)
    × (contains owner b'/' ≡ false)
    × (contains name b'/' ≡ false)

repo_uri_sound :
    (uri claim owner name : Text)
    → parse_github_repo_uri uri claim ≡ ok (owner, name)
    → (uri ≡ repo_uri owner name) × IsRepository owner name
unfolding parse_github_repo_uri
repo_uri_sound uri claim owner name e =
    passed (ok_or (strip_prefix uri github_uri_prefix) _) _ e (λ rest found e.
      passed (ok_or (split_once rest b'/') _) _ e (λ (o, n) parts e.
        refused_not (is_empty o || is_empty n) _ _ e (λ filled e.
          refused_not (contains n b'/') _ _ e (λ single e.
            let whole = strip_prefix_sound uri github_uri_prefix (ok_or-eq-ok _ _ found) in
            let (cut, first) = split_once_sound rest b'/' (ok_or-eq-ok _ _ parts) in
            subst (λ (t : Text × Text). (uri ≡ repo_uri t.0 t.1) × IsRepository t.0 t.1) (ok_inj e)
              (
                (whole ∙ ap (λ (t : Text). github_uri_prefix ++ t) cut),
                ((ground arith), (ground arith), first, single),
              )))))

repo_uri_complete :
    (claim owner name : Text)
    → IsRepository owner name
    → parse_github_repo_uri (repo_uri owner name) claim ≡ ok (owner, name)
unfolding parse_github_repo_uri
repo_uri_complete claim owner name (filled, named, first, single) =
    rw (strip_prefix-append github_uri_prefix (owner ++ (b'/' ∷ name)), parse_github_repo_uri)
      (rw (split_once-append owner name b'/' first) (rw filled (rw named (rw single))))

-- A repository claim is accepted exactly when it is `https://github.com/{owner}/{name}` for a
-- nonempty owner and a nonempty name without a "/" in either, and these are what is returned.
pub parse_github_repo_uri_iff :
    (uri claim owner name : Text)
    → (parse_github_repo_uri uri claim ≡ ok (owner, name))
      ↔ ((uri ≡ repo_uri owner name) × IsRepository owner name)
parse_github_repo_uri_iff uri claim owner name = (
  repo_uri_sound uri claim owner name,
  λ (e, h).
      ap (λ (t : Text). parse_github_repo_uri t claim) e ∙ repo_uri_complete claim owner name h,
)

-- `{owner}/{name}/{workflow_path}`
abbrev pub repo_and_path : SignerUriParts → Text
repo_and_path p = p.owner ++ (b'/' ∷ (p.name ++ (b'/' ∷ p.workflow_path)))

-- `https://github.com/{owner}/{name}/{workflow_path}@{ref}`
abbrev pub san_uri : SignerUriParts → Text
san_uri p = github_uri_prefix ++ (repo_and_path p ++ (b'@' ∷ p.git_ref))

-- The shape of a workflow identity: the pieces that must not be empty, one "@" only, and a workflow
-- file below `.github/workflows/`.
abbrev pub IsWorkflowIdentity : SignerUriParts → Type 0
IsWorkflowIdentity p =
    (is_empty p.owner ≡ false)
    × (is_empty p.name ≡ false)
    × (is_empty p.git_ref ≡ false)
    × (contains p.owner b'/' ≡ false)
    × (contains p.name b'/' ≡ false)
    × (contains (repo_and_path p) b'@' ≡ false)
    × (contains p.git_ref b'@' ≡ false)
    × (starts_with p.workflow_path workflow_path_prefix ≡ true)

-- What the two pieces of `splitn` are, when both are there.
pub next_part_sound :
    (s : Text) {behind : Text}
    → (next_part s).1 ≡ some behind
    → (s ≡ (next_part s).0 ++ (b'/' ∷ behind)) × (contains (next_part s).0 b'/' ≡ false)
next_part_sound s {behind} e = elim (Option-cases (split_once s b'/')) [
  | inl missing ↦ absurd (cc (rw missing at e))
  | inr ((a, b), found) ↦
      let (cut, absent) = split_once_sound s b'/' found in
      let b_is : b ≡ behind = some_inj (rw found at e) in
      rw found (cut ∙ ap (λ (t : Text). a ++ (b'/' ∷ t)) b_is, absent)
]

pub non_empty_sound :
    (o : Option Text) {s : Text} → non_empty o ≡ some s → (o ≡ some s) × (is_empty s ≡ false)
non_empty_sound none e = cc
non_empty_sound (some []) e = cc
non_empty_sound (some (x ∷ t)) e = (e, ap is_empty (sym (some_inj e)))

pub next_part_of_sound :
    (o : Option Text) {name path : Text}
    → non_empty (next_part_of o).0 ≡ some name
    → (next_part_of o).1 ≡ some path
    → (s : Text) × (o ≡ some s)
      × (s ≡ name ++ (b'/' ∷ path))
      × (is_empty name ≡ false)
      × (contains name b'/' ≡ false)
next_part_of_sound none e e' = cc
next_part_of_sound (some s) {name} {path} e e' =
    let (name_is, filled) = non_empty_sound (some (next_part s).0) e in
    let (cut, absent) = next_part_sound s e' in
    let n = some_inj name_is in
    (
      s,
      refl,
      cut ∙ ap (λ (t : Text). t ++ (b'/' ∷ path)) n,
      filled,
      ap (λ (t : Text). contains t b'/') (sym n) ∙ absent,
    )

san_uri_sound :
    (uri : Text) (p : SignerUriParts)
    → parse_signer_san_uri uri ≡ ok p
    → (uri ≡ san_uri p) × IsWorkflowIdentity p
unfolding parse_signer_san_uri
san_uri_sound uri p e = passed (ok_or (strip_prefix uri github_uri_prefix) _) _ e (λ rest found e.
    passed (ok_or (split_once rest b'@') _) _ e (λ (front, git_ref) parts e.
      refused_not (contains git_ref b'@') _ _ e (λ single e.
        refused_not (is_empty git_ref) _ _ e (λ filled e.
          passed (ok_or (non_empty (some (next_part front).0)) _) _ e (λ owner owned e.
            passed (ok_or (non_empty (next_part_of (next_part front).1).0) _) _ e (λ name named e.
              passed (ok_or (next_part_of (next_part front).1).1 _) _ e (λ path pathed e.
                refused_not (not (starts_with path workflow_path_prefix)) _ _ e (λ prefixed e.
                  let whole_front =
                    strip_prefix_sound uri github_uri_prefix (ok_or-eq-ok _ _ found) in
                  let front_is = split_once_sound rest b'@' (ok_or-eq-ok _ _ parts) in
                  let (owner_is, owner_filled) =
                    non_empty_sound (some (next_part front).0) (ok_or-eq-ok _ _ owned) in
                  let (s, behind, tail, name_filled, name_single) =
                    next_part_of_sound (next_part front).1 (ok_or-eq-ok _ _ named)
                      (ok_or-eq-ok _ _ pathed) in
                  let (head, owner_single) = next_part_sound front behind in
                  let o = some_inj owner_is in
                  let front_whole : front ≡ owner ++ (b'/' ∷ (name ++ (b'/' ∷ path))) =
                    head ∙ ap₂ (λ (t u : Text). t ++ (b'/' ∷ u)) o tail in
                  subst (λ (q : SignerUriParts). (uri ≡ san_uri q) × IsWorkflowIdentity q)
                    (ok_inj e)
                    (
                      whole_front
                          ∙ ap (λ (t : Text). github_uri_prefix ++ t)
                              (front_is.0 ∙ ap (λ (t : Text). t ++ (b'@' ∷ git_ref)) front_whole),
                      (
                        owner_filled,
                        name_filled,
                        filled,
                        ap (λ (t : Text). contains t b'/') (sym o) ∙ owner_single,
                        name_single,
                        ap (λ (t : Text). contains t b'@') (sym front_whole) ∙ front_is.1,
                        single,
                        ground arith,
                      ),
                    )))))))))

san_uri_complete :
    (p : SignerUriParts) → IsWorkflowIdentity p → parse_signer_san_uri (san_uri p) ≡ ok p
unfolding parse_signer_san_uri
san_uri_complete p (owned, named, filled, o, n, at, at', prefixed) =
    rw
      (
        strip_prefix-append github_uri_prefix (repo_and_path p ++ (b'@' ∷ p.git_ref)),
        parse_signer_san_uri,
      )
      (rw (split_once-append (repo_and_path p) p.git_ref b'@' at) (
        rw at' (
          rw filled (
            rw (split_once-append p.owner (p.name ++ (b'/' ∷ p.workflow_path)) b'/' o) (
              rw owned
                (rw (split_once-append p.name p.workflow_path b'/' n) (rw named (rw prefixed))))))))

-- A signer identity is accepted exactly when it is `https://github.com/{owner}/{name}/{path}@{ref}`
-- for a nonempty owner, name and ref, a path below `.github/workflows/`, no "/" in owner or name, and
-- no second "@" anywhere; its pieces are what is returned.
pub parse_signer_san_uri_iff :
    (uri : Text) (p : SignerUriParts)
    → (parse_signer_san_uri uri ≡ ok p) ↔ ((uri ≡ san_uri p) × IsWorkflowIdentity p)
parse_signer_san_uri_iff uri p =
    (san_uri_sound uri p, λ (e, h). ap parse_signer_san_uri e ∙ san_uri_complete p h)
