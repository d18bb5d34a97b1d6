-- ===== src/PolicyMatch/Satisfies/Decides.antt =====
-- The checks of `match_policy`, each with what it decides, and `match_policy` itself.
use attestation_verify.Prelude.{
  ℕ, ◌≡◌, ◌↔◌, refl, sym, ap, ◌∙◌, Option, some, none, Bool, true, false, ok, passed, ok_or-eq-ok,
  subst, and_true, true_and,
}
use attestation_verify.Prelude.Text.{Bytes, Text, codes}
use attestation_verify.Prelude.Text.Laws.{
  str_eq→eq, eq→str_eq, str_eq_refl, eq_ignore_ascii_case_iff,
}
use attestation_verify.Prelude.Decimal.{to_string}
use attestation_verify.Errors.{
  PolicyError, source_repository_mismatch, signer_repository_mismatch, source_owner_id_mismatch,
  source_repository_id_mismatch,
}
use attestation_verify.Policy.{
  RepositoryIdentity, RefPolicy, exact, glob, WorkflowRevisionPolicy, any_revision, ref, sha,
  CommitSha, GithubPolicy,
}
use attestation_verify.Fulcio.{FulcioClaims}
use attestation_verify.PolicyMatch.{
  MatchedIdentity, expected_issuer, demand, check_repository_match, check_pinned_id,
  check_ref_policy, check_source_commit, check_signer_revision, match_policy,
}
use attestation_verify.PolicyMatch.Glob.Decides.{glob_match_iff}
use attestation_verify.PolicyMatch.Uris.{SignerUriParts, require_claim}
use attestation_verify.PolicyMatch.Uris.Accepts.{
  repo_uri, san_uri, parse_github_repo_uri_iff, parse_signer_san_uri_iff,
}
use attestation_verify.PolicyMatch.Satisfies.Ran.{match_policy-Ran}
use attestation_verify.PolicyMatch.Satisfies.{
  SameLetters, IsExpectedRepository, HasPinnedId, IsRef, HasSourceCommit, HasRevision, Satisfies,
  matched,
}

demanded : (test : Bool) (e : PolicyError) → demand test e ≡ ok tt → test ≡ true
demanded true e h = refl
demanded false e h = cc

meet : {test : Bool} (e : PolicyError) → test ≡ true → demand test e ≡ ok tt
meet e h = rw h

check_repository_match_iff :
    (owner name : Text) (expected : RepositoryIdentity) (make_err : Text → Text → PolicyError)
    → (check_repository_match owner name expected make_err ≡ ok tt)
      ↔ IsExpectedRepository owner name expected
unfolding check_repository_match
check_repository_match_iff owner name expected make_err =
    let o = eq_ignore_ascii_case_iff owner expected.owner in
    let n = eq_ignore_ascii_case_iff name expected.name in
    (
      (λ h. let (p, q) = and_true _ _ (demanded _ _ h) in (o.0 p, n.0 q)),
      λ (p, q). meet _ (true_and (o.1 p) (n.1 q)),
    )

check_pinned_id_iff :
    (id : Option ℕ) (claim : Option Text) (claim_name : Text) (make_err : Text → Text → PolicyError)
    → (check_pinned_id id claim claim_name make_err ≡ ok tt) ↔ HasPinnedId id claim
unfolding check_pinned_id
check_pinned_id_iff none claim claim_name make_err = (λ h. tt, λ h. refl)
check_pinned_id_iff (some n) none claim_name make_err = (λ h. absurd (cc h), λ h. absurd (cc h))
check_pinned_id_iff (some n) (some found) claim_name make_err = (
  λ h. ap some (str_eq→eq found (to_string n) (demanded _ _ h)),
  λ h. meet _ (eq→str_eq found (to_string n) (cc h)),
)

check_ref_policy_iff :
    (found : Text) (p : RefPolicy) → (check_ref_policy found p ≡ ok tt) ↔ IsRef found p
unfolding check_ref_policy
check_ref_policy_iff found (exact expected) =
    (λ h. str_eq→eq found expected (demanded _ _ h), λ h. meet _ (eq→str_eq found expected h))
check_ref_policy_iff found (glob pattern) =
    let decides = (glob_match_iff pattern found).1 in
    (λ h. decides.0 (demanded _ _ h), λ h. meet _ (decides.1 h))

module _ (hex_encode : Bytes → Text) where
  check_source_commit_iff :
      (commit : Option CommitSha) (claim : Option Text)
      → (check_source_commit hex_encode commit claim ≡ ok tt)
        ↔ HasSourceCommit hex_encode commit claim
  unfolding check_source_commit
  check_source_commit_iff none claim = (λ h. tt, λ h. refl)
  check_source_commit_iff (some c) none = (λ h. absurd (cc h), λ (found, e, h). absurd (cc e))
  check_source_commit_iff (some c) (some found) =
      let same = eq_ignore_ascii_case_iff found (hex_encode c.bytes) in
      (
        λ h. (found, refl, same.0 (demanded _ _ h)),
        λ (f, e, h).
            meet _ (same.1 (subst (λ (t : Text). SameLetters t (hex_encode c.bytes)) (cc e) h)),
      )

  check_signer_revision_iff :
      (claims : FulcioClaims) (signer : SignerUriParts) (p : WorkflowRevisionPolicy)
      → (check_signer_revision hex_encode claims signer p ≡ ok tt)
        ↔ HasRevision hex_encode claims signer p
  unfolding check_signer_revision
  check_signer_revision_iff claims signer any_revision = (λ h. tt, λ h. refl)
  check_signer_revision_iff claims signer (ref expected) = (
    λ h. str_eq→eq signer.git_ref expected (demanded _ _ h),
    λ h. meet _ (eq→str_eq signer.git_ref expected h),
  )
  check_signer_revision_iff claims signer (sha c) = (
    λ h. passed (require_claim claims.build_signer_digest _) _ h (λ found e h. (
      found,
      ok_or-eq-ok _ _ e,
      (eq_ignore_ascii_case_iff found (hex_encode c.bytes)).0 (demanded _ _ h),
    )),
    λ (found, e, h). rw e (meet _ ((eq_ignore_ascii_case_iff found (hex_encode c.bytes)).1 h)),
  )

  match_policy_sound :
      (claims : FulcioClaims) (required : GithubPolicy) (m : MatchedIdentity)
      → match_policy hex_encode claims required ≡ ok m
      → Satisfies hex_encode claims required m
  match_policy_sound claims required m e =
      let (
        issuer, source_uri, owner, name, source_ref, uri, signer, issued, pinned, sourced, parsed,
        repo, owner_id, repo_id, reffed, on_ref, on_commit, sanned, signed, by, path, revised, m_is,
      ) =
        match_policy-Ran hex_encode claims required m e in
      let source = required.source in
      let issuer_is = str_eq→eq issuer expected_issuer pinned in
      let (uri_is, repository) =
        (parse_github_repo_uri_iff source_uri (codes "source_repository_uri") owner name).0
          parsed in
      let (san_is, identity) = (parse_signer_san_uri_iff uri signer).0 signed in
      (
        owner,
        name,
        source_ref,
        signer,
        issued ∙ ap some issuer_is,
        sourced ∙ ap some uri_is,
        repository,
        (check_repository_match_iff owner name source.repository source_repository_mismatch).0 repo,
        (check_pinned_id_iff source.repository.owner_id claims.source_repository_owner_id
              (codes "source_repository_owner_id") source_owner_id_mismatch).0
            owner_id,
        (check_pinned_id_iff source.repository.repository_id claims.source_repository_id
              (codes "source_repository_id") source_repository_id_mismatch).0
            repo_id,
        reffed,
        (check_ref_policy_iff source_ref source.git_ref).0 on_ref,
        (check_source_commit_iff source.commit claims.source_repository_digest).0 on_commit,
        sanned ∙ ap some san_is,
        identity,
        (check_repository_match_iff signer.owner signer.name required.signer.repository
              signer_repository_mismatch).0
            by,
        str_eq→eq signer.workflow_path required.signer.path.path path,
        (check_signer_revision_iff claims signer required.signer.revision).0 revised,
        m_is ∙ ap (λ (i : Text). matched i owner name source_ref signer) issuer_is,
      )

  match_policy_complete :
      (claims : FulcioClaims) (required : GithubPolicy) (m : MatchedIdentity)
      → Satisfies hex_encode claims required m
      → match_policy hex_encode claims required ≡ ok m
  unfolding match_policy
  match_policy_complete claims required m
        (
          owner, name, source_ref, signer, issued, sourced, repository, repo, owner_id, repo_id,
          reffed, on_ref, on_commit, sanned, identity, by, path, revised, m_is,
        ) =
      rw issued (
        rw (str_eq_refl expected_issuer) (
          rw sourced (
            rw
              ((parse_github_repo_uri_iff (repo_uri owner name) (codes "source_repository_uri")
                  owner name).1
                (refl, repository))
              (rw
                ((check_repository_match_iff owner name required.source.repository
                    source_repository_mismatch).1
                  repo)
                (rw
                  ((check_pinned_id_iff required.source.repository.owner_id
                      claims.source_repository_owner_id (codes "source_repository_owner_id")
                      source_owner_id_mismatch).1
                    owner_id)
                  (rw
                    ((check_pinned_id_iff required.source.repository.repository_id
                        claims.source_repository_id (codes "source_repository_id")
                        source_repository_id_mismatch).1
                      repo_id)
                    (rw reffed (
                      rw ((check_ref_policy_iff source_ref required.source.git_ref).1 on_ref) (
                        rw
                          ((check_source_commit_iff required.source.commit
                              claims.source_repository_digest).1
                            on_commit)
                          (rw sanned (
                            rw
                              ((parse_signer_san_uri_iff (san_uri signer) signer).1
                                (refl, identity))
                              (rw
                                ((check_repository_match_iff signer.owner signer.name
                                    required.signer.repository signer_repository_mismatch).1
                                  by)
                                (rw (eq→str_eq signer.workflow_path required.signer.path.path path)
                                  (rw
                                    ((check_signer_revision_iff claims signer
                                        required.signer.revision).1
                                      revised)
                                    (ap ok (sym m_is))))))))))))))))

  -- `match_policy` returns an identity exactly when the claims satisfy the policy with it: the
  -- pinned issuer, the source repository and its pinned ids, the ref, the commit, and the signer's
  -- repository, workflow file and revision.
  pub match_policy_iff :
      (claims : FulcioClaims) (required : GithubPolicy) (m : MatchedIdentity)
      → (match_policy hex_encode claims required ≡ ok m) ↔ Satisfies hex_encode claims required m
  match_policy_iff claims required m =
      (match_policy_sound claims required m, match_policy_complete claims required m)
