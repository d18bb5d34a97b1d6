-- ===== src/PolicyMatch/Satisfies/Ran.antt =====
-- What a run of `match_policy` that returns an identity went through.
use attestation_verify.Prelude.{◌≡◌, sym, some, true, ok, passed, demand_met, ok_or-eq-ok, ok_inj}
use attestation_verify.Prelude.Text.{Bytes, Text, codes, str_eq}
use attestation_verify.Errors.{
  policy, source_repository_mismatch, signer_repository_mismatch, source_owner_id_mismatch,
  source_repository_id_mismatch, signer_workflow_path_mismatch,
}
use attestation_verify.Policy.{GithubPolicy}
use attestation_verify.Fulcio.{FulcioClaims}
use attestation_verify.PolicyMatch.{
  MatchedIdentity, expected_issuer, check_repository_match, check_pinned_id, check_ref_policy,
  check_source_commit, check_signer_revision, match_policy,
}
use attestation_verify.PolicyMatch.Uris.{
  SignerUriParts, require_claim, parse_github_repo_uri, parse_signer_san_uri,
}
use attestation_verify.PolicyMatch.Satisfies.{matched}

module _ (hex_encode : Bytes → Text) where
  -- The results of the steps.
  abbrev pub Ran : FulcioClaims → GithubPolicy → MatchedIdentity → Type 0
  Ran claims required m =
      (issuer : Text) × (source_uri : Text) × (owner : Text) × (name : Text) × (source_ref : Text)
      × (uri : Text) × (signer : SignerUriParts) × (claims.issuer ≡ some issuer)
      × (str_eq issuer expected_issuer ≡ true)
      × (claims.source_repository_uri ≡ some source_uri)
      × (parse_github_repo_uri source_uri (codes "source_repository_uri") ≡ ok (owner, name))
      × (check_repository_match owner name required.source.repository source_repository_mismatch
          ≡ ok tt)
      × (check_pinned_id required.source.repository.owner_id claims.source_repository_owner_id
            (codes "source_repository_owner_id") source_owner_id_mismatch
          ≡ ok tt)
      × (check_pinned_id required.source.repository.repository_id claims.source_repository_id
            (codes "source_repository_id") source_repository_id_mismatch
          ≡ ok tt)
      × (claims.source_repository_ref ≡ some source_ref)
      × (check_ref_policy source_ref required.source.git_ref ≡ ok tt)
      × (check_source_commit hex_encode required.source.commit claims.source_repository_digest
          ≡ ok tt)
      × (claims.san_uri ≡ some uri)
      × (parse_signer_san_uri uri ≡ ok signer)
      × (check_repository_match signer.owner signer.name required.signer.repository
            signer_repository_mismatch
          ≡ ok tt)
      × (str_eq signer.workflow_path required.signer.path.path ≡ true)
      × (check_signer_revision hex_encode claims signer required.signer.revision ≡ ok tt)
      × (m ≡ matched issuer owner name source_ref signer)

  pub match_policy-Ran :
      (claims : FulcioClaims) (required : GithubPolicy) (m : MatchedIdentity)
      → match_policy hex_encode claims required ≡ ok m
      → Ran claims required m
  unfolding match_policy
  match_policy-Ran claims required m e =
      let repository = required.source.repository in
      passed (require_claim claims.issuer _) _ e (λ issuer issued e.
        demand_met (str_eq issuer expected_issuer) _ _ e (λ pinned e.
          passed (require_claim claims.source_repository_uri _) _ e (λ source_uri sourced e.
            passed (parse_github_repo_uri source_uri (codes "source_repository_uri")) _ e
              (λ (owner, name) parsed e.
                passed (check_repository_match owner name repository source_repository_mismatch) _ e
                  (λ u repo e.
                    passed
                      (check_pinned_id repository.owner_id claims.source_repository_owner_id
                        (codes "source_repository_owner_id") source_owner_id_mismatch)
                      _ e
                      (λ u owner_id e.
                        passed
                          (check_pinned_id repository.repository_id claims.source_repository_id
                            (codes "source_repository_id") source_repository_id_mismatch)
                          _ e
                          (λ u repo_id e.
                            passed
                              (require_claim claims.source_repository_ref
                                (codes "source_repository_ref"))
                              _ e
                              (λ source_ref reffed e.
                                passed (check_ref_policy source_ref required.source.git_ref) _ e
                                  (λ u on_ref e.
                                    passed
                                      (check_source_commit hex_encode required.source.commit
                                        claims.source_repository_digest)
                                      _ e
                                      (λ u on_commit e.
                                        passed (require_claim claims.san_uri (codes "san_uri")) _ e
                                          (λ uri sanned e.
                                            passed (parse_signer_san_uri uri) _ e
                                              (λ signer signed e.
                                                passed
                                                  (check_repository_match signer.owner signer.name
                                                    required.signer.repository
                                                    signer_repository_mismatch)
                                                  _ e
                                                  (λ u by e.
                                                    demand_met
                                                      (str_eq signer.workflow_path
                                                        required.signer.path.path)
                                                      (policy (
                                                        signer_workflow_path_mismatch
                                                          required.signer.path.path
                                                          signer.workflow_path))
                                                      _ e
                                                      (λ path e.
                                                        passed
                                                          (check_signer_revision hex_encode claims
                                                            signer required.signer.revision)
                                                          _ e
                                                          (λ u revised e. (
                                                            issuer,
                                                            source_uri,
                                                            owner,
                                                            name,
                                                            source_ref,
                                                            uri,
                                                            signer,
                                                            ok_or-eq-ok _ _ issued,
                                                            pinned,
                                                            ok_or-eq-ok _ _ sourced,
                                                            parsed,
                                                            repo,
                                                            owner_id,
                                                            repo_id,
                                                            ok_or-eq-ok _ _ reffed,
                                                            on_ref,
                                                            on_commit,
                                                            ok_or-eq-ok _ _ sanned,
                                                            signed,
                                                            by,
                                                            path,
                                                            revised,
                                                            sym (ok_inj e),
                                                          ))))))))))))))))
