-- ===== src/Conformance/Verified/Run.antt =====
-- A run of the client that ends well.
use attestation_verify.Prelude.{
  ◌≡◌, sym, ap, ap₂, subst, ◌∙◌, false, not, unnegated, List, [], ◌∷◌, Bool-cases, inl, inr, ok,
  some_inj, map_err-eq-ok, passed, refused_not,
}
use attestation_verify.Prelude.Text.{Bytes, Text, codes, str_eq}
use attestation_verify.Prelude.Text.Laws.{str_eq→eq}
use attestation_verify.Bundle.{Bundle}
use attestation_verify.Bundle.Raw.{from_json}
use attestation_verify.Trust.{TrustStore}
use attestation_verify.Subject.{Subject}
use attestation_verify.Policy.{
  RepositoryIdentity, WorkflowPath, CheckpointOriginPolicy, GithubPolicy, parse_repository,
  new_workflow_path,
}
use attestation_verify.Policy.Identity.{IsOwnerName, parse_repository_iff}
use attestation_verify.PolicyMatch.{expected_issuer}
use attestation_verify.Verifier.{
  Verifier, VerifierBuilder, builder, with_trust_store, with_github_policy,
  with_checkpoint_origin_policy, build,
}
use attestation_verify.Verifier.Configured.{build_iff}
use attestation_verify.Verifier.Report.{VerificationReport}
use attestation_verify.Verifier.Digest.Attested.{IsAttested, verify_digest-IsAttested}
use attestation_verify.Conformance.Failures.{library, io, from_library, from_io}
use attestation_verify.Conformance.Arguments.{
  Arguments, no_arguments, read_arguments, Request, check_arguments,
}
use attestation_verify.Conformance.Arguments.Checked.{IsRequest, check_arguments-IsRequest}
use attestation_verify.Conformance.Identity.{GithubIdentity, parse_github_identity}
use attestation_verify.Conformance.Identity.Accepts.{IsIdentity, parse_github_identity_iff}
use attestation_verify.Conformance.Shape.{
  public_good_origin_policy, reject_unsupported_bundle_shape,
}
use attestation_verify.Conformance.{
  Client, policy_for, load_trust_store, verify_operand, run_verify, run,
}
use attestation_verify.Conformance.Verified.{
  AllowsPublicGood, public_good_origin_policy_sound, pinned, policy_for_sound, IsNamed,
  verify_operand_sound,
}

pair_eq : {A B : Type 0} {a c : A} {b d : B} → a ≡ c → b ≡ d → ◌≡◌ {A = A × B} (a, b) (c, d)
pair_eq p q = ap₂ (λ x y. (x, y)) p q

abbrev configured : TrustStore → GithubPolicy → CheckpointOriginPolicy → VerifierBuilder
configured store policy origins =
    with_checkpoint_origin_policy (with_github_policy (with_trust_store builder store) policy)
      origins

module _ (client : Client) where
  open client use {deps, bundle_of, debug_str, read}
  open deps use {crates, reader}

  abbrev pub IsVerifiedBy : List Text → Verifier → Subject → Bundle → VerificationReport → Type 0
  IsVerifiedBy args verifier subject bundle report =
      (arguments : Arguments) × (request : Request) × (identity : GithubIdentity)
      × (repository : RepositoryIdentity) × (bytes : Bytes) × (read_arguments debug_str args
            no_arguments
          ≡ ok arguments)
      × IsRequest arguments request
      × (request.certificate_issuer ≡ expected_issuer)
      × IsIdentity request.certificate_identity identity
      × IsOwnerName identity.repository repository
      × (verifier.github_policy ≡ pinned repository identity)
      × (load_trust_store client request.trusted_root_path ≡ ok verifier.trust_store)
      × AllowsPublicGood crates.digest verifier.trust_store verifier.checkpoint_origin_policy
      × (read request.bundle_path ≡ ok bytes)
      × (from_json crates reader bundle_of bytes ≡ ok bundle)
      × IsNamed client request.artifact_or_digest subject
      × IsAttested deps verifier subject bundle report

  -- The results of the steps of a run.
  abbrev Ran : List Text → Type 0
  Ran args =
      (arguments : Arguments) × (request : Request) × (identity : GithubIdentity)
      × (repository : RepositoryIdentity) × (path : WorkflowPath) × (policy : GithubPolicy)
      × (store : TrustStore) × (origins : CheckpointOriginPolicy) × (bytes : Bytes)
      × (bundle : Bundle) × (verifier : Verifier) × (report : VerificationReport) × (read_arguments
            debug_str args no_arguments
          ≡ ok arguments)
      × (check_arguments arguments ≡ ok request)
      × (not (str_eq request.certificate_issuer expected_issuer) ≡ false)
      × (parse_github_identity debug_str request.certificate_identity ≡ ok identity)
      × (from_library (parse_repository debug_str identity.repository) ≡ ok repository)
      × (from_library (new_workflow_path identity.workflow_path) ≡ ok path)
      × (policy_for client repository path identity.workflow_ref ≡ ok policy)
      × (load_trust_store client request.trusted_root_path ≡ ok store)
      × (public_good_origin_policy crates.digest store ≡ ok origins)
      × (from_io (read request.bundle_path) ≡ ok bytes)
      × (from_library (from_json crates reader bundle_of bytes) ≡ ok bundle)
      × (from_library (build crates.digest (configured store policy origins)) ≡ ok verifier)
      × (verify_operand client verifier request.artifact_or_digest bundle ≡ ok report)

  run_verify-Ran : (args : List Text) → run_verify client args ≡ ok tt → Ran args
  unfolding run_verify
  run_verify-Ran args e =
      passed (read_arguments debug_str args no_arguments) _ e (λ arguments read_in e.
        passed (check_arguments arguments) _ e (λ request checked e.
          refused_not (not (str_eq request.certificate_issuer expected_issuer)) _ _ e (λ issued e.
            passed (parse_github_identity debug_str request.certificate_identity) _ e
              (λ identity identified e.
                passed (from_library (parse_repository debug_str identity.repository)) _ e
                  (λ repository owned e.
                    passed (from_library (new_workflow_path identity.workflow_path)) _ e
                      (λ path pathed e.
                        passed (policy_for client repository path identity.workflow_ref) _ e
                          (λ policy made e.
                            passed (load_trust_store client request.trusted_root_path) _ e
                              (λ store stored e.
                                passed (public_good_origin_policy crates.digest store) _ e
                                  (λ origins allowed e.
                                    passed (from_io (read request.bundle_path)) _ e
                                      (λ bytes there e.
                                        passed
                                          (reject_unsupported_bundle_shape client.json debug_str
                                            bytes)
                                          _ e
                                          (λ u shaped e.
                                            passed
                                              (from_library
                                                (from_json crates reader bundle_of bytes))
                                              _ e
                                              (λ bundle parsed e.
                                                passed
                                                  (from_library (
                                                    build crates.digest
                                                      (configured store policy origins)))
                                                  _ e
                                                  (λ verifier built e.
                                                    passed
                                                      (verify_operand client verifier
                                                        request.artifact_or_digest bundle)
                                                      _ e
                                                      (λ report verified e. (
                                                        arguments, request, identity, repository,
                                                        path, policy, store, origins, bytes, bundle,
                                                        verifier, report, read_in, checked, issued,
                                                        identified, owned, pathed, made, stored,
                                                        allowed, there, parsed, built, verified,
                                                      )))))))))))))))

  run_verify_sound :
      (args : List Text)
      → run_verify client args ≡ ok tt
      → (verifier : Verifier) × (subject : Subject) × (bundle : Bundle)
        × (report : VerificationReport) × IsVerifiedBy args verifier subject bundle report
  run_verify_sound args e =
      let (
        arguments, request, identity, repository, path, policy, store, origins, bytes, bundle,
        verifier, report, read_in, checked, issued, identified, owned, pathed, made, stored,
        allowed, there, parsed, built, verified,
      ) =
        run_verify-Ran args e in
      let (subject, named, held) =
        verify_operand_sound client verifier request.artifact_or_digest bundle report verified in
      let (store_is, policy_is, origins_are, _, _) =
        (build_iff crates.digest (configured store policy origins) verifier).0
          (map_err-eq-ok (build crates.digest (configured store policy origins)) library built) in
      (
        verifier,
        subject,
        bundle,
        report,
        (
          arguments,
          request,
          identity,
          repository,
          bytes,
          read_in,
          check_arguments-IsRequest arguments request checked,
          str_eq→eq _ _ (unnegated _ issued),
          (parse_github_identity_iff debug_str request.certificate_identity identity).0 identified,
          (parse_repository_iff debug_str identity.repository repository).0
              (map_err-eq-ok (parse_repository debug_str identity.repository) library owned),
          sym (some_inj policy_is)
              ∙ policy_for_sound client repository identity path policy
                  (map_err-eq-ok (new_workflow_path identity.workflow_path) library pathed) made,
          stored ∙ ap ok (some_inj store_is),
          subst
              (λ (t : TrustStore × CheckpointOriginPolicy). AllowsPublicGood crates.digest t.0 t.1)
              (pair_eq (some_inj store_is) (some_inj origins_are))
              (public_good_origin_policy_sound crates.digest store origins allowed),
          map_err-eq-ok (read request.bundle_path) io there,
          map_err-eq-ok (from_json crates reader bundle_of bytes) library parsed,
          named,
          verify_digest-IsAttested deps verifier subject bundle report held,
        ),
      )

  -- If a run of the client ends well, then its subcommand is `verify-bundle`; its options name the one
  -- supported issuer and a workflow identity; and the bundle that is read from the file is attested for
  -- the artifact that the operand names, under the trusted root of the options or the one embedded, a
  -- policy that has the identity's repository on both sides with its workflow and ref, and the one
  -- allowed checkpoint origin, for the key of a log of that root.
  pub run-IsVerifiedBy :
      (args : List Text)
      → run client args ≡ ok tt
      → (rest : List Text) × (verifier : Verifier) × (subject : Subject) × (bundle : Bundle)
        × (report : VerificationReport) × (args ≡ codes "verify-bundle" ∷ rest)
        × IsVerifiedBy rest verifier subject bundle report
  unfolding run
  run-IsVerifiedBy [] e = absurd (cc e)
  run-IsVerifiedBy (subcommand ∷ args) e =
      elim (Bool-cases (str_eq subcommand (codes "sign-bundle"))) [
        | inl sign ↦ absurd (cc (rw sign at e))
        | inr other ↦ elim (Bool-cases (str_eq subcommand (codes "verify-bundle"))) [
          | inr unknown ↦ absurd (cc (rw (other, unknown) at e))
          | inl verifies ↦
              let (verifier, subject, bundle, report, h) =
                run_verify_sound args (rw (other, verifies) at e) in
              (
                args,
                verifier,
                subject,
                bundle,
                report,
                ap (λ (t : Text). t ∷ args) (str_eq→eq _ _ verifies),
                h,
              )
        ]
      ]
