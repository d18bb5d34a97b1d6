-- ===== src/Verifier/Digest/Ran.antt =====
-- What a run of `verify_digest` that returns a report went through, and the parts of the report.
use attestation_verify.Prelude.{
  unnegated, ◌≡◌, refl, subst, true, not, some, ok, ok_or, ok_or-eq-ok, ok_inj, passed, refused_not,
}
use attestation_verify.Prelude.Text.{str_eq}
use attestation_verify.Prelude.Text.Laws.{str_eq→eq}
use attestation_verify.Bundle.{Bundle}
use attestation_verify.Subject.{Subject}
use attestation_verify.Statement.{Statement, StatementSubject, find_subject}
use attestation_verify.Dsse.{EcdsaVerifyingKey, from_spki_der, verify_envelope, unix_seconds}
use attestation_verify.Rekor.Entry.{VerifiedTimestamp, verify_tlog_entry}
use attestation_verify.X509.Chain.{ValidatedLeaf, validate_chain}
use attestation_verify.Sct.Embedded.{verify_embedded_scts}
use attestation_verify.Fulcio.{FulcioClaims, extract_claims}
use attestation_verify.PolicyMatch.{MatchedIdentity, match_policy}
use attestation_verify.Verifier.{Verifier}
use attestation_verify.Verifier.Report.{VerificationReport}
use attestation_verify.Verifier.Digest.{
  supported_predicate_type, supported_dsse_payload_type, Dependencies, from_der, bundle_statement,
  verify_digest,
}

module _ (deps : Dependencies) where
  open deps use {crates, ecdsa, x509, der, utf8_string, subject_alt_name, reader, body_of}

  -- The parts of a report, each from what authenticates it.
  abbrev pub Reports :
      Verifier
      → Subject
      → Statement
      → StatementSubject
      → VerifiedTimestamp
      → MatchedIdentity
      → VerificationReport
      → Type 0
  Reports v subject statement matched t identity report =
      (report.subject.digest ≡ subject)
      × (report.subject.name ≡ matched.name)
      × (report.signer.issuer ≡ identity.issuer)
      × (report.signer.source_repository ≡ identity.source_repository)
      × (report.signer.source_ref ≡ identity.source_ref)
      × (report.signer.signer_repository ≡ identity.signer_repository)
      × (report.signer.signer_workflow_path ≡ identity.signer_workflow_path)
      × (report.transparency.log_index ≡ t.log_index)
      × (report.transparency.integrated_time ≡ t.integrated_time)
      × (report.statement.predicate_type ≡ supported_predicate_type)
      × (report.statement.predicate ≡ statement.predicate)
      × (report.trust.fingerprint ≡ v.trust_store.fingerprint)
      × (report.trust.source ≡ v.trust_store.source)

  -- The results of the steps of a run that returns a report.
  abbrev pub Ran : Verifier → Subject → Bundle → VerificationReport → Type 0
  Ran v subject bundle report =
      (statement : Statement) × (matched : StatementSubject) × (t : VerifiedTimestamp)
      × (leaf : ValidatedLeaf) × (key : EcdsaVerifyingKey ecdsa) × (claims : FulcioClaims)
      × (identity : MatchedIdentity) × (str_eq bundle.dsse_envelope.payload_type
            supported_dsse_payload_type
          ≡ true)
      × (bundle_statement deps bundle ≡ ok statement)
      × (find_subject statement subject ≡ some matched)
      × (verify_tlog_entry crates ecdsa (from_der deps) reader body_of bundle v.trust_store
            v.checkpoint_origin_policy
          ≡ ok t)
      × (validate_chain ecdsa x509 bundle.verification_material.certificate.raw_bytes v.trust_store
            (unix_seconds t.integrated_time)
          ≡ ok leaf)
      × (from_spki_der ecdsa leaf.leaf_spki_der ≡ ok key)
      × (verify_envelope ecdsa bundle.dsse_envelope key ≡ ok tt)
      × (verify_embedded_scts crates.digest ecdsa der leaf v.trust_store ≡ ok tt)
      × (extract_claims utf8_string subject_alt_name leaf.leaf.extensions ≡ ok claims)
      × (match_policy crates.hex_encode claims v.github_policy ≡ ok identity)
      × Reports v subject statement matched t identity report

  reports :
      (v : Verifier) (subject : Subject) (statement : Statement) (matched : StatementSubject)
      (t : VerifiedTimestamp) (identity : MatchedIdentity)
      → str_eq statement.predicate_type supported_predicate_type ≡ true
      → Reports v subject statement matched t identity (record {
        subject = record { digest = subject; name = matched.name };
        signer = record {
          issuer = identity.issuer;
          source_repository = identity.source_repository;
          source_ref = identity.source_ref;
          signer_repository = identity.signer_repository;
          signer_workflow_path = identity.signer_workflow_path;
        };
        transparency = record { log_index = t.log_index; integrated_time = t.integrated_time };
        statement = record {
          predicate_type = statement.predicate_type;
          predicate = statement.predicate;
        };
        trust = record { fingerprint = v.trust_store.fingerprint; source = v.trust_store.source };
      })
  reports v subject statement matched t identity e =
      (refl, refl, refl, refl, refl, refl, refl, refl, refl, str_eq→eq _ _ e, refl, refl, refl)

  pub verify_digest-Ran :
      (v : Verifier) (subject : Subject) (bundle : Bundle) (report : VerificationReport)
      → verify_digest deps v subject bundle ≡ ok report
      → Ran v subject bundle report
  unfolding verify_digest
  verify_digest-Ran v subject bundle report e =
      refused_not (not (str_eq bundle.dsse_envelope.payload_type supported_dsse_payload_type)) _ _ e
        (λ typed e. passed (bundle_statement deps bundle) _ e (λ statement parsed e.
          refused_not (not (str_eq statement.predicate_type supported_predicate_type)) _ _ e
            (λ predicated e.
              passed (ok_or (find_subject statement subject) _) _ e (λ matched found e.
                passed
                  (verify_tlog_entry crates ecdsa (from_der deps) reader body_of bundle
                    v.trust_store v.checkpoint_origin_policy)
                  _ e
                  (λ t logged e.
                    passed
                      (validate_chain ecdsa x509 bundle.verification_material.certificate.raw_bytes
                        v.trust_store (unix_seconds t.integrated_time))
                      _ e
                      (λ leaf chained e.
                        passed (from_spki_der ecdsa leaf.leaf_spki_der) _ e (λ key keyed e.
                          passed (verify_envelope ecdsa bundle.dsse_envelope key) _ e (λ u signed e.
                            passed (verify_embedded_scts crates.digest ecdsa der leaf v.trust_store)
                              _ e
                              (λ u timestamped e.
                                passed
                                  (extract_claims utf8_string subject_alt_name leaf.leaf.extensions)
                                  _ e
                                  (λ claims extracted e.
                                    passed (match_policy crates.hex_encode claims v.github_policy) _
                                      e
                                      (λ identity met e. (
                                        statement,
                                        matched,
                                        t,
                                        leaf,
                                        key,
                                        claims,
                                        identity,
                                        unnegated _ typed,
                                        parsed,
                                        ok_or-eq-ok _ _ found,
                                        logged,
                                        chained,
                                        keyed,
                                        signed,
                                        timestamped,
                                        extracted,
                                        met,
                                        subst (Reports v subject statement matched t identity)
                                            (ok_inj e)
                                            (reports v subject statement matched t identity
                                              (unnegated _ predicated)),
                                      ))))))))))))
