-- ===== src/Verifier/Digest/Attested.antt =====
-- What a report guarantees.
use attestation_verify.Prelude.{
  find_first_sound, le→leb, ◌≤◌, ◌≡◌, refl, sym, subst, true, some, Exists, ok, last_met,
}
use attestation_verify.Prelude.Int.{ℤ, pos, i64_max}
use attestation_verify.Prelude.Text.Laws.{str_eq→eq}
use attestation_verify.Bundle.{Bundle}
use attestation_verify.Subject.{Subject}
use attestation_verify.Statement.{Statement, StatementSubject, find_subject}
use attestation_verify.Statement.Found.{has_digest_iff}
use attestation_verify.Dsse.{
  EcdsaVerifyingKey, pae, from_spki_der, verify_der, verify_envelope, unix_seconds,
}
use attestation_verify.Rekor.Entry.{VerifiedTimestamp}
use attestation_verify.Rekor.Entry.Verified.{IsVerified, verify_tlog_entry-IsVerified}
use attestation_verify.X509.Chain.{ValidatedLeaf}
use attestation_verify.X509.Chain.Validated.{Vouches, validate_chain-Vouches}
use attestation_verify.Sct.Embedded.Sound.{HasSct, verify_embedded_scts-HasSct}
use attestation_verify.Fulcio.{FulcioClaims}
use attestation_verify.Fulcio.Extracted.{AreClaims, extract_claims_iff}
use attestation_verify.PolicyMatch.{MatchedIdentity}
use attestation_verify.PolicyMatch.Satisfies.{Satisfies}
use attestation_verify.PolicyMatch.Satisfies.Decides.{match_policy_iff}
use attestation_verify.Verifier.{Verifier}
use attestation_verify.Verifier.Report.{VerificationReport}
use attestation_verify.Verifier.Digest.{
  supported_dsse_payload_type, Dependencies, from_der, bundle_statement, verify_digest,
}
use attestation_verify.Verifier.Digest.Ran.{Reports, verify_digest-Ran}

module _ (deps : Dependencies) where
  open deps use {crates, ecdsa, x509, der, utf8_string, subject_alt_name, reader, body_of}

  abbrev pub IsAttested : Verifier → Subject → Bundle → VerificationReport → Type 0
  IsAttested v subject bundle report =
      (statement : Statement) × (matched : StatementSubject) × (t : VerifiedTimestamp)
      × (leaf : ValidatedLeaf) × (key : EcdsaVerifyingKey ecdsa) × (claims : FulcioClaims)
      × (identity : MatchedIdentity) × (bundle.dsse_envelope.payload_type
          ≡ supported_dsse_payload_type)
      × (bundle_statement deps bundle ≡ ok statement)
      × Exists (λ (x : StatementSubject). (x ≡ matched) × (x.sha256 ≡ some subject))
          statement.subjects
      × IsVerified crates ecdsa (from_der deps) reader body_of bundle v.trust_store
          v.checkpoint_origin_policy t
      × (x509.certificate_from_der bundle.verification_material.certificate.raw_bytes
          ≡ ok leaf.leaf)
      × Exists (Vouches ecdsa x509 (pos t.integrated_time) leaf)
          v.trust_store.certificate_authorities
      × (from_spki_der ecdsa leaf.leaf_spki_der ≡ ok key)
      × (verify_der ecdsa key (pae bundle.dsse_envelope.payload_type bundle.dsse_envelope.payload)
            bundle.dsse_envelope.signature.sig
          ≡ true)
      × HasSct crates.digest ecdsa der leaf v.trust_store
      × AreClaims utf8_string subject_alt_name leaf.leaf.extensions claims
      × Satisfies crates.hex_encode claims v.github_policy identity
      × Reports deps v subject statement matched t identity report

  -- A verified time is below `i64::MAX`, so that the conversion keeps it.
  verified_seconds :
      (bundle : Bundle) (v : Verifier) (t : VerifiedTimestamp)
      → IsVerified crates ecdsa
          (from_der deps)
          reader
          body_of
          bundle
          v.trust_store
          v.checkpoint_origin_policy
          t
      → unix_seconds t.integrated_time ≡ pos t.integrated_time
  verified_seconds bundle v t h =
      let fits : t.integrated_time ≤ i64_max =
        subst (λ (x : VerifiedTimestamp). x.integrated_time ≤ i64_max) (sym h.26) h.22 in
      rw (le→leb t.integrated_time i64_max fits) refl

  verify_envelope_sound :
      (bundle : Bundle) (key : EcdsaVerifyingKey ecdsa)
      → verify_envelope ecdsa bundle.dsse_envelope key ≡ ok tt
      → verify_der ecdsa key
          (pae bundle.dsse_envelope.payload_type bundle.dsse_envelope.payload)
          bundle.dsse_envelope.signature.sig
        ≡ true
  unfolding verify_envelope
  verify_envelope_sound bundle key e = last_met _ _ e

  subject_found :
      (statement : Statement) (subject : Subject) (matched : StatementSubject)
      → find_subject statement subject ≡ some matched
      → Exists
          (λ (x : StatementSubject). (x ≡ matched) × (x.sha256 ≡ some subject))
          statement.subjects
  unfolding find_subject
  subject_found statement subject matched e =
      let (x, i, at, (same, holds)) = find_first_sound _ statement.subjects e in
      (x, i, at, (same, (has_digest_iff x.sha256 subject).0 holds))

  -- A report is returned only of a bundle whose envelope is typed as in-toto, whose statement has the
  -- supported predicate type and names the artifact's digest, whose one log entry is verified, whose
  -- leaf certificate a trusted authority vouches for at the log's time, whose envelope the leaf's key
  -- signs, with an SCT of a trusted log for the leaf, and whose certificate's claims satisfy the
  -- policy. Each part of the report comes from what authenticates it.
  pub verify_digest-IsAttested :
      (v : Verifier) (subject : Subject) (bundle : Bundle) (report : VerificationReport)
      → verify_digest deps v subject bundle ≡ ok report
      → IsAttested v subject bundle report
  verify_digest-IsAttested v subject bundle report e =
      let ran = verify_digest-Ran deps v subject bundle report e in
      let statement = ran.0 in
      let matched = ran.1 in
      let t = ran.2 in
      let leaf = ran.3 in
      let key = ran.4 in
      let claims = ran.5 in
      let identity = ran.6 in
      let in_log =
        verify_tlog_entry-IsVerified crates ecdsa (from_der deps) reader body_of bundle
          v.trust_store v.checkpoint_origin_policy t ran.10 in
      let (decoded, vouched) =
        validate_chain-Vouches ecdsa x509 bundle.verification_material.certificate.raw_bytes
          v.trust_store (unix_seconds t.integrated_time) leaf ran.11 in
      (
        statement,
        matched,
        t,
        leaf,
        key,
        claims,
        identity,
        str_eq→eq _ _ ran.7,
        ran.8,
        subject_found statement subject matched ran.9,
        in_log,
        decoded,
        subst (λ (s : ℤ). Exists (Vouches ecdsa x509 s leaf) v.trust_store.certificate_authorities)
            (verified_seconds bundle v t in_log) vouched,
        ran.12,
        verify_envelope_sound bundle key ran.13,
        verify_embedded_scts-HasSct crates.digest ecdsa der leaf v.trust_store ran.14,
        (extract_claims_iff utf8_string subject_alt_name leaf.leaf.extensions claims).0 ran.15,
        (match_policy_iff crates.hex_encode claims v.github_policy identity).0 ran.16,
        ran.17,
      )
