-- ===== src/Verifier/Digest/Logged.antt =====
-- What a report guarantees of the log: the entry that its checkpoint covers is of this bundle.
use attestation_verify.Prelude.{
  ◌≡◌, ◌⊎◌, inl, inr, ap, some_inj, ◌∙◌, subst, List, [], ◌∷◌, length, get_elem?, some, Exists, ok,
}
use attestation_verify.Prelude.Text.{Bytes}
use attestation_verify.Bundle.{Bundle, TlogEntry, InclusionProof}
use attestation_verify.Subject.{Subject}
use attestation_verify.Statement.{Statement, StatementSubject}
use attestation_verify.Rekor.Merkle.{verify_inclusion_proof}
use attestation_verify.Rekor.Merkle.Sound.{Is32, Collision}
use attestation_verify.Rekor.Merkle.Inclusion.{IsLog, verify_inclusion_proof_sound}
use attestation_verify.Rekor.Body.Binding.{IsBound}
use attestation_verify.Rekor.Entry.{VerifiedTimestamp}
use attestation_verify.Rekor.Entry.Verified.{IsVerified}
use attestation_verify.Rekor.Body.{TlogEntryBody, parse_tlog_entry_body, compute_envelope_hash}
use attestation_verify.Verifier.{Verifier}
use attestation_verify.Verifier.Report.{VerificationReport}
use attestation_verify.Verifier.Digest.{Dependencies, from_der, bundle_statement, verify_digest}
use attestation_verify.Verifier.Digest.Attested.{verify_digest-IsAttested}

module _ (deps : Dependencies) where
  open deps use {crates, ecdsa, reader, body_of}

  -- The log holds a body, at the proof's index, that fixes the payload, its signature and the signer's
  -- certificate; and the payload's statement names the artifact's digest.
  abbrev pub IsLogged :
      Subject → Bundle → VerificationReport → TlogEntry → InclusionProof → List Bytes → Type 0
  IsLogged subject bundle report entry proof entries =
      (body : TlogEntryBody) × (statement : Statement) × (get_elem? entries proof.log_index
        ≡ some entry.canonicalized_body)
      × (parse_tlog_entry_body crates reader body_of entry.canonicalized_body ≡ ok body)
      × (body.payload_hash ≡ crates.digest bundle.dsse_envelope.payload)
      × (body.envelope_hash ≡ compute_envelope_hash crates bundle.dsse_envelope)
      × (body.signature ≡ bundle.dsse_envelope.signature.sig)
      × (body.verifier_certificate_der ≡ bundle.verification_material.certificate.raw_bytes)
      × (bundle_statement deps bundle ≡ ok statement)
      × Exists (λ (x : StatementSubject). x.sha256 ≡ some subject) statement.subjects
      × (report.transparency.log_index ≡ entry.log_index)
      × (report.transparency.integrated_time ≡ entry.integrated_time)

  -- What a verification holds of the one entry of a bundle, and of its proof.
  verified_entry :
      (bundle : Bundle) (v : Verifier) (t : VerifiedTimestamp) (entry : TlogEntry)
      (proof : InclusionProof)
      → IsVerified crates ecdsa
          (from_der deps)
          reader
          body_of
          bundle
          v.trust_store
          v.checkpoint_origin_policy
          t
      → bundle.verification_material.tlog_entries ≡ entry ∷ []
      → entry.inclusion_proof ≡ some proof
      → (body : TlogEntryBody) × (parse_tlog_entry_body crates reader body_of
            entry.canonicalized_body
          ≡ ok body)
        × IsBound crates entry body bundle.dsse_envelope
            bundle.verification_material.certificate.raw_bytes
        × (verify_inclusion_proof crates.digest entry.canonicalized_body proof ≡ ok tt)
        × (t ≡ record { integrated_time = entry.integrated_time; log_index = entry.log_index })
  verified_entry bundle v t entry proof h sole there =
      let same_entry : h.0 ≡ entry = cc (h.8, sole) in
      let same_proof : h.4 ≡ proof = some_inj (cc (h.13, there, same_entry)) in
      (
        h.1,
        subst
            (λ (e : TlogEntry).
              parse_tlog_entry_body crates reader body_of e.canonicalized_body ≡ ok h.1)
            same_entry h.9,
        subst
            (λ (e : TlogEntry).
              IsBound crates e h.1 bundle.dsse_envelope
                bundle.verification_material.certificate.raw_bytes)
            same_entry h.10,
        subst
            (λ (e : TlogEntry).
              verify_inclusion_proof crates.digest e.canonicalized_body proof ≡ ok tt)
            same_entry
            (subst
              (λ (p : InclusionProof).
                verify_inclusion_proof crates.digest h.0.canonicalized_body p ≡ ok tt)
              same_proof h.14),
        subst
            (λ (e : TlogEntry).
              t ≡ record { integrated_time = e.integrated_time; log_index = e.log_index })
            same_entry h.26,
      )

  -- If a report is returned of a bundle whose inclusion proof is against the root and the size of a
  -- log, then the log holds the bundle's entry at the proof's index, and that entry fixes the hashes of
  -- the payload and the envelope, the signature and the signer's certificate; the payload's statement
  -- names the artifact; and the report has the entry's index and time. Otherwise two byte strings with
  -- one SHA-256 digest are at hand. A digest has 32 bytes.
  pub verify_digest-IsLogged :
      (digest-Is32 : (b : Bytes) → Is32 (crates.digest b))
      → (v : Verifier) (subject : Subject) (bundle : Bundle) (report : VerificationReport)
        (entry : TlogEntry) (proof : InclusionProof) (entries : List Bytes)
      → bundle.verification_material.tlog_entries ≡ entry ∷ []
      → entry.inclusion_proof ≡ some proof
      → IsLog crates.digest entries proof.root_hash
      → length entries ≡ proof.tree_size
      → verify_digest deps v subject bundle ≡ ok report
      → IsLogged subject bundle report entry proof entries ⊎ Collision crates.digest
  verify_digest-IsLogged d v subject bundle report entry proof entries sole there log size e =
      let a = verify_digest-IsAttested deps v subject bundle report e in
      let (body, parsed, (_, _, signature, certificate, payload, hash), included, at) =
        verified_entry bundle v a.2 entry proof a.10 sole there in
      let (x, i, here, (_, named)) = a.9 in
      elim (verify_inclusion_proof_sound crates.digest d entry.canonicalized_body proof entries log
        size included) [
          | inr collision ↦ inr collision
          | inl held ↦ inl (
            body,
            a.0,
            held,
            parsed,
            payload,
            hash,
            signature,
            certificate,
            a.8,
            (x, i, here, named),
            a.18.7 ∙ ap (λ (t : VerifiedTimestamp). t.log_index) at,
            a.18.8 ∙ ap (λ (t : VerifiedTimestamp). t.integrated_time) at,
          )
        ]
