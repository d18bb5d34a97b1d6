-- ===== src/Verifier/Digest.antt =====
-- src/verifier.rs: `verify_digest` and `verify_bytes`, the composition of the parts.
pub mod Ran
pub mod Attested
pub mod Logged
mod Tests
use attestation_verify.Prelude.{
  Bool, true, false, not, Option, some, none, List, Result, ok, err, ◌>>=◌, ◌>>◌, ok_or, map_ok,
  if◌then◌else◌, String,
}
use attestation_verify.Prelude.Text.{Bytes, Text, codes, str_eq}
use attestation_verify.Errors.{
  Error, unsupported, dsse_payload_type, predicate_type, content_binding, subject_not_found,
}
use attestation_verify.Crates.{
  Crates, CertificateFacts, CertificateDecoder, X509Certificate, X509Decoders, GeneralName,
  DerCodec,
}
use attestation_verify.StrictJson.Tree.{Value}
use attestation_verify.StrictJson.{JsonReader}
use attestation_verify.Bundle.{Bundle}
use attestation_verify.Subject.{Subject, sha256_of}
use attestation_verify.Statement.{RawStatement, Statement, from_payload, find_subject}
use attestation_verify.Dsse.{Ecdsa, from_spki_der, verify_envelope, unix_seconds}
use attestation_verify.Rekor.Body.{RawTlogEntryBody}
use attestation_verify.Rekor.Entry.{verify_tlog_entry}
use attestation_verify.X509.Chain.{validate_chain}
use attestation_verify.Sct.Embedded.{verify_embedded_scts}
use attestation_verify.Fulcio.{extract_claims}
use attestation_verify.PolicyMatch.{match_policy}
use attestation_verify.Verifier.{Verifier}
use attestation_verify.Verifier.Report.{
  VerifiedSubject, VerifiedCertificateIdentity, VerifiedTransparency, VerifiedSignedStatement,
  TrustSnapshotInfo, VerificationReport,
}

abbrev pub supported_predicate_type : Text
supported_predicate_type = codes "https://slsa.dev/provenance/v1"

abbrev pub supported_dsse_payload_type : Text
supported_dsse_payload_type = codes "application/vnd.in-toto+json"

-- The third-party code that a verification calls.
pub record Dependencies : Type 1 where
  pub crates : Crates
  pub ecdsa : Ecdsa
  pub x509 : X509Decoders
  pub der : DerCodec
  pub utf8_string : Bytes → Result Text Text
  pub subject_alt_name : Bytes → Result (List GeneralName) Text
  pub reader : JsonReader
  pub body_of : Value → Result RawTlogEntryBody Text
  pub statement_of : Value → Result RawStatement Text

-- What the entry check reads of a certificate.
abbrev pub facts : X509Certificate → CertificateFacts
facts c = record {
  subject_public_key_info_der = c.subject_public_key_info;
  not_before = c.validity_not_before;
  not_after = c.validity_not_after;
}

module _ (deps : Dependencies) where
  open deps use {
    crates, ecdsa, x509, der, utf8_string, subject_alt_name, reader, body_of, statement_of,
  }

  abbrev pub from_der : CertificateDecoder
  from_der b = map_ok (x509.certificate_from_der b) facts

  -- `Bundle::statement`
  abbrev pub bundle_statement : Bundle → Result Statement Error
  bundle_statement bundle = from_payload crates reader statement_of bundle.dsse_envelope.payload

  unfoldable pub verify_digest : Verifier → Subject → Bundle → Result VerificationReport Error
  unfolding str_eq from_payload find_subject verify_tlog_entry validate_chain from_spki_der
      verify_envelope verify_embedded_scts extract_claims match_policy
  verify_digest v subject bundle = do
    if not (str_eq bundle.dsse_envelope.payload_type supported_dsse_payload_type)
        then err (unsupported (dsse_payload_type bundle.dsse_envelope.payload_type))
        else ok tt
    statement ← bundle_statement bundle
    if not (str_eq statement.predicate_type supported_predicate_type)
        then err (unsupported (predicate_type statement.predicate_type))
        else ok tt
    matched ← ok_or (find_subject statement subject) (content_binding subject_not_found)
    verified_timestamp ←
        verify_tlog_entry crates ecdsa from_der reader body_of bundle v.trust_store
          v.checkpoint_origin_policy
    let authenticated_time = unix_seconds verified_timestamp.integrated_time
    validated_leaf ←
        validate_chain ecdsa x509 bundle.verification_material.certificate.raw_bytes v.trust_store
          authenticated_time
    leaf_key ← from_spki_der ecdsa validated_leaf.leaf_spki_der
    verify_envelope ecdsa bundle.dsse_envelope leaf_key
    verify_embedded_scts crates.digest ecdsa der validated_leaf v.trust_store
    claims ← extract_claims utf8_string subject_alt_name validated_leaf.leaf.extensions
    identity ← match_policy crates.hex_encode claims v.github_policy
    ok (record {
      subject = record { digest = subject; name = matched.name };
      signer = record {
        issuer = identity.issuer;
        source_repository = identity.source_repository;
        source_ref = identity.source_ref;
        signer_repository = identity.signer_repository;
        signer_workflow_path = identity.signer_workflow_path;
      };
      transparency = record {
        log_index = verified_timestamp.log_index;
        integrated_time = verified_timestamp.integrated_time;
      };
      statement = record {
        predicate_type = statement.predicate_type;
        predicate = statement.predicate;
      };
      trust = record { fingerprint = v.trust_store.fingerprint; source = v.trust_store.source };
    })

  unfoldable pub verify_bytes : Verifier → Bytes → Bundle → Result VerificationReport Error
  unfolding verify_digest
  verify_bytes v bytes bundle = verify_digest v (sha256_of crates bytes) bundle
