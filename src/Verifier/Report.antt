-- ===== src/Verifier/Report.antt =====
-- src/verifier.rs: the report of a verification, split by where its parts come from.
use attestation_verify.Prelude.{ℕ, Option}
use attestation_verify.Prelude.Text.{Text}
use attestation_verify.StrictJson.Tree.{Value}
use attestation_verify.Subject.{Subject}

pub record VerifiedSubject : Type 0 where
  pub digest : Subject
  pub name : Option Text

pub record VerifiedCertificateIdentity : Type 0 where
  pub issuer : Text
  pub source_repository : Text
  pub source_ref : Text
  pub signer_repository : Text
  pub signer_workflow_path : Text

pub record VerifiedTransparency : Type 0 where
  pub log_index : ℕ
  pub integrated_time : ℕ

pub record VerifiedSignedStatement : Type 0 where
  pub predicate_type : Text
  pub predicate : Value

pub record TrustSnapshotInfo : Type 0 where
  pub fingerprint : Text
  pub source : Text

pub record VerificationReport : Type 0 where
  pub subject : VerifiedSubject
  pub signer : VerifiedCertificateIdentity
  pub transparency : VerifiedTransparency
  pub statement : VerifiedSignedStatement
  pub trust : TrustSnapshotInfo
