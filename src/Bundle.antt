-- ===== src/Bundle.antt =====
-- src/bundle.rs: the hardened data model of a Sigstore bundle.
pub mod Raw
pub mod Set
use attestation_verify.Prelude.{ℕ, Option, List}
use attestation_verify.Prelude.Text.{Bytes, Text}

pub record Certificate : Type 0 where
  pub raw_bytes : Bytes

pub record InclusionPromise : Type 0 where
  pub signed_entry_timestamp : Bytes

pub record Checkpoint : Type 0 where
  pub envelope : Text

pub record InclusionProof : Type 0 where
  pub log_index : ℕ
  pub root_hash : Bytes
  pub tree_size : ℕ
  pub hashes : List Bytes
  pub checkpoint : Checkpoint

pub record TlogEntry : Type 0 where
  pub log_index : ℕ
  pub log_id_key_id : Bytes
  pub kind : Text
  pub version : Text
  pub integrated_time : ℕ
  pub inclusion_promise : Option InclusionPromise
  pub inclusion_proof : Option InclusionProof
  pub canonicalized_body : Bytes

pub record Rfc3161Timestamp : Type 0 where
  pub signed_timestamp : Bytes

pub record TimestampVerificationData : Type 0 where
  pub rfc3161_timestamps : List Rfc3161Timestamp

pub record VerificationMaterial : Type 0 where
  pub certificate : Certificate
  pub tlog_entries : List TlogEntry
  pub timestamp_verification_data : TimestampVerificationData

pub record DsseSignature : Type 0 where
  pub sig : Bytes
  pub keyid : Option Text

pub record DsseEnvelope : Type 0 where
  pub payload : Bytes
  pub payload_type : Text
  pub signature : DsseSignature

pub record Bundle : Type 0 where
  pub media_type : Text
  pub verification_material : VerificationMaterial
  pub dsse_envelope : DsseEnvelope
