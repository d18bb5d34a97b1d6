-- ===== src/Trust.antt =====
-- src/trust.rs: the trust store and what it is made of.
pub mod Raw
use attestation_verify.Prelude.{Option, List}
use attestation_verify.Prelude.Int.{ℤ}
use attestation_verify.Prelude.Text.{Bytes, Text}
use attestation_verify.Bundle.{Certificate}

pub record ValidityPeriod : Type 0 where
  pub start : ℤ
  pub end : Option ℤ

pub record PublicKey : Type 0 where
  pub raw_bytes : Bytes
  pub key_details : Text
  pub valid_for : ValidityPeriod

pub record TransparencyLog : Type 0 where
  pub base_url : Text
  pub hash_algorithm : Text
  pub public_key : PublicKey
  pub log_id_key_id : Bytes
  pub checkpoint_key_id : Option Bytes

pub record CtLog : Type 0 where
  pub base_url : Text
  pub hash_algorithm : Text
  pub public_key : PublicKey
  pub log_id_key_id : Bytes

pub record CaSubject : Type 0 where
  pub organization : Text
  pub common_name : Text

pub record CertificateAuthority : Type 0 where
  pub subject : CaSubject
  pub uri : Text
  pub certificates : List Certificate
  pub valid_for : ValidityPeriod

pub record TrustStore : Type 0 where
  pub media_type : Text
  pub tlogs : List TransparencyLog
  pub ctlogs : List CtLog
  pub certificate_authorities : List CertificateAuthority
  pub timestamp_authorities : List CertificateAuthority
  pub fingerprint : Text
  pub source : Text
