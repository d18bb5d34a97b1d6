-- ===== src/Errors.antt =====
-- src/error.rs: the error taxonomy. A message that the code formats is the text that it formats;
-- what a third-party crate prints into a message comes from the parameters of the model.
use attestation_verify.Prelude.{ℕ, ◌++◌, Result, map_err}
use attestation_verify.Prelude.Decimal.{to_string}
use attestation_verify.Prelude.Text.{Text, codes}

pub data ParseError : Type 0 where
  json : Text → ParseError
  base64 : (field reason : Text) → ParseError
  hex : (field reason : Text) → ParseError
  malformed_digest : Text → ParseError
  not_an_integer : (field value : Text) → ParseError
  dsse_signature_count : (count : ℕ) → ParseError
  missing_field : Text → ParseError
  empty_container : Text → ParseError
  malformed_subject : Text → ParseError
  rfc3339 : (field reason : Text) → ParseError
  checkpoint : Text → ParseError

-- The text of a parse error, which an error of a policy can take in.
abbrev pub display_parse : ParseError → Text
display_parse (json e) = codes "invalid JSON: " ++ e
display_parse (base64 field reason) =
    codes "invalid base64 in field `" ++ (field ++ (codes "`: " ++ reason))
display_parse (hex field reason) =
    codes "invalid hex in field `" ++ (field ++ (codes "`: " ++ reason))
display_parse (malformed_digest e) = codes "malformed digest: " ++ e
display_parse (not_an_integer field value) =
    codes "field `" ++ (field ++ (codes "` is not a valid integer: " ++ value))
display_parse (dsse_signature_count count) =
    codes "dsse envelope has " ++ (to_string count ++ codes " signatures, expected exactly 1")
display_parse (missing_field field) = codes "missing required field `" ++ (field ++ codes "`")
display_parse (empty_container what) = codes "empty container: " ++ what
display_parse (malformed_subject e) = codes "statement subject has no usable digest: " ++ e
display_parse (rfc3339 field reason) =
    codes "invalid RFC 3339 timestamp in field `" ++ (field ++ (codes "`: " ++ reason))
display_parse (checkpoint e) = codes "malformed checkpoint envelope: " ++ e

pub data UnsupportedError : Type 0 where
  media_type : (found : Text) → UnsupportedError
  bundles_not_inline : UnsupportedError
  tlog_entry_kind_version : (kind version : Text) → UnsupportedError
  dsse_payload_type : (found : Text) → UnsupportedError
  statement_type : (found : Text) → UnsupportedError
  predicate_type : (found : Text) → UnsupportedError
  multiple_tlog_entries : (count : ℕ) → UnsupportedError

pub data TrustError : Type 0 where
  unknown_key_id no_trusted_key_valid_at : TrustError

pub data CertificateError : Type 0 where
  invalid_der : Text → CertificateError
  unsupported_key_algorithm unsupported_signature_algorithm : CertificateError
  untrusted_certificate signature_invalid issuer_name_mismatch : CertificateError
  outside_certificate_validity outside_ca_validity : CertificateError
  invalid_basic_constraints path_length_exceeded missing_key_usage : CertificateError
  missing_code_signing_eku unknown_critical_extension duplicate_extension : CertificateError
  sct_missing sct_invalid unknown_ct_log sct_outside_key_validity : CertificateError

pub data TransparencyError : Type 0 where
  inclusion_proof_invalid no_tlog_entries unknown_log_key : TransparencyError
  set_missing set_invalid inclusion_proof_missing : TransparencyError
  checkpoint_tree_size_mismatch checkpoint_root_hash_mismatch : TransparencyError
  checkpoint_signature_invalid checkpoint_origin_mismatch : TransparencyError

pub data TimestampError : Type 0 where
  invalid : TimestampError
  integrated_time_outside_log_key_validity : TimestampError
  integrated_time_outside_certificate_validity : TimestampError

pub data ContentBindingError : Type 0 where
  subject_not_found dsse_signature_invalid : ContentBindingError
  tlog_entry_kind_version_mismatch tlog_entry_signature_mismatch : ContentBindingError
  tlog_entry_certificate_mismatch tlog_entry_payload_hash_mismatch : ContentBindingError
  tlog_entry_envelope_hash_mismatch : ContentBindingError

pub data PolicyError : Type 0 where
  invalid_configuration : Text → PolicyError
  missing_identity_claim : (claim : Text) → PolicyError
  malformed_identity_claim : (claim reason : Text) → PolicyError
  issuer_mismatch : (expected found : Text) → PolicyError
  source_repository_mismatch : (expected found : Text) → PolicyError
  source_owner_id_mismatch : (expected found : Text) → PolicyError
  source_repository_id_mismatch : (expected found : Text) → PolicyError
  source_ref_mismatch : (expected found : Text) → PolicyError
  source_commit_mismatch : (expected found : Text) → PolicyError
  signer_repository_mismatch : (expected found : Text) → PolicyError
  signer_workflow_path_mismatch : (expected found : Text) → PolicyError
  signer_revision_mismatch : (expected found : Text) → PolicyError

pub data ResourceLimitError : Type 0 where
  input_too_large : (actual limit : ℕ) → ResourceLimitError
  too_many_json_nodes : (limit : ℕ) → ResourceLimitError
  too_many_tlog_entries : (actual limit : ℕ) → ResourceLimitError
  too_many_subjects : (actual limit : ℕ) → ResourceLimitError
  too_many_bundles : (actual limit : ℕ) → ResourceLimitError
  too_many_certificates : (actual limit : ℕ) → ResourceLimitError
  too_many_checkpoint_signatures : (actual limit : ℕ) → ResourceLimitError

pub data Error : Type 0 where
  parse : ParseError → Error
  unsupported : UnsupportedError → Error
  trust : TrustError → Error
  certificate : CertificateError → Error
  transparency : TransparencyError → Error
  timestamp : TimestampError → Error
  content_binding : ContentBindingError → Error
  policy : PolicyError → Error
  resource_limit : ResourceLimitError → Error

-- The `From` conversions that `?` makes.
abbrev pub from_parse {ℓ} : {A : Type ℓ} → Result A ParseError → Result A Error
from_parse r = map_err r parse

abbrev pub from_limit {ℓ} : {A : Type ℓ} → Result A ResourceLimitError → Result A Error
from_limit r = map_err r resource_limit
