-- ===== src/Fulcio.antt =====
-- src/fulcio.rs: the identity claims of a leaf certificate. The decoders of DER are parameters: of a
-- UTF8String, and of the names of a subjectAltName. An object identifier is its dotted text.
pub mod Extracted
mod Tests
use attestation_verify.Prelude.{
  Option, some, none, List, [], ◌∷◌, ◌++◌, Result, ok, err, ◌>>=◌, map_err,
}
use attestation_verify.Prelude.Text.{Bytes, Text, codes}
use attestation_verify.Errors.{Error, certificate, invalid_der}
use attestation_verify.Crates.{Extension, GeneralName, uniform_resource_identifier, other_name}
use attestation_verify.X509.{find_extension}

pub record FulcioClaims : Type 0 where
  pub san_uri : Option Text
  pub issuer : Option Text
  pub build_signer_uri : Option Text
  pub build_signer_digest : Option Text
  pub runner_environment : Option Text
  pub source_repository_uri : Option Text
  pub source_repository_digest : Option Text
  pub source_repository_ref : Option Text
  pub source_repository_id : Option Text
  pub source_repository_owner_uri : Option Text
  pub source_repository_owner_id : Option Text
  pub build_config_uri : Option Text
  pub build_config_digest : Option Text
  pub build_trigger : Option Text
  pub run_invocation_uri : Option Text

abbrev pub id_ce_subject_alt_name : Text
id_ce_subject_alt_name = codes "2.5.29.17"

-- `fulcio_oid!(n)`
abbrev pub fulcio_oid : Text → Text
fulcio_oid n = codes "1.3.6.1.4.1.57264.1." ++ n

abbrev pub oid_issuer : Text
oid_issuer = fulcio_oid (codes "8")

abbrev pub oid_build_signer_uri : Text
oid_build_signer_uri = fulcio_oid (codes "9")

abbrev pub oid_build_signer_digest : Text
oid_build_signer_digest = fulcio_oid (codes "10")

abbrev pub oid_runner_environment : Text
oid_runner_environment = fulcio_oid (codes "11")

abbrev pub oid_source_repository_uri : Text
oid_source_repository_uri = fulcio_oid (codes "12")

abbrev pub oid_source_repository_digest : Text
oid_source_repository_digest = fulcio_oid (codes "13")

abbrev pub oid_source_repository_ref : Text
oid_source_repository_ref = fulcio_oid (codes "14")

abbrev pub oid_source_repository_id : Text
oid_source_repository_id = fulcio_oid (codes "15")

abbrev pub oid_source_repository_owner_uri : Text
oid_source_repository_owner_uri = fulcio_oid (codes "16")

abbrev pub oid_source_repository_owner_id : Text
oid_source_repository_owner_id = fulcio_oid (codes "17")

abbrev pub oid_build_config_uri : Text
oid_build_config_uri = fulcio_oid (codes "18")

abbrev pub oid_build_config_digest : Text
oid_build_config_digest = fulcio_oid (codes "19")

abbrev pub oid_build_trigger : Text
oid_build_trigger = fulcio_oid (codes "20")

abbrev pub oid_run_invocation_uri : Text
oid_run_invocation_uri = fulcio_oid (codes "21")

-- The first URI among the names.
abbrev pub first_uri : List GeneralName → Option Text
first_uri [] = none
first_uri (uniform_resource_identifier uri ∷ names) = some uri
first_uri (other_name ∷ names) = first_uri names

abbrev pub invalid {ℓ} : {A : Type ℓ} → Result A Text → Result A Error
invalid r = map_err r (λ reason. certificate (invalid_der reason))

unfoldable pub extract_utf8_claim :
    (Bytes → Result Text Text) → List Extension → Text → Result (Option Text) Error
unfolding find_extension
extract_utf8_claim utf8_string extensions oid = find_extension extensions oid >>= λ found.
    elim found [
      | none ↦ ok none
      | some ext ↦ invalid (utf8_string ext.extn_value) >>= λ s. ok (some s)
    ]

unfoldable pub extract_san_uri :
    (Bytes → Result (List GeneralName) Text) → List Extension → Result (Option Text) Error
unfolding find_extension
extract_san_uri subject_alt_name extensions =
    find_extension extensions id_ce_subject_alt_name >>= λ found. elim found [
      | none ↦ ok none
      | some ext ↦ invalid (subject_alt_name ext.extn_value) >>= λ names. ok (first_uri names)
    ]

module _ (utf8_string : Bytes → Result Text Text)
    (subject_alt_name : Bytes → Result (List GeneralName) Text) where
  unfoldable pub extract_claims : List Extension → Result FulcioClaims Error
  unfolding extract_utf8_claim extract_san_uri
  extract_claims extensions = do
    san_uri ← extract_san_uri subject_alt_name extensions
    issuer ← extract_utf8_claim utf8_string extensions oid_issuer
    build_signer_uri ← extract_utf8_claim utf8_string extensions oid_build_signer_uri
    build_signer_digest ← extract_utf8_claim utf8_string extensions oid_build_signer_digest
    runner_environment ← extract_utf8_claim utf8_string extensions oid_runner_environment
    source_repository_uri ← extract_utf8_claim utf8_string extensions oid_source_repository_uri
    source_repository_digest ←
        extract_utf8_claim utf8_string extensions oid_source_repository_digest
    source_repository_ref ← extract_utf8_claim utf8_string extensions oid_source_repository_ref
    source_repository_id ← extract_utf8_claim utf8_string extensions oid_source_repository_id
    source_repository_owner_uri ←
        extract_utf8_claim utf8_string extensions oid_source_repository_owner_uri
    source_repository_owner_id ←
        extract_utf8_claim utf8_string extensions oid_source_repository_owner_id
    build_config_uri ← extract_utf8_claim utf8_string extensions oid_build_config_uri
    build_config_digest ← extract_utf8_claim utf8_string extensions oid_build_config_digest
    build_trigger ← extract_utf8_claim utf8_string extensions oid_build_trigger
    run_invocation_uri ← extract_utf8_claim utf8_string extensions oid_run_invocation_uri
    ok (record {
      san_uri = san_uri;
      issuer = issuer;
      build_signer_uri = build_signer_uri;
      build_signer_digest = build_signer_digest;
      runner_environment = runner_environment;
      source_repository_uri = source_repository_uri;
      source_repository_digest = source_repository_digest;
      source_repository_ref = source_repository_ref;
      source_repository_id = source_repository_id;
      source_repository_owner_uri = source_repository_owner_uri;
      source_repository_owner_id = source_repository_owner_id;
      build_config_uri = build_config_uri;
      build_config_digest = build_config_digest;
      build_trigger = build_trigger;
      run_invocation_uri = run_invocation_uri;
    })
