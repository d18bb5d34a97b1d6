-- ===== src/Fulcio/Tests.antt =====
-- Claims that are extracted, and the theorem at them.
use attestation_verify.Prelude.{◌≡◌, refl, some, none, List, [], ◌∷◌, Result, ok, err, false, true}
use attestation_verify.Prelude.Text.{Bytes, Text, codes}
use attestation_verify.Errors.{certificate, duplicate_extension}
use attestation_verify.Crates.{Extension, GeneralName, uniform_resource_identifier, other_name}
use attestation_verify.Fulcio.{
  FulcioClaims, id_ce_subject_alt_name, oid_issuer, oid_build_trigger, extract_claims,
}
use attestation_verify.Fulcio.Extracted.{AreClaims, extract_claims_iff}

-- A stand-in for the decoders: the value is the text.
abbrev utf8_string : Bytes → Result Text Text
utf8_string b = ok b

abbrev subject_alt_name : Bytes → Result (List GeneralName) Text
subject_alt_name b = ok (other_name ∷ uniform_resource_identifier b ∷ [])

abbrev issuer_extension : Extension
issuer_extension = record { extn_id = oid_issuer; critical = false; extn_value = b'i' ∷ [] }

abbrev extensions : List Extension
extensions =
    issuer_extension
    ∷ record { extn_id = id_ce_subject_alt_name; critical = true; extn_value = b'u' ∷ [] }
    ∷ record { extn_id = oid_build_trigger; critical = false; extn_value = b't' ∷ [] }
    ∷ []

abbrev claims : FulcioClaims
claims = record {
  san_uri = some (b'u' ∷ []);
  issuer = some (b'i' ∷ []);
  build_signer_uri = none;
  build_signer_digest = none;
  runner_environment = none;
  source_repository_uri = none;
  source_repository_digest = none;
  source_repository_ref = none;
  source_repository_id = none;
  source_repository_owner_uri = none;
  source_repository_owner_id = none;
  build_config_uri = none;
  build_config_digest = none;
  build_trigger = some (b't' ∷ []);
  run_invocation_uri = none;
}

extracted : extract_claims utf8_string subject_alt_name extensions ≡ ok claims
unfolding extract_claims codes
extracted = refl

-- An extension that is there twice is refused.
refusal :
    extract_claims utf8_string subject_alt_name (issuer_extension ∷ extensions)
    ≡ err (certificate duplicate_extension)
unfolding extract_claims codes
refusal = refl

extract_claims_iff_example : AreClaims utf8_string subject_alt_name extensions claims
extract_claims_iff_example =
    (extract_claims_iff utf8_string subject_alt_name extensions claims).0 extracted
