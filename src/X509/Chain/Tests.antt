-- ===== src/X509/Chain/Tests.antt =====
-- A leaf under an authority of one certificate, with stand-ins for the crates, and the theorem at it.
use attestation_verify.Prelude.{
  ◌≡◌, refl, true, false, some, none, [], ◌∷◌, Result, ok, err, Exists,
}
use attestation_verify.Prelude.Int.{pos}
use attestation_verify.Prelude.Text.{Bytes, Text, codes}
use attestation_verify.Errors.{certificate, outside_certificate_validity}
use attestation_verify.Crates.{Extension, X509Certificate, X509Decoders}
use attestation_verify.Trust.{TrustStore, CertificateAuthority}
use attestation_verify.Samples.{toy_ecdsa}
use attestation_verify.X509.Profile.{
  id_kp_code_signing, id_ce_key_usage, id_ce_basic_constraints, id_ce_ext_key_usage,
}
use attestation_verify.X509.Chain.{ValidatedLeaf, ecdsa_with_sha_256, validate_chain}
use attestation_verify.X509.Chain.Validated.{Vouches, validate_chain-Vouches}

abbrev usage_extension : Extension
usage_extension = record { extn_id = id_ce_key_usage; critical = true; extn_value = [] }

abbrev leaf : X509Certificate
leaf = record {
  subject = b'l' ∷ [];
  issuer = b'r' ∷ [];
  validity_not_before = 100;
  validity_not_after = 200;
  extensions =
      usage_extension
      ∷ record { extn_id = id_ce_ext_key_usage; critical = false; extn_value = [] }
      ∷ [];
  subject_public_key_info = ok (b'k' ∷ []);
  tbs_certificate = ok (b't' ∷ b'l' ∷ []);
  signature_algorithm = ecdsa_with_sha_256;
  signature = b't' ∷ [];
}

abbrev root : X509Certificate
root = record {
  subject = b'r' ∷ [];
  issuer = b'r' ∷ [];
  validity_not_before = 0;
  validity_not_after = 1000;
  extensions =
      usage_extension
      ∷ record { extn_id = id_ce_basic_constraints; critical = true; extn_value = [] }
      ∷ [];
  subject_public_key_info = ok (b'K' ∷ []);
  tbs_certificate = ok [];
  signature_algorithm = [];
  signature = [];
}

-- The empty document is the leaf, any other the root.
abbrev toy_certificate_from_der : Bytes → Result X509Certificate Text
toy_certificate_from_der [] = ok leaf
toy_certificate_from_der (x ∷ rest) = ok root

abbrev decoders : X509Decoders
decoders = record {
  certificate_from_der = toy_certificate_from_der;
  basic_constraints = λ b. some (record { ca = true; path_len_constraint = some 0 });
  key_usage = λ b. some (record { digital_signature = true; key_cert_sign = true });
  extended_key_usage = λ b. some (id_kp_code_signing ∷ []);
}

abbrev authority : CertificateAuthority
authority = record {
  subject = record { organization = []; common_name = [] };
  uri = [];
  certificates = record { raw_bytes = b'r' ∷ [] } ∷ [];
  valid_for = record { start = pos 0; end = none };
}

abbrev store : TrustStore
store = record {
  media_type = [];
  tlogs = [];
  ctlogs = [];
  certificate_authorities = authority ∷ [];
  timestamp_authorities = [];
  fingerprint = [];
  source = [];
}

abbrev validated : ValidatedLeaf
validated = record {
  leaf = leaf;
  leaf_spki_der = b'k' ∷ [];
  issuer_spki_der = b'K' ∷ [];
  chain_length = 1;
}

accepted : validate_chain toy_ecdsa decoders [] store (pos 150) ≡ ok validated
unfolding validate_chain codes toy_ecdsa
accepted = refl

-- The end of a certificate's validity is in it, and the next second is not.
accepted_last : validate_chain toy_ecdsa decoders [] store (pos 200) ≡ ok validated
unfolding validate_chain codes toy_ecdsa
accepted_last = refl

refused :
    validate_chain toy_ecdsa decoders [] store (pos 201)
    ≡ err (certificate outside_certificate_validity)
unfolding validate_chain codes toy_ecdsa
refused = refl

validate_chain-Vouches_example :
    (decoders.certificate_from_der [] ≡ ok leaf)
    × Exists (Vouches toy_ecdsa decoders (pos 150) validated) store.certificate_authorities
validate_chain-Vouches_example =
    validate_chain-Vouches toy_ecdsa decoders [] store (pos 150) validated accepted
