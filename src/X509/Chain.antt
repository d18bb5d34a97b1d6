-- ===== src/X509/Chain.antt =====
-- src/x509.rs: the chain of a leaf to a certificate authority of the trust store.
pub mod Certified
pub mod Validated
mod Tests
use attestation_verify.Prelude.{
  ℕ, suc, Bool, true, false, not, ◌&&◌, ◌||◌, Option, some, none, is_none_or, List, [], ◌∷◌, length,
  Result, ok, err, ◌>>=◌, ◌>>◌, map_err, traverse, if◌then◌else◌, String,
}
use attestation_verify.Prelude.Int.{ℤ, leb_ℤ, ltb_ℤ}
use attestation_verify.Prelude.Text.{Bytes, Text, codes, str_eq}
use attestation_verify.Errors.{
  Error, certificate, untrusted_certificate, signature_invalid, issuer_name_mismatch,
  unsupported_signature_algorithm, outside_certificate_validity, outside_ca_validity,
}
use attestation_verify.Crates.{X509Certificate, X509Decoders}
use attestation_verify.Trust.{ValidityPeriod, CertificateAuthority, TrustStore}
use attestation_verify.Dsse.{
  Ecdsa, EcdsaVerifyingKey, p256, p384, from_spki_der, verify_der, invalid_certificate,
  unix_seconds,
}
use attestation_verify.X509.Profile.{verify_leaf_profile, verify_ca_profile}

abbrev pub ecdsa_with_sha_256 : Text
ecdsa_with_sha_256 = codes "1.2.840.10045.4.3.2"

abbrev pub ecdsa_with_sha_384 : Text
ecdsa_with_sha_384 = codes "1.2.840.10045.4.3.3"

pub record ValidatedLeaf : Type 0 where
  pub leaf : X509Certificate
  pub leaf_spki_der : Bytes
  pub issuer_spki_der : Bytes
  pub chain_length : ℕ

abbrev pub within_valid_for : ℤ → ValidityPeriod → Bool
within_valid_for t window = leb_ℤ window.start t && is_none_or window.end (λ (end : ℤ). ltb_ℤ t end)

unfoldable pub verify_time_window : X509Certificate → ℤ → Result (Unit {0}) Error
verify_time_window tbs authenticated_time =
    if ltb_ℤ authenticated_time (unix_seconds tbs.validity_not_before)
      || ltb_ℤ (unix_seconds tbs.validity_not_after) authenticated_time
    then err (certificate outside_certificate_validity)
    else ok tt

-- `encode_certificate_error`
abbrev pub encode : Result Bytes Text → Result Bytes Error
encode r = map_err r invalid_certificate

-- `name_matched_error` is set once.
abbrev pub keep_error : Option Error → Error → Option Error
keep_error none e = some e
keep_error (some first) e = some first

abbrev pub unwrap_or_untrusted : Option Error → Error
unwrap_or_untrusted none = certificate untrusted_certificate
unwrap_or_untrusted (some e) = e

module _ (ecdsa : Ecdsa) where
  abbrev pub expected_oid : EcdsaVerifyingKey ecdsa → Text
  expected_oid (p256 key) = ecdsa_with_sha_256
  expected_oid (p384 key) = ecdsa_with_sha_384

  unfoldable pub verify_signature : X509Certificate → X509Certificate → Result (Unit {0}) Error
  unfolding str_eq from_spki_der verify_der
  verify_signature child issuer = do
    issuer_spki_der ← encode issuer.subject_public_key_info
    issuer_key ← from_spki_der ecdsa issuer_spki_der
    if not (str_eq child.signature_algorithm (expected_oid issuer_key))
        then err (certificate unsupported_signature_algorithm)
        else ok tt
    tbs_der ← encode child.tbs_certificate
    if verify_der ecdsa issuer_key tbs_der child.signature
        then ok tt
        else err (certificate signature_invalid)

module _ (ecdsa : Ecdsa) (decoders : X509Decoders) where
  -- The loop over the chain, at the index `i`, with the certificate that is signed.
  unfoldable pub walk_chain :
      X509Certificate → ℕ → List X509Certificate → ℤ → Result (Unit {0}) Error
  unfolding str_eq verify_time_window verify_ca_profile verify_signature
  walk_chain signee i [] authenticated_time = ok tt
  walk_chain signee i (issuer ∷ chain) authenticated_time = do
    if not (str_eq issuer.subject signee.issuer)
        then err (certificate issuer_name_mismatch)
        else ok tt
    verify_time_window issuer authenticated_time
    verify_ca_profile decoders issuer i
    verify_signature ecdsa signee issuer
    walk_chain issuer (suc i) chain authenticated_time

  abbrev pub decode_certificate : Bytes → Result X509Certificate Error
  decode_certificate b = map_err (decoders.certificate_from_der b) invalid_certificate

  -- The checks on a chain whose first certificate has the leaf's issuer as its subject.
  unfoldable pub validate_named :
      X509Certificate
      → CertificateAuthority
      → X509Certificate
      → List X509Certificate
      → ℤ
      → Result (Option ValidatedLeaf) Error
  unfolding verify_time_window verify_leaf_profile walk_chain
  validate_named leaf ca direct_issuer chain authenticated_time = do
    if not (within_valid_for authenticated_time ca.valid_for)
        then err (certificate outside_ca_validity)
        else ok tt
    verify_time_window leaf authenticated_time
    verify_leaf_profile decoders leaf
    walk_chain leaf 0 chain authenticated_time
    leaf_spki_der ← encode leaf.subject_public_key_info
    issuer_spki_der ← encode direct_issuer.subject_public_key_info
    ok (
        some (record {
          leaf = leaf;
          leaf_spki_der = leaf_spki_der;
          issuer_spki_der = issuer_spki_der;
          chain_length = length chain;
        }))

  abbrev pub validate_decoded :
      X509Certificate
      → CertificateAuthority
      → List X509Certificate
      → ℤ
      → Result (Option ValidatedLeaf) Error
  validate_decoded leaf ca [] t = ok none
  validate_decoded leaf ca (direct_issuer ∷ rest) t =
      let checked = validate_named leaf ca direct_issuer (direct_issuer ∷ rest) t in
      if not (str_eq direct_issuer.subject leaf.issuer) then ok none else checked

  unfoldable pub try_validate_against_ca :
      X509Certificate → CertificateAuthority → ℤ → Result (Option ValidatedLeaf) Error
  unfolding traverse str_eq validate_named
  try_validate_against_ca leaf ca authenticated_time =
      traverse (λ c. decode_certificate c.raw_bytes) ca.certificates >>= λ chain.
      validate_decoded leaf ca chain authenticated_time

  abbrev pub after_ca :
      Result (Option ValidatedLeaf) Error
      → Option Error
      → (Option Error → Result ValidatedLeaf Error)
      → Result ValidatedLeaf Error
  after_ca (ok (some validated)) first rest = ok validated
  after_ca (ok none) first rest = rest first
  after_ca (err e) first rest = rest (keep_error first e)

  -- The loop over the authorities, with the first error so far.
  unfoldable pub try_authorities :
      X509Certificate → List CertificateAuthority → ℤ → Option Error → Result ValidatedLeaf Error
  unfolding try_validate_against_ca
  try_authorities leaf [] t first = err (unwrap_or_untrusted first)
  try_authorities leaf (ca ∷ cas) t first =
      after_ca (try_validate_against_ca leaf ca t) first (try_authorities leaf cas t)

  unfoldable pub validate_chain : Bytes → TrustStore → ℤ → Result ValidatedLeaf Error
  unfolding try_authorities
  validate_chain leaf_der trust_store authenticated_time_unix =
      decode_certificate leaf_der >>= λ leaf.
      try_authorities leaf trust_store.certificate_authorities authenticated_time_unix none
