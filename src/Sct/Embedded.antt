-- ===== src/Sct/Embedded.antt =====
-- src/sct.rs: the SCTs of a certificate. The list is taken out of its extension, and the
-- precertificate is made again, by the crates der and x509_cert, which are a parameter.
pub mod Precert
pub mod Sound
mod Tests
use attestation_verify.Prelude.{
  ℕ, Bool, true, false, not, ◌==◌, Option, some, none, List, [], ◌∷◌, ◌++◌, keep, is_empty, Result,
  ok, err, ◌>>=◌, ◌>>◌, ok_or, map_err, if◌then◌else◌, String,
}
use attestation_verify.Prelude.Text.{Bytes, codes, str_eq}
use attestation_verify.Errors.{Error, certificate, sct_missing}
use attestation_verify.Crates.{
  Extension, X509Certificate, Tag, context_specific, universal, AnyRef, DerCodec,
}
use attestation_verify.Trust.{TrustStore}
use attestation_verify.Dsse.{Ecdsa, invalid_certificate}
use attestation_verify.X509.{has_oid, find_extension}
use attestation_verify.X509.Profile.{sct_list_oid}
use attestation_verify.X509.Chain.{ValidatedLeaf}
use attestation_verify.Sct.{parse_sct_list, verify_any_sct}

abbrev pub extensions_context_tag : Tag
extensions_context_tag = context_specific true 3

-- `tag == EXTENSIONS_CONTEXT_TAG`
abbrev pub is_extensions_tag : Tag → Bool
is_extensions_tag (context_specific true n) = n == 3
is_extensions_tag (context_specific false n) = false
is_extensions_tag (universal n) = false

-- `fields.pop()`: the last field, and what is in front of it.
unfoldable pub pop {ℓ} : {A : Type ℓ} → List A → Option (List A × A)
pop [] = none
pop (x ∷ []) = some ([], x)
pop (x ∷ y ∷ rest) = elim (pop (y ∷ rest)) [
  | none ↦ none
  | some (front, last) ↦ some (x ∷ front, last)
]

-- The errors of the crates carry the text of their message.
abbrev pub invalid_der_of {ℓ} : {A : Type ℓ} → Result A Bytes → Result A Error
invalid_der_of r = map_err r invalid_certificate

-- `!(ext.extn_id == SCT_LIST_OID)`
abbrev pub is_other : Extension → Bool
is_other e = not (has_oid sct_list_oid e)

module _ (codec : DerCodec) where
  unfoldable pub extract_sct_list_bytes : X509Certificate → Result Bytes Error
  unfolding find_extension
  extract_sct_list_bytes tbs = do
    found ← find_extension tbs.extensions sct_list_oid
    ext ← ok_or found (certificate sct_missing)
    invalid_der_of (codec.octet_string_from_der ext.extn_value)

  unfoldable pub precert_tbs_der : Bytes → Result Bytes Error
  unfolding pop keep str_eq
  precert_tbs_der tbs_der = do
    fields ← invalid_der_of (codec.fields_from_der tbs_der)
    (front, ext_field) ←
        ok_or (pop fields) (invalid_certificate (codes "TBSCertificate has no fields"))
    if not (is_extensions_tag ext_field.tag)
        then err (
            invalid_certificate
              (codes "TBSCertificate's last field is not a [3] EXPLICIT extensions wrapper"))
        else ok tt
    extensions ← invalid_der_of (codec.extensions_from_der ext_field.value)
    filtered_der ← invalid_der_of (codec.extensions_to_der (keep is_other extensions))
    new_ext_field ← invalid_der_of (codec.any_ref_new extensions_context_tag filtered_der)
    invalid_der_of (codec.fields_to_der (front ++ new_ext_field ∷ []))

module _ (digest : Bytes → Bytes) (ecdsa : Ecdsa) (codec : DerCodec) where
  unfoldable pub verify_embedded_scts : ValidatedLeaf → TrustStore → Result (Unit {0}) Error
  unfolding extract_sct_list_bytes parse_sct_list precert_tbs_der verify_any_sct
  verify_embedded_scts validated trust_store = do
    sct_list_bytes ← extract_sct_list_bytes codec validated.leaf
    scts ← parse_sct_list sct_list_bytes
    if is_empty scts then err (certificate sct_missing) else ok tt
    tbs_der ← invalid_der_of validated.leaf.tbs_certificate
    precert_tbs ← precert_tbs_der codec tbs_der
    let issuer_key_hash = digest validated.issuer_spki_der
    verify_any_sct digest ecdsa scts none precert_tbs issuer_key_hash trust_store
