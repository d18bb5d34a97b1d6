-- ===== src/X509/Profile.antt =====
-- src/x509.rs: the profiles of a leaf and of a certificate authority.
use attestation_verify.Prelude.{
  ℕ, Bool, false, not, ◌&&◌, Option, some, none, List, [], ◌∷◌, any, Result, ok, err, ◌>>=◌, ◌>>◌,
  ok_or, ltb, if◌then◌else◌,
}
use attestation_verify.Prelude.Text.{Bytes, Text, codes, str_eq}
use attestation_verify.Errors.{
  Error, certificate, invalid_der, invalid_basic_constraints, path_length_exceeded,
  missing_key_usage, missing_code_signing_eku, unknown_critical_extension,
}
use attestation_verify.Crates.{Extension, X509Certificate, X509Decoders, BasicConstraints}
use attestation_verify.X509.{find_extension}

abbrev pub id_kp_code_signing : Text
id_kp_code_signing = codes "1.3.6.1.5.5.7.3.3"

abbrev pub sct_list_oid : Text
sct_list_oid = codes "1.3.6.1.4.1.11129.2.4.2"

abbrev pub id_ce_key_usage : Text
id_ce_key_usage = codes "2.5.29.15"

abbrev pub id_ce_subject_alt_name : Text
id_ce_subject_alt_name = codes "2.5.29.17"

abbrev pub id_ce_basic_constraints : Text
id_ce_basic_constraints = codes "2.5.29.19"

abbrev pub id_ce_ext_key_usage : Text
id_ce_ext_key_usage = codes "2.5.29.37"

abbrev pub known_leaf_extension_oids : List Text
known_leaf_extension_oids =
    id_ce_key_usage ∷ id_ce_ext_key_usage ∷ id_ce_basic_constraints ∷ id_ce_subject_alt_name
    ∷ sct_list_oid ∷ []

abbrev pub known_ca_critical_extension_oids : List Text
known_ca_critical_extension_oids = id_ce_key_usage ∷ id_ce_basic_constraints ∷ []

-- `T::from_der(value).map_err(..)?`, under the extension that was found
abbrev pub decode_found {ℓ} :
    {A : Type ℓ} → (Bytes → Option A) → Option Extension → Result (Option A) Error
decode_found decode none = ok none
decode_found decode (some ext) =
    ok_or (decode ext.extn_value) (certificate (invalid_der (codes "certificate extension value")))
    >>= λ a. ok (some a)

unfoldable pub find_extension_decoded {ℓ} :
    {A : Type ℓ} → (Bytes → Option A) → List Extension → Text → Result (Option A) Error
unfolding find_extension
find_extension_decoded decode extensions oid =
    find_extension extensions oid >>= λ found. decode_found decode found

-- The loop stops at the first extension that is refused.
unfoldable pub reject_unknown_critical_extensions :
    List Extension → List Text → Result (Unit {0}) Error
unfolding any str_eq
reject_unknown_critical_extensions [] known = ok tt
reject_unknown_critical_extensions (ext ∷ extensions) known = do
  if ext.critical && not (any (λ oid. str_eq oid ext.extn_id) known)
      then err (certificate unknown_critical_extension)
      else ok tt
  reject_unknown_critical_extensions extensions known

-- `let Some(max) = max && count > max`
abbrev pub exceeds : Option ℕ → ℕ → Bool
exceeds none count = false
exceeds (some max) count = ltb max count

-- `let Some(bc) = bc && bc.ca`
abbrev pub is_ca : Option BasicConstraints → Bool
is_ca none = false
is_ca (some bc) = bc.ca

module _ (decoders : X509Decoders) where
  unfoldable pub verify_leaf_profile : X509Certificate → Result (Unit {0}) Error
  unfolding reject_unknown_critical_extensions find_extension_decoded any str_eq
  verify_leaf_profile leaf = do
    reject_unknown_critical_extensions leaf.extensions known_leaf_extension_oids
    bc ← find_extension_decoded decoders.basic_constraints leaf.extensions id_ce_basic_constraints
    if is_ca bc then err (certificate invalid_basic_constraints) else ok tt
    usage ← find_extension_decoded decoders.key_usage leaf.extensions id_ce_key_usage
    key_usage ← ok_or usage (certificate missing_key_usage)
    if not key_usage.digital_signature then err (certificate missing_key_usage) else ok tt
    found ← find_extension_decoded decoders.extended_key_usage leaf.extensions id_ce_ext_key_usage
    eku ← ok_or found (certificate missing_code_signing_eku)
    if not (any (λ oid. str_eq oid id_kp_code_signing) eku)
        then err (certificate missing_code_signing_eku)
        else ok tt

  unfoldable pub verify_ca_profile : X509Certificate → ℕ → Result (Unit {0}) Error
  unfolding reject_unknown_critical_extensions find_extension_decoded
  verify_ca_profile cert subordinate_ca_count = do
    reject_unknown_critical_extensions cert.extensions known_ca_critical_extension_oids
    found ←
        find_extension_decoded decoders.basic_constraints cert.extensions id_ce_basic_constraints
    bc ← ok_or found (certificate invalid_basic_constraints)
    if not bc.ca then err (certificate invalid_basic_constraints) else ok tt
    if exceeds bc.path_len_constraint subordinate_ca_count
        then err (certificate path_length_exceeded)
        else ok tt
    usage ← find_extension_decoded decoders.key_usage cert.extensions id_ce_key_usage
    key_usage ← ok_or usage (certificate missing_key_usage)
    if not key_usage.key_cert_sign then err (certificate missing_key_usage) else ok tt
