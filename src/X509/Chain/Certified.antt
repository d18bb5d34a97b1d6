-- ===== src/X509/Chain/Certified.antt =====
-- What the checks of one certificate guarantee: its validity, its profile, and its signature.
use attestation_verify.Prelude.{
  unnegated, ℕ, ◌≡◌, ap, ◌∙◌, true, false, not, ◌&&◌, Option, some, List, [], ◌∷◌, any, ok, ok_or,
  ok_or-eq-ok, map_err-eq-ok, passed, refused_not, last_met, last_refused_not, or_false, All,
}
use attestation_verify.Prelude.Int.{ℤ, ltb_ℤ}
use attestation_verify.Prelude.Text.{Bytes, Text, str_eq}
use attestation_verify.Prelude.Text.Laws.{str_eq→eq}
use attestation_verify.Crates.{Extension, X509Certificate, X509Decoders, BasicConstraints, KeyUsage}
use attestation_verify.Dsse.{Ecdsa, EcdsaVerifyingKey, from_spki_der, verify_der, unix_seconds}
use attestation_verify.X509.Profile.{
  id_kp_code_signing, id_ce_key_usage, id_ce_basic_constraints, id_ce_ext_key_usage,
  known_leaf_extension_oids, known_ca_critical_extension_oids, find_extension_decoded,
  reject_unknown_critical_extensions, exceeds, is_ca, verify_leaf_profile, verify_ca_profile,
}
use attestation_verify.X509.Chain.{verify_time_window, encode, expected_oid, verify_signature}

-- Both ends of a certificate's validity are in it.
abbrev pub IsInValidity : X509Certificate → ℤ → Type 0
IsInValidity c t =
    (ltb_ℤ t (unix_seconds c.validity_not_before) ≡ false)
    × (ltb_ℤ (unix_seconds c.validity_not_after) t ≡ false)

pub verify_time_window-IsInValidity :
    (c : X509Certificate) (t : ℤ) → verify_time_window c t ≡ ok tt → IsInValidity c t
unfolding verify_time_window
verify_time_window-IsInValidity c t e = or_false _ _ (last_refused_not _ _ e)

-- A certificate whose critical extensions are all known.
abbrev pub AreKnown : List Text → List Extension → Type 0
AreKnown known es =
    All (λ (x : Extension). (x.critical && not (any (λ oid. str_eq oid x.extn_id) known)) ≡ false)
      es

pub reject-AreKnown :
    (known : List Text) (es : List Extension)
    → reject_unknown_critical_extensions es known ≡ ok tt
    → AreKnown known es
unfolding reject_unknown_critical_extensions
reject-AreKnown known [] e = tt
reject-AreKnown known (x ∷ es) e =
    refused_not (x.critical && not (any (λ oid. str_eq oid x.extn_id) known)) _ _ e
      (λ here e. (here, reject-AreKnown known es e))

module _ (ecdsa : Ecdsa) (decoders : X509Decoders) where
  -- The issuer's key, of one of the two curves, verifies the certificate with the curve's algorithm.
  abbrev pub Signs : X509Certificate → X509Certificate → Type 0
  Signs issuer child =
      (spki : Bytes) × (key : EcdsaVerifyingKey ecdsa) × (tbs : Bytes)
      × (issuer.subject_public_key_info ≡ ok spki)
      × (from_spki_der ecdsa spki ≡ ok key)
      × (child.signature_algorithm ≡ expected_oid ecdsa key)
      × (child.tbs_certificate ≡ ok tbs)
      × (verify_der ecdsa key tbs child.signature ≡ true)

  -- A certificate authority that may stand over `below` others and may sign certificates.
  abbrev pub IsAuthority : X509Certificate → ℕ → Type 0
  IsAuthority c below =
      (bc : BasicConstraints) × (usage : KeyUsage) × AreKnown known_ca_critical_extension_oids
        c.extensions
      × (find_extension_decoded decoders.basic_constraints c.extensions id_ce_basic_constraints
          ≡ ok (some bc))
      × (bc.ca ≡ true)
      × (exceeds bc.path_len_constraint below ≡ false)
      × (find_extension_decoded decoders.key_usage c.extensions id_ce_key_usage ≡ ok (some usage))
      × (usage.key_cert_sign ≡ true)

  -- A leaf: no authority, whose key signs, and code.
  abbrev pub IsLeaf : X509Certificate → Type 0
  IsLeaf c =
      (bc : Option BasicConstraints) × (usage : KeyUsage) × (eku : List Text) × AreKnown
        known_leaf_extension_oids c.extensions
      × (find_extension_decoded decoders.basic_constraints c.extensions id_ce_basic_constraints
          ≡ ok bc)
      × (is_ca bc ≡ false)
      × (find_extension_decoded decoders.key_usage c.extensions id_ce_key_usage ≡ ok (some usage))
      × (usage.digital_signature ≡ true)
      × (find_extension_decoded decoders.extended_key_usage c.extensions id_ce_ext_key_usage
          ≡ ok (some eku))
      × (any (λ oid. str_eq oid id_kp_code_signing) eku ≡ true)

  pub verify_signature-Signs :
      (child issuer : X509Certificate)
      → verify_signature ecdsa child issuer ≡ ok tt
      → Signs issuer child
  unfolding verify_signature
  verify_signature-Signs child issuer e =
      passed (encode issuer.subject_public_key_info) _ e (λ spki encoded e.
        passed (from_spki_der ecdsa spki) _ e (λ key keyed e.
          refused_not (not (str_eq child.signature_algorithm (expected_oid ecdsa key))) _ _ e
            (λ algorithm e. passed (encode child.tbs_certificate) _ e (λ tbs der e. (
              spki,
              key,
              tbs,
              map_err-eq-ok issuer.subject_public_key_info _ encoded,
              keyed,
              str_eq→eq _ _ (unnegated _ algorithm),
              map_err-eq-ok child.tbs_certificate _ der,
              last_met (verify_der ecdsa key tbs child.signature) _ e,
            )))))

  pub verify_ca_profile-IsAuthority :
      (c : X509Certificate) (below : ℕ)
      → verify_ca_profile decoders c below ≡ ok tt
      → IsAuthority c below
  unfolding verify_ca_profile
  verify_ca_profile-IsAuthority c below e =
      passed (reject_unknown_critical_extensions c.extensions known_ca_critical_extension_oids) _ e
        (λ u known e.
          passed
            (find_extension_decoded decoders.basic_constraints c.extensions id_ce_basic_constraints)
            _ e
            (λ found bc_found e. passed (ok_or found _) _ e (λ bc there e.
              refused_not (not bc.ca) _ _ e (λ ca e.
                refused_not (exceeds bc.path_len_constraint below) _ _ e (λ short e.
                  passed (find_extension_decoded decoders.key_usage c.extensions id_ce_key_usage) _
                    e
                    (λ found_usage usage_found e. passed (ok_or found_usage _) _ e (λ usage used e.
                      (
                        bc,
                        usage,
                        reject-AreKnown known_ca_critical_extension_oids c.extensions known,
                        bc_found ∙ ap ok (ok_or-eq-ok found _ there),
                        unnegated _ ca,
                        short,
                        usage_found ∙ ap ok (ok_or-eq-ok found_usage _ used),
                        unnegated _ (last_refused_not (not usage.key_cert_sign) _ e),
                      ))))))))

  pub verify_leaf_profile-IsLeaf :
      (c : X509Certificate) → verify_leaf_profile decoders c ≡ ok tt → IsLeaf c
  unfolding verify_leaf_profile
  verify_leaf_profile-IsLeaf c e =
      passed (reject_unknown_critical_extensions c.extensions known_leaf_extension_oids) _ e
        (λ u known e.
          passed
            (find_extension_decoded decoders.basic_constraints c.extensions id_ce_basic_constraints)
            _ e
            (λ bc bc_found e. refused_not (is_ca bc) _ _ e (λ no_ca e.
              passed (find_extension_decoded decoders.key_usage c.extensions id_ce_key_usage) _ e
                (λ found_usage usage_found e. passed (ok_or found_usage _) _ e (λ usage used e.
                  refused_not (not usage.digital_signature) _ _ e (λ signs e.
                    passed
                      (find_extension_decoded decoders.extended_key_usage c.extensions
                        id_ce_ext_key_usage)
                      _ e
                      (λ found_eku eku_found e. passed (ok_or found_eku _) _ e (λ eku extended e. (
                        bc,
                        usage,
                        eku,
                        reject-AreKnown known_leaf_extension_oids c.extensions known,
                        bc_found,
                        no_ca,
                        usage_found ∙ ap ok (ok_or-eq-ok found_usage _ used),
                        unnegated _ signs,
                        eku_found ∙ ap ok (ok_or-eq-ok found_eku _ extended),
                        unnegated _ (last_refused_not _ _ e),
                      )))))))))
