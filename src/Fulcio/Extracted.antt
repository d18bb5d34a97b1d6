-- ===== src/Fulcio/Extracted.antt =====
-- Which claims are extracted: those of the extensions that are there once.
use attestation_verify.Prelude.{
  ◌>>=◌, ◌≡◌, ◌↔◌, refl, sym, subst, Option, some, none, List, Result, ok, ok_inj, passed, ◌⊎◌, inl,
  inr, map_err-eq-ok,
}
use attestation_verify.Prelude.Text.{Bytes, Text}
use attestation_verify.Errors.{Error}
use attestation_verify.Crates.{Extension, GeneralName}
use attestation_verify.X509.{find_extension}
use attestation_verify.X509.Extensions.{
  IsOnly, IsAbsent, find_extension-none_iff, find_extension-some_iff,
}
use attestation_verify.Fulcio.{
  FulcioClaims, id_ce_subject_alt_name, first_uri, invalid, extract_utf8_claim, extract_san_uri,
  extract_claims, oid_issuer, oid_build_signer_uri, oid_build_signer_digest, oid_runner_environment,
  oid_source_repository_uri, oid_source_repository_digest, oid_source_repository_ref,
  oid_source_repository_id, oid_source_repository_owner_uri, oid_source_repository_owner_id,
  oid_build_config_uri, oid_build_config_digest, oid_build_trigger, oid_run_invocation_uri,
}

-- What the extension of an object identifier says: nothing where it is absent, and what is decoded
-- from its value where it is there once.
abbrev pub Says {ℓ} :
    {A : Type ℓ}
    → (Bytes → Result A Text)
    → (A → Option Text)
    → List Extension
    → Text
    → Option Text
    → Type ℓ
Says {A = A} decode of extensions oid claim =
    (IsAbsent oid extensions × (claim ≡ none))
    ⊎ ((e : Extension) × IsOnly oid e extensions
        × (a : A) × (decode e.extn_value ≡ ok a)
        × (of a ≡ claim))

abbrev read_found {ℓ} :
    {A : Type ℓ}
    → (Bytes → Result A Text)
    → (A → Option Text)
    → Option Extension
    → Result (Option Text) Error
read_found decode of found = elim found [
  | none ↦ ok none
  | some ext ↦ invalid (decode ext.extn_value) >>= λ a. ok (of a)
]

module _ {ℓ} {A : Type ℓ} (decode : Bytes → Result A Text) (of : A → Option Text)
    (extensions : List Extension) (oid : Text) (claim : Option Text) where
  found-Says :
      (found : Option Extension)
      → find_extension extensions oid ≡ ok found
      → read_found decode of found ≡ ok claim
      → Says decode of extensions oid claim
  found-Says none found e = inl ((find_extension-none_iff oid extensions).0 found, sym (ok_inj e))
  found-Says (some ext) found e = passed (invalid (decode ext.extn_value)) _ e (λ a read e. inr (
    ext,
    (find_extension-some_iff oid extensions ext).0 found,
    a,
    map_err-eq-ok (decode ext.extn_value) _ read,
    ok_inj e,
  ))

  Says-found :
      Says decode of extensions oid claim
      → (find_extension extensions oid >>= read_found decode of) ≡ ok claim
  Says-found (inl (absent, nothing)) =
      rw ((find_extension-none_iff oid extensions).1 absent, nothing) refl
  Says-found (inr (e, only, a, read, same)) =
      rw ((find_extension-some_iff oid extensions e).1 only, read, same) refl

  decoded :
      ((find_extension extensions oid >>= read_found decode of) ≡ ok claim)
      ↔ Says decode of extensions oid claim
  decoded = ((λ h. passed (find_extension extensions oid) _ h found-Says), Says-found)

module _ (utf8_string : Bytes → Result Text Text)
    (subject_alt_name : Bytes → Result (List GeneralName) Text) (extensions : List Extension) where
  -- A claim that is the UTF8String of an extension.
  abbrev pub SaysText : Text → Option Text → Type 0
  SaysText oid claim = Says utf8_string some extensions oid claim

  -- Each claim is what its extension says; the first is the first URI of the alternative names.
  abbrev pub AreClaims : FulcioClaims → Type 0
  AreClaims c =
      Says subject_alt_name first_uri extensions id_ce_subject_alt_name c.san_uri
      × SaysText oid_issuer c.issuer
      × SaysText oid_build_signer_uri c.build_signer_uri
      × SaysText oid_build_signer_digest c.build_signer_digest
      × SaysText oid_runner_environment c.runner_environment
      × SaysText oid_source_repository_uri c.source_repository_uri
      × SaysText oid_source_repository_digest c.source_repository_digest
      × SaysText oid_source_repository_ref c.source_repository_ref
      × SaysText oid_source_repository_id c.source_repository_id
      × SaysText oid_source_repository_owner_uri c.source_repository_owner_uri
      × SaysText oid_source_repository_owner_id c.source_repository_owner_id
      × SaysText oid_build_config_uri c.build_config_uri
      × SaysText oid_build_config_digest c.build_config_digest
      × SaysText oid_build_trigger c.build_trigger
      × SaysText oid_run_invocation_uri c.run_invocation_uri

  text_iff :
      (oid : Text) (claim : Option Text)
      → (extract_utf8_claim utf8_string extensions oid ≡ ok claim) ↔ SaysText oid claim
  unfolding extract_utf8_claim
  text_iff oid claim = decoded utf8_string some extensions oid claim

  uri_iff :
      (claim : Option Text)
      → (extract_san_uri subject_alt_name extensions ≡ ok claim)
        ↔ Says subject_alt_name first_uri extensions id_ce_subject_alt_name claim
  unfolding extract_san_uri
  uri_iff claim = decoded subject_alt_name first_uri extensions id_ce_subject_alt_name claim

  extracted_sound :
      (c : FulcioClaims)
      → extract_claims utf8_string subject_alt_name extensions ≡ ok c
      → AreClaims c
  unfolding extract_claims
  extracted_sound c h = passed (extract_san_uri subject_alt_name extensions) _ h (λ v0 h0 h.
      passed (extract_utf8_claim utf8_string extensions oid_issuer) _ h (λ v1 h1 h.
        passed (extract_utf8_claim utf8_string extensions oid_build_signer_uri) _ h (λ v2 h2 h.
          passed (extract_utf8_claim utf8_string extensions oid_build_signer_digest) _ h (λ v3 h3 h.
            passed (extract_utf8_claim utf8_string extensions oid_runner_environment) _ h
              (λ v4 h4 h.
                passed (extract_utf8_claim utf8_string extensions oid_source_repository_uri) _ h
                  (λ v5 h5 h.
                    passed (extract_utf8_claim utf8_string extensions oid_source_repository_digest)
                      _ h
                      (λ v6 h6 h.
                        passed (extract_utf8_claim utf8_string extensions oid_source_repository_ref)
                          _ h
                          (λ v7 h7 h.
                            passed
                              (extract_utf8_claim utf8_string extensions oid_source_repository_id) _
                              h
                              (λ v8 h8 h.
                                passed
                                  (extract_utf8_claim utf8_string extensions
                                    oid_source_repository_owner_uri)
                                  _ h
                                  (λ v9 h9 h.
                                    passed
                                      (extract_utf8_claim utf8_string extensions
                                        oid_source_repository_owner_id)
                                      _ h
                                      (λ v10 h10 h.
                                        passed
                                          (extract_utf8_claim utf8_string extensions
                                            oid_build_config_uri)
                                          _ h
                                          (λ v11 h11 h.
                                            passed
                                              (extract_utf8_claim utf8_string extensions
                                                oid_build_config_digest)
                                              _ h
                                              (λ v12 h12 h.
                                                passed
                                                  (extract_utf8_claim utf8_string extensions
                                                    oid_build_trigger)
                                                  _ h
                                                  (λ v13 h13 h.
                                                    passed
                                                      (extract_utf8_claim utf8_string extensions
                                                        oid_run_invocation_uri)
                                                      _ h
                                                      (λ v14 h14 h. subst AreClaims (ok_inj h) (
                                                        (uri_iff v0).0 h0,
                                                        (text_iff oid_issuer v1).0 h1,
                                                        (text_iff oid_build_signer_uri v2).0 h2,
                                                        (text_iff oid_build_signer_digest v3).0 h3,
                                                        (text_iff oid_runner_environment v4).0 h4,
                                                        (text_iff oid_source_repository_uri v5).0
                                                            h5,
                                                        (text_iff oid_source_repository_digest v6).0
                                                            h6,
                                                        (text_iff oid_source_repository_ref v7).0
                                                            h7,
                                                        (text_iff oid_source_repository_id v8).0 h8,
                                                        (text_iff oid_source_repository_owner_uri
                                                            v9).0
                                                            h9,
                                                        (text_iff oid_source_repository_owner_id
                                                            v10).0
                                                            h10,
                                                        (text_iff oid_build_config_uri v11).0 h11,
                                                        (text_iff oid_build_config_digest v12).0
                                                            h12,
                                                        (text_iff oid_build_trigger v13).0 h13,
                                                        (text_iff oid_run_invocation_uri v14).0 h14,
                                                      ))))))))))))))))

  extracted_complete :
      (c : FulcioClaims)
      → AreClaims c
      → extract_claims utf8_string subject_alt_name extensions ≡ ok c
  unfolding extract_claims
  extracted_complete c (h0, h1, h2, h3, h4, h5, h6, h7, h8, h9, h10, h11, h12, h13, h14) =
      rw
        (
          (uri_iff c.san_uri).1 h0,
          (text_iff oid_issuer c.issuer).1 h1,
          (text_iff oid_build_signer_uri c.build_signer_uri).1 h2,
          (text_iff oid_build_signer_digest c.build_signer_digest).1 h3,
          (text_iff oid_runner_environment c.runner_environment).1 h4,
          (text_iff oid_source_repository_uri c.source_repository_uri).1 h5,
          (text_iff oid_source_repository_digest c.source_repository_digest).1 h6,
          (text_iff oid_source_repository_ref c.source_repository_ref).1 h7,
          (text_iff oid_source_repository_id c.source_repository_id).1 h8,
          (text_iff oid_source_repository_owner_uri c.source_repository_owner_uri).1 h9,
          (text_iff oid_source_repository_owner_id c.source_repository_owner_id).1 h10,
          (text_iff oid_build_config_uri c.build_config_uri).1 h11,
          (text_iff oid_build_config_digest c.build_config_digest).1 h12,
          (text_iff oid_build_trigger c.build_trigger).1 h13,
          (text_iff oid_run_invocation_uri c.run_invocation_uri).1 h14,
        )
        refl

  -- `extract_claims` returns claims exactly when each is what its extension says: absent where the
  -- extension is, and else decoded from the one extension with its object identifier. No extension
  -- that is read may be there twice.
  pub extract_claims_iff :
      (c : FulcioClaims)
      → (extract_claims utf8_string subject_alt_name extensions ≡ ok c) ↔ AreClaims c
  extract_claims_iff c = (extracted_sound c, extracted_complete c)
