-- ===== src/Sct/Embedded/Sound.antt =====
-- What a certificate with an accepted SCT has.
use attestation_verify.Prelude.{
  none, find_first_sound, unnegated, or_false, ==_iff, leb, ◌/◌, ℕ, ◌≡◌, sym, ap, ◌∙◌, subst, true,
  not, Bool-cases, inl, inr, some, some_inj, List, Exists, is_empty, ok, ok_or, ok_or-eq-ok,
  map_err-eq-ok, passed, refused_not, last_met, find_first,
}
use attestation_verify.Prelude.Int.{ℤ, pos, i64_max, i64_try_from}
use attestation_verify.Prelude.Text.{Bytes}
use attestation_verify.Prelude.Text.Laws.{str_eq→eq}
use attestation_verify.Crates.{Extension, DerCodec}
use attestation_verify.Trust.{TrustStore, CtLog}
use attestation_verify.Dsse.{Ecdsa, EcdsaVerifyingKey, from_spki_der, verify_der}
use attestation_verify.Rekor.Window.{IsWithin, within_window, within_window_iff}
use attestation_verify.X509.Extensions.{IsOnly, find_extension-some_iff}
use attestation_verify.X509.{find_extension}
use attestation_verify.X509.Profile.{sct_list_oid}
use attestation_verify.X509.Chain.{ValidatedLeaf}
use attestation_verify.Sct.{
  ParsedSct, sct_version_v1, hash_algorithm_sha256, signature_algorithm_ecdsa, parse_sct_list,
  digitally_signed_bytes, verify_one_sct,
}
use attestation_verify.Sct.Accepted.{Verifies, verify_any_sct-Verifies}
use attestation_verify.Sct.Embedded.{
  invalid_der_of, extract_sct_list_bytes, precert_tbs_der, verify_embedded_scts,
}

i64_try_from_pos : (n : ℕ) (t : ℤ) → i64_try_from n ≡ some t → pos n ≡ t
i64_try_from_pos n t e = elim (Bool-cases (leb n i64_max)) [
  | inl fits ↦ some_inj (rw fits at e)
  | inr large ↦ absurd (cc (rw large at e))
]

module _ (digest : Bytes → Bytes) (ecdsa : Ecdsa) (precert issuer : Bytes)
    (store : TrustStore) where
  -- A trusted log, whose key hashes to the SCT's log id and whose window has its time, signed it as
  -- an SCT of version 1 over the precertificate and the issuer's key.
  abbrev pub IsAttested : ParsedSct → Type 0
  IsAttested s =
      (log : CtLog) × (message : Bytes) × (key : EcdsaVerifyingKey ecdsa) × Exists
        (λ (x : CtLog). x ≡ log) store.ctlogs
      × (digest log.public_key.raw_bytes ≡ s.log_id)
      × IsWithin log.public_key.valid_for (pos (s.timestamp_ms / 1000))
      × (s.version ≡ sct_version_v1)
      × (s.hash_algorithm ≡ hash_algorithm_sha256)
      × (s.signature_algorithm ≡ signature_algorithm_ecdsa)
      × (digitally_signed_bytes s.timestamp_ms issuer precert s.extensions ≡ ok message)
      × (from_spki_der ecdsa log.public_key.raw_bytes ≡ ok key)
      × (verify_der ecdsa key message s.signature ≡ true)

  verify_one_sct-IsAttested :
      (s : ParsedSct) → Verifies digest ecdsa precert issuer store s → IsAttested s
  unfolding verify_one_sct
  verify_one_sct-IsAttested s e = passed (ok_or (find_first _ store.ctlogs) _) _ e (λ log found e.
      passed (ok_or (i64_try_from (s.timestamp_ms / 1000)) _) _ e (λ t timed e.
        refused_not (not (within_window log.public_key.valid_for t)) _ _ e (λ within e.
          refused_not _ _ _ e (λ supported e.
            passed (digitally_signed_bytes s.timestamp_ms issuer precert s.extensions) _ e
              (λ message signed e.
                passed (from_spki_der ecdsa log.public_key.raw_bytes) _ e (λ key keyed e.
                  let (x, i, at, (same, hashes)) =
                    find_first_sound _ store.ctlogs (ok_or-eq-ok _ _ found) in
                  let (former, signature) = or_false _ _ supported in
                  let (version, hash) = or_false _ _ former in
                  (
                    log,
                    message,
                    key,
                    (x, i, at, same),
                    subst (λ (l : CtLog). digest l.public_key.raw_bytes ≡ s.log_id) same
                        (str_eq→eq _ _ hashes),
                    subst (IsWithin log.public_key.valid_for)
                        (sym (i64_try_from_pos _ t (ok_or-eq-ok _ _ timed)))
                        ((within_window_iff log.public_key.valid_for t).0 (unnegated _ within)),
                    (==_iff s.version sct_version_v1).0 (unnegated _ version),
                    (==_iff s.hash_algorithm hash_algorithm_sha256).0 (unnegated _ hash),
                    (==_iff s.signature_algorithm signature_algorithm_ecdsa).0
                        (unnegated _ signature),
                    signed,
                    keyed,
                    last_met _ _ e,
                  )))))))

module _ (digest : Bytes → Bytes) (ecdsa : Ecdsa) (codec : DerCodec) where
  -- The leaf's one SCT-list extension holds a list, of which one SCT is attested over the leaf's
  -- precertificate and the hash of its issuer's key.
  abbrev pub HasSct : ValidatedLeaf → TrustStore → Type 0
  HasSct v store =
      (ext : Extension) × (list : Bytes) × (scts : List ParsedSct) × (tbs : Bytes)
      × (precert : Bytes) × IsOnly sct_list_oid ext v.leaf.extensions
      × (codec.octet_string_from_der ext.extn_value ≡ ok list)
      × (parse_sct_list list ≡ ok scts)
      × (v.leaf.tbs_certificate ≡ ok tbs)
      × (precert_tbs_der codec tbs ≡ ok precert)
      × Exists (IsAttested digest ecdsa precert (digest v.issuer_spki_der) store) scts

  -- The SCTs of a certificate are accepted only where it has one SCT-list extension, and one SCT of
  -- that list is signed by a trusted log, in the window of the log's key, as an SCT of version 1 with
  -- SHA-256 and ECDSA, over the certificate's precertificate and the hash of its issuer's key.
  pub verify_embedded_scts-HasSct :
      (v : ValidatedLeaf) (store : TrustStore)
      → verify_embedded_scts digest ecdsa codec v store ≡ ok tt
      → HasSct v store
  unfolding verify_embedded_scts extract_sct_list_bytes
  verify_embedded_scts-HasSct v store e =
      passed (extract_sct_list_bytes codec v.leaf) _ e (λ list extracted e.
        passed (parse_sct_list list) _ e (λ scts parsed e.
          refused_not (is_empty scts) _ _ e (λ some_there e.
            passed (invalid_der_of v.leaf.tbs_certificate) _ e (λ tbs encoded e.
              passed (precert_tbs_der codec tbs) _ e (λ precert made e.
                passed (find_extension v.leaf.extensions sct_list_oid) _ extracted
                  (λ found at extracted. passed (ok_or found _) _ extracted (λ ext there read.
                    let (sct, i, stands, verified) =
                      verify_any_sct-Verifies digest ecdsa precert (digest v.issuer_spki_der) store
                        scts none e in
                    (
                      ext,
                      list,
                      scts,
                      tbs,
                      precert,
                      (find_extension-some_iff sct_list_oid v.leaf.extensions ext).0
                          (at ∙ ap ok (ok_or-eq-ok found _ there)),
                      map_err-eq-ok (codec.octet_string_from_der ext.extn_value) _ read,
                      parsed,
                      map_err-eq-ok v.leaf.tbs_certificate _ encoded,
                      made,
                      (
                        sct,
                        i,
                        stands,
                        verify_one_sct-IsAttested digest ecdsa precert (digest v.issuer_spki_der)
                            store sct verified,
                      ),
                    ))))))))
