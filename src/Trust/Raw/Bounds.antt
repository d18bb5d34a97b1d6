-- ===== src/Trust/Raw/Bounds.antt =====
-- The bounds that the conversion puts on a trust store, and what it keeps of the document.
use attestation_verify.Prelude.{
  unnegated, ◌≤◌, ◌≡◌, refl, subst, not, List, [], ◌∷◌, length, Result, ok, ok_inj, passed,
  refused_not, traverse, arith, All,
}
use attestation_verify.Prelude.Text.{Bytes, Text, str_eq}
use attestation_verify.Prelude.Text.Laws.{str_eq→eq}
use attestation_verify.Limits.{max_input_bytes, max_certificates_per_chain}
use attestation_verify.Errors.{from_limit, too_many_certificates}
use attestation_verify.StrictJson.Tree.{Value}
use attestation_verify.StrictJson.{JsonReader, read_strict}
use attestation_verify.StrictJson.Accepts.{value_of}
use attestation_verify.StrictJson.Accepts.Decides.{IsReadFrom, read_strict-IsReadFrom}
use attestation_verify.Crates.{Crates}
use attestation_verify.ParseUtil.{check_input_size, check_count}
use attestation_verify.Bundle.Raw.Bounds.{traverse-length, within_count, within_size}
use attestation_verify.Trust.{CertificateAuthority, TrustStore}
use attestation_verify.Trust.Raw.{
  RawTrustedRoot, RawCertificateAuthority, trusted_root_media_type, validity_from_raw,
  tlog_from_raw, ctlog_from_raw, cert_entry_from_raw, authority_from_raw, store_from_raw,
  store_from_json,
}

traverse-All {ℓ κ ι υ} :
    {A : Type ℓ} {B : Type κ} {E : Type ι} (P : B → Type υ) (f : A → Result B E)
    → ((x : A) (y : B) → f x ≡ ok y → P y)
    → (xs : List A) (ys : List B) → traverse f xs ≡ ok ys
    → All P ys
unfolding traverse
traverse-All P f each [] ys e = subst (All P) (ok_inj e) tt
traverse-All P f each (x ∷ xs) ys e = passed (f x) _ e (λ z one e.
    passed (traverse f xs) _ e
      (λ zs more e. subst (All P) (ok_inj e) (each x z one, traverse-All P f each xs zs more)))

-- A chain of at most 128 certificates.
abbrev pub IsBounded : CertificateAuthority → Type 0
IsBounded a = length a.certificates ≤ max_certificates_per_chain

module _ (crates : Crates) where
  authority_from_raw-IsBounded :
      (raw : RawCertificateAuthority) (a : CertificateAuthority)
      → authority_from_raw crates raw ≡ ok a
      → IsBounded a
  unfolding authority_from_raw
  authority_from_raw-IsBounded raw a e =
      let entries = raw.cert_chain.certificates in
      passed (from_limit (check_count entries max_certificates_per_chain too_many_certificates)) _ e
        (λ u few e. passed (traverse (cert_entry_from_raw crates) entries) _ e (λ cs read e.
          passed (validity_from_raw raw.valid_for) _ e (λ v valid e.
            let count = traverse-length (cert_entry_from_raw crates) entries cs read in
            let bound = within_count entries max_certificates_per_chain too_many_certificates few in
            subst IsBounded (ok_inj e) (omega (arith, count, bound)))))

  -- What the conversion keeps of a document `raw`.
  abbrev pub Keeps : RawTrustedRoot → TrustStore → Type 0
  Keeps raw s =
      (s.media_type ≡ trusted_root_media_type)
      × (length s.tlogs ≡ length raw.tlogs)
      × (length s.ctlogs ≡ length raw.ctlogs)
      × (length s.certificate_authorities ≡ length raw.certificate_authorities)
      × All IsBounded s.certificate_authorities
      × (length s.timestamp_authorities ≡ length raw.timestamp_authorities)
      × All IsBounded s.timestamp_authorities

  -- A trust store comes from a document of at most 8 MiB and 262144 nodes, in which no object repeats
  -- a key and behind which nothing stands, with the one supported media type. It has the document's numbers of logs and authorities, no chain of more than 128 certificates, and the
  -- hex digest of the document's bytes as its fingerprint.
  pub store_from_json_bounds :
      (reader : JsonReader) (root_of : Value → Result RawTrustedRoot Text) (bytes : Bytes)
      (s : TrustStore)
      → store_from_json crates reader root_of bytes ≡ ok s
      → (raw : RawTrustedRoot) × (root_of (value_of (reader.source bytes)) ≡ ok raw)
        × IsReadFrom reader bytes
        × (length bytes ≤ max_input_bytes)
        × (s.fingerprint ≡ crates.hex_encode (crates.digest bytes))
        × Keeps raw s
  unfolding store_from_json store_from_raw
  store_from_json_bounds reader root_of bytes s e =
      passed (from_limit (check_input_size bytes)) _ e (λ u small e.
        passed (read_strict reader root_of bytes) _ e (λ raw read e.
          refused_not (not (str_eq raw.media_type trusted_root_media_type)) _ _ e (λ typed e.
            passed (traverse (tlog_from_raw crates) raw.tlogs) _ e (λ ls logs e.
              passed (traverse (ctlog_from_raw crates) raw.ctlogs) _ e (λ cs ctlogs e.
                passed (traverse (authority_from_raw crates) raw.certificate_authorities) _ e
                  (λ cas cas_made e.
                    passed (traverse (authority_from_raw crates) raw.timestamp_authorities) _ e
                      (λ ts tsas e.
                        subst
                          (λ (t : TrustStore).
                            (raw : RawTrustedRoot) × (root_of (value_of (reader.source bytes))
                              ≡ ok raw)
                            × IsReadFrom reader bytes
                            × (length bytes ≤ max_input_bytes)
                            × (t.fingerprint ≡ crates.hex_encode (crates.digest bytes))
                            × Keeps raw t)
                          (ok_inj e)
                          (
                            raw,
                            (read_strict-IsReadFrom reader root_of bytes raw read).1,
                            (read_strict-IsReadFrom reader root_of bytes raw read).0,
                            within_size bytes small,
                            refl,
                            (
                              str_eq→eq _ _ (unnegated _ typed),
                              traverse-length (tlog_from_raw crates) raw.tlogs ls logs,
                              traverse-length (ctlog_from_raw crates) raw.ctlogs cs ctlogs,
                              traverse-length (authority_from_raw crates)
                                  raw.certificate_authorities cas cas_made,
                              traverse-All IsBounded (authority_from_raw crates)
                                  authority_from_raw-IsBounded raw.certificate_authorities cas
                                  cas_made,
                              traverse-length (authority_from_raw crates) raw.timestamp_authorities
                                  ts tsas,
                              traverse-All IsBounded (authority_from_raw crates)
                                  authority_from_raw-IsBounded raw.timestamp_authorities ts tsas,
                            ),
                          ))))))))
