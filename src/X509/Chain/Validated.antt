-- ===== src/X509/Chain/Validated.antt =====
-- What a validated chain is: the relations between its certificates, and that the walk shows them.
use attestation_verify.Prelude.{
  unnegated, ℕ, zero, suc, ◌≡◌, refl, sym, ap, ◌∙◌, subst, Bool-cases, not, Option, some, none,
  some_inj, List, [], ◌∷◌, Exists, ok, ok_inj, map_err-eq-ok, passed, refused_not, Result-cases,
  traverse, inl, inr,
}
use attestation_verify.Prelude.Int.{ℤ}
use attestation_verify.Prelude.Text.{Bytes, str_eq}
use attestation_verify.Prelude.Text.Laws.{str_eq→eq}
use attestation_verify.Errors.{Error}
use attestation_verify.Crates.{X509Certificate, X509Decoders}
use attestation_verify.Trust.{CertificateAuthority, TrustStore}
use attestation_verify.Dsse.{Ecdsa}
use attestation_verify.Rekor.Window.{IsWithin, within_window_iff}
use attestation_verify.X509.Profile.{verify_leaf_profile, verify_ca_profile}
use attestation_verify.X509.Chain.{
  ValidatedLeaf, within_valid_for, verify_time_window, encode, keep_error, verify_signature,
  walk_chain, decode_certificate, validate_named, validate_decoded, try_validate_against_ca,
  try_authorities, validate_chain,
}
use attestation_verify.X509.Chain.Certified.{
  IsInValidity, verify_time_window-IsInValidity, Signs, IsAuthority, IsLeaf, verify_signature-Signs,
  verify_ca_profile-IsAuthority, verify_leaf_profile-IsLeaf,
}

module _ (ecdsa : Ecdsa) (decoders : X509Decoders) where
  -- Each certificate issued the one in front of it, the first of them `signee`, and is a valid
  -- authority at the time.
  abbrev pub IsChain : X509Certificate → ℕ → List X509Certificate → ℤ → Type 0
  IsChain signee i [] t = Unit
  IsChain signee i (issuer ∷ chain) t =
      (issuer.subject ≡ signee.issuer)
      × IsInValidity issuer t
      × IsAuthority ecdsa decoders issuer i
      × Signs ecdsa decoders issuer signee
      × IsChain issuer (suc i) chain t

  walk_chain-IsChain :
      (signee : X509Certificate) (i : ℕ) (chain : List X509Certificate) (t : ℤ)
      → walk_chain ecdsa decoders signee i chain t ≡ ok tt
      → IsChain signee i chain t
  unfolding walk_chain
  walk_chain-IsChain signee i [] t e = tt
  walk_chain-IsChain signee i (issuer ∷ chain) t e =
      refused_not (not (str_eq issuer.subject signee.issuer)) _ _ e (λ named e.
        passed (verify_time_window issuer t) _ e (λ u valid e.
          passed (verify_ca_profile decoders issuer i) _ e (λ u authority e.
            passed (verify_signature ecdsa signee issuer) _ e (λ u signed e. (
              str_eq→eq _ _ (unnegated _ named),
              verify_time_window-IsInValidity issuer t valid,
              verify_ca_profile-IsAuthority ecdsa decoders issuer i authority,
              verify_signature-Signs ecdsa decoders signee issuer signed,
              walk_chain-IsChain issuer (suc i) chain t e,
            )))))

  -- What an authority of the trust store shows of a leaf: its window has the time, its certificates
  -- decode to a chain from the leaf's issuer, and the leaf is valid and fit to sign code.
  abbrev pub Vouches : ℤ → ValidatedLeaf → CertificateAuthority → Type 0
  Vouches t v ca =
      (issuer : X509Certificate) × (rest : List X509Certificate) × (traverse
          (λ c. decode_certificate ecdsa decoders c.raw_bytes) ca.certificates
        ≡ ok (issuer ∷ rest))
      × IsWithin ca.valid_for t
      × IsInValidity v.leaf t
      × IsLeaf ecdsa decoders v.leaf
      × IsChain v.leaf 0 (issuer ∷ rest) t
      × (v.leaf.subject_public_key_info ≡ ok v.leaf_spki_der)
      × (issuer.subject_public_key_info ≡ ok v.issuer_spki_der)

  validate_named-Vouches :
      (leaf : X509Certificate) (ca : CertificateAuthority) (issuer : X509Certificate)
      (rest : List X509Certificate) (t : ℤ) (v : ValidatedLeaf)
      → traverse (λ c. decode_certificate ecdsa decoders c.raw_bytes) ca.certificates
        ≡ ok (issuer ∷ rest)
      → validate_named ecdsa decoders leaf ca issuer (issuer ∷ rest) t ≡ ok (some v)
      → (v.leaf ≡ leaf) × Vouches t v ca
  unfolding validate_named
  validate_named-Vouches leaf ca issuer rest t v decoded e =
      refused_not (not (within_valid_for t ca.valid_for)) _ _ e (λ within e.
        passed (verify_time_window leaf t) _ e (λ u valid e.
          passed (verify_leaf_profile decoders leaf) _ e (λ u profiled e.
            passed (walk_chain ecdsa decoders leaf 0 (issuer ∷ rest) t) _ e (λ u walked e.
              passed (encode leaf.subject_public_key_info) _ e (λ spki leaf_encoded e.
                passed (encode issuer.subject_public_key_info) _ e (λ issuer_spki encoded e.
                  subst (λ (w : ValidatedLeaf). (w.leaf ≡ leaf) × Vouches t w ca)
                    (some_inj (ok_inj e))
                    (
                      refl,
                      (
                        issuer,
                        rest,
                        decoded,
                        (within_window_iff ca.valid_for t).0 (unnegated _ within),
                        verify_time_window-IsInValidity leaf t valid,
                        verify_leaf_profile-IsLeaf ecdsa decoders leaf profiled,
                        walk_chain-IsChain leaf 0 (issuer ∷ rest) t walked,
                        map_err-eq-ok leaf.subject_public_key_info _ leaf_encoded,
                        map_err-eq-ok issuer.subject_public_key_info _ encoded,
                      ),
                    )))))))

  validate_decoded-Vouches :
      (leaf : X509Certificate) (ca : CertificateAuthority) (chain : List X509Certificate) (t : ℤ)
      (v : ValidatedLeaf)
      → traverse (λ c. decode_certificate ecdsa decoders c.raw_bytes) ca.certificates ≡ ok chain
      → validate_decoded ecdsa decoders leaf ca chain t ≡ ok (some v)
      → (v.leaf ≡ leaf) × Vouches t v ca
  validate_decoded-Vouches leaf ca [] t v decoded e = absurd (cc (ok_inj e))
  validate_decoded-Vouches leaf ca (issuer ∷ rest) t v decoded e =
      elim (Bool-cases (str_eq issuer.subject leaf.issuer)) [
        | inl named ↦ validate_named-Vouches leaf ca issuer rest t v decoded (rw named at e)
        | inr other ↦ absurd (cc (ok_inj (rw other at e)))
      ]

  try_validate_against_ca-Vouches :
      (leaf : X509Certificate) (ca : CertificateAuthority) (t : ℤ) (v : ValidatedLeaf)
      → try_validate_against_ca ecdsa decoders leaf ca t ≡ ok (some v)
      → (v.leaf ≡ leaf) × Vouches t v ca
  unfolding try_validate_against_ca
  try_validate_against_ca-Vouches leaf ca t v e =
      passed (traverse (λ c. decode_certificate ecdsa decoders c.raw_bytes) ca.certificates) _ e
        (λ chain decoded e. validate_decoded-Vouches leaf ca chain t v decoded e)

  try_authorities-Vouches :
      (leaf : X509Certificate) (cas : List CertificateAuthority) (t : ℤ) (first : Option Error)
      (v : ValidatedLeaf)
      → try_authorities ecdsa decoders leaf cas t first ≡ ok v
      → (v.leaf ≡ leaf) × Exists (Vouches t v) cas
  unfolding try_authorities
  try_authorities-Vouches leaf [] t first v e = absurd (cc e)
  try_authorities-Vouches leaf (ca ∷ cas) t first v e =
      elim (Result-cases (try_validate_against_ca ecdsa decoders leaf ca t)) [
        | inl (some w, accepted) ↦
            let (same, vouched) =
              try_validate_against_ca-Vouches leaf ca t v
                (accepted ∙ ap (λ (x : ValidatedLeaf). ok (some x)) (ok_inj (rw accepted at e))) in
            (same, (ca, zero, refl, vouched))
        | inl (none, passed_over) ↦
            later ca cas v (try_authorities-Vouches leaf cas t first v (rw passed_over at e))
        | inr (bad, refused) ↦
            later ca cas v
              (try_authorities-Vouches leaf cas t (keep_error first bad) v (rw refused at e))
      ]
    where
      later :
          (ca : CertificateAuthority) (cas : List CertificateAuthority) (v : ValidatedLeaf)
          → (v.leaf ≡ leaf) × Exists (Vouches t v) cas
          → (v.leaf ≡ leaf) × Exists (Vouches t v) (ca ∷ cas)
      later ca cas v (same, (a, i, at, vouched)) = (same, (a, suc i, at, vouched))

  -- A leaf is validated only under an authority of the trust store whose window has the time: the
  -- leaf and every certificate of the authority's chain are valid then, each issued and signed the
  -- one in front of it, all but the leaf are authorities within their path lengths, and the leaf is
  -- a certificate to sign code. The keys that are returned are the leaf's and its issuer's.
  pub validate_chain-Vouches :
      (leaf_der : Bytes) (store : TrustStore) (t : ℤ) (v : ValidatedLeaf)
      → validate_chain ecdsa decoders leaf_der store t ≡ ok v
      → (decoders.certificate_from_der leaf_der ≡ ok v.leaf)
        × Exists (Vouches t v) store.certificate_authorities
  unfolding validate_chain
  validate_chain-Vouches leaf_der store t v e =
      passed (decode_certificate ecdsa decoders leaf_der) _ e (λ leaf decoded e.
        let (same, vouched) =
          try_authorities-Vouches leaf store.certificate_authorities t none v e in
        (
          map_err-eq-ok (decoders.certificate_from_der leaf_der) _ decoded ∙ ap ok (sym same),
          vouched,
        ))
