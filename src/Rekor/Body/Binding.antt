-- ===== src/Rekor/Body/Binding.antt =====
-- What the binding of an entry to its bundle guarantees.
use attestation_verify.Prelude.{
  unnegated, ◌≡◌, ◌↔◌, refl, not, ◌||◌, or_false, ok, refused_not, demand_met, last_met,
}
use attestation_verify.Prelude.Text.{Bytes, str_eq}
use attestation_verify.Prelude.Text.Laws.{str_eq→eq, eq→str_eq}
use attestation_verify.Crates.{Crates}
use attestation_verify.Bundle.{TlogEntry, DsseEnvelope}
use attestation_verify.Rekor.Body.{TlogEntryBody, check_entry_binding, compute_envelope_hash}

module _ (crates : Crates) where
  abbrev pub IsBound : TlogEntry → TlogEntryBody → DsseEnvelope → Bytes → Type 0
  IsBound entry body envelope leaf =
      (entry.kind ≡ body.kind)
      × (entry.version ≡ body.api_version)
      × (body.signature ≡ envelope.signature.sig)
      × (body.verifier_certificate_der ≡ leaf)
      × (body.payload_hash ≡ crates.digest envelope.payload)
      × (body.envelope_hash ≡ compute_envelope_hash crates envelope)

  -- An entry is bound to a bundle exactly when kind, version, signature and certificate agree and
  -- the hashes of its body are those of the envelope's payload and of the envelope.
  pub check_entry_binding_iff :
      (entry : TlogEntry) (body : TlogEntryBody) (envelope : DsseEnvelope) (leaf : Bytes)
      → (check_entry_binding crates entry body envelope leaf ≡ ok tt)
        ↔ IsBound entry body envelope leaf
  unfolding check_entry_binding
  check_entry_binding_iff entry body envelope leaf = (
    (λ e.
        refused_not
          (not (str_eq entry.kind body.kind) || not (str_eq entry.version body.api_version)) _ _ e
          (λ kinds e.
            demand_met (str_eq body.signature envelope.signature.sig) _ _ e (λ signature e.
              demand_met (str_eq body.verifier_certificate_der leaf) _ _ e (λ certificate e.
                demand_met (str_eq body.payload_hash (crates.digest envelope.payload)) _ _ e
                  (λ payload e.
                    let (kind, version) = or_false _ _ kinds in
                    (
                      str_eq→eq _ _ (unnegated _ kind),
                      str_eq→eq _ _ (unnegated _ version),
                      str_eq→eq _ _ signature,
                      str_eq→eq _ _ certificate,
                      str_eq→eq _ _ payload,
                      str_eq→eq _ _ (last_met _ _ e),
                    )))))),
    λ (kind, version, signature, certificate, payload, hash). rw (eq→str_eq _ _ kind) (
        rw (eq→str_eq _ _ version) (
          rw (eq→str_eq _ _ signature) (
            rw (eq→str_eq _ _ certificate)
              (rw (eq→str_eq _ _ payload) (rw (eq→str_eq _ _ hash) refl))))),
  )
