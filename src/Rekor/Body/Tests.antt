-- ===== src/Rekor/Body/Tests.antt =====
-- The binding's theorem at a concrete input, and its refusals.
use attestation_verify.Prelude.{◌≡◌, ◌↔◌, refl, [], ◌∷◌, ok, err, none}
use attestation_verify.Prelude.Text.{Bytes, codes}
use attestation_verify.Errors.{content_binding, tlog_entry_certificate_mismatch}
use attestation_verify.Samples.{short_digest, toy_crates}
use attestation_verify.Bundle.{TlogEntry, DsseEnvelope}
use attestation_verify.Rekor.Body.{TlogEntryBody, check_entry_binding, compute_envelope_hash}
use attestation_verify.Rekor.Body.Binding.{IsBound, check_entry_binding_iff}

abbrev envelope : DsseEnvelope
envelope = record {
  payload = b'p' ∷ [];
  payload_type = b't' ∷ [];
  signature = record { sig = b's' ∷ []; keyid = none };
}

abbrev leaf : Bytes
leaf = b'c' ∷ []

abbrev body : TlogEntryBody
body = record {
  kind = b'k' ∷ [];
  api_version = b'v' ∷ [];
  envelope_hash = compute_envelope_hash toy_crates envelope;
  payload_hash = short_digest envelope.payload;
  signature = b's' ∷ [];
  verifier_certificate_der = leaf;
}

abbrev entry : TlogEntry
entry = record {
  log_index = 0;
  log_id_key_id = [];
  kind = b'k' ∷ [];
  version = b'v' ∷ [];
  integrated_time = 0;
  inclusion_promise = none;
  inclusion_proof = none;
  canonicalized_body = [];
}

runs :
    (check_entry_binding toy_crates entry body envelope leaf ≡ ok tt)
    × (check_entry_binding toy_crates entry body envelope []
        ≡ err (content_binding tlog_entry_certificate_mismatch))
unfolding check_entry_binding codes
runs = (refl, refl)

check_entry_binding_iff_example :
    (check_entry_binding toy_crates entry body envelope leaf ≡ ok tt)
    ↔ IsBound toy_crates entry body envelope leaf
check_entry_binding_iff_example = check_entry_binding_iff toy_crates entry body envelope leaf
