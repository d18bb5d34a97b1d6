-- ===== src/Verifier/Digest/Tests.antt =====
-- A bundle that verifies, with stand-ins for the crates, refusals of it, and the theorems at it.
use attestation_verify.Prelude.{◌≡◌, ◌⊎◌, refl, [], ◌∷◌, none, ok, err}
use attestation_verify.Prelude.Text.{codes}
use attestation_verify.Errors.{
  unsupported, dsse_payload_type, content_binding, subject_not_found, tlog_entry_signature_mismatch,
}
use attestation_verify.Rekor.Merkle.Tree.{single}
use attestation_verify.Rekor.Merkle.Sound.{Collision}
use attestation_verify.Rekor.Merkle.Inclusion.{IsLog}
use attestation_verify.Verifier.Digest.Logged.{IsLogged, verify_digest-IsLogged}
use attestation_verify.Samples.{length-short_digest, short_digest, toy_ecdsa}
use attestation_verify.Rekor.Merkle.{rfc6962_leaf_hash}
use attestation_verify.Verifier.Digest.{supported_dsse_payload_type, verify_digest, verify_bytes}
use attestation_verify.Verifier.Digest.Attested.{IsAttested, verify_digest-IsAttested}
use attestation_verify.Samples.Attestation.{
  envelope, artifact, deps, entry_body, root_hash, proof, entry, bundle_with, bundle, verifier,
  report,
}

verified : verify_digest deps verifier artifact bundle ≡ ok report
unfolding verify_digest codes toy_ecdsa root_hash
verified = refl

verify_digest-IsAttested_example : IsAttested deps verifier artifact bundle report
verify_digest-IsAttested_example =
    verify_digest-IsAttested deps verifier artifact bundle report verified

one-IsLog : IsLog short_digest (entry_body ∷ []) root_hash
unfolding rfc6962_leaf_hash root_hash
one-IsLog = single _

verify_digest-IsLogged_example :
    IsLogged deps artifact bundle report entry proof (entry_body ∷ []) ⊎ Collision short_digest
verify_digest-IsLogged_example =
    verify_digest-IsLogged deps length-short_digest verifier artifact bundle report entry proof
      (entry_body ∷ []) refl refl one-IsLog refl verified

-- Another payload type, another artifact, and no trusted authority.
refused :
    (verify_digest deps verifier artifact
        (bundle_with (record { payload = []; payload_type = []; signature = envelope.signature }))
      ≡ err (unsupported (dsse_payload_type [])))
    × (verify_digest deps verifier (record { bytes = [] }) bundle
        ≡ err (content_binding subject_not_found))
    × (verify_digest deps verifier artifact (
          bundle_with (record {
            payload = [];
            payload_type = supported_dsse_payload_type;
            signature = record { sig = b'x' ∷ []; keyid = none };
          }))
        ≡ err (content_binding tlog_entry_signature_mismatch))
unfolding verify_digest codes toy_ecdsa root_hash
refused = (refl, refl, refl)

bytes_verified : verify_bytes deps verifier [] bundle ≡ verify_digest deps verifier artifact bundle
unfolding verify_bytes
bytes_verified = refl
