-- ===== src/Rekor/Entry/Tests.antt =====
-- A bundle whose log entry verifies, with stand-ins for the crates, and the theorems at it.
use attestation_verify.Prelude.{◌≡◌, refl, [], ◌∷◌, ◌++◌, some, none, Result, ok}
use attestation_verify.Prelude.Text.{Bytes, Text, codes}
use attestation_verify.StrictJson.Tree.{Value}
use attestation_verify.Samples.{short_digest, sample_log, toy_crates, toy_ecdsa, toy_reader}
use attestation_verify.Crates.{CertificateFacts}
use attestation_verify.Bundle.{Bundle, TlogEntry, DsseEnvelope, InclusionProof}
use attestation_verify.Trust.{TrustStore}
use attestation_verify.Policy.{CheckpointOriginPolicy}
use attestation_verify.Rekor.Body.{RawTlogEntryBody, compute_envelope_hash}
use attestation_verify.Rekor.Merkle.{rfc6962_leaf_hash}
use attestation_verify.Rekor.Checkpoint.{checkpoint_signature_prefix}
use attestation_verify.Rekor.Entry.{VerifiedTimestamp, verify_tlog_entry}
use attestation_verify.Rekor.Entry.Verified.{IsVerified, verify_tlog_entry-IsVerified}

abbrev envelope : DsseEnvelope
envelope = record {
  payload = b'p' ∷ [];
  payload_type = b't' ∷ [];
  signature = record { sig = b's' ∷ []; keyid = none };
}

abbrev certificate_der : Bytes
certificate_der = b'c' ∷ []

abbrev raw_body : RawTlogEntryBody
raw_body = record {
  api_version = codes "0.0.1";
  kind = codes "dsse";
  spec = record {
    envelope_hash = record { algorithm = []; value = compute_envelope_hash toy_crates envelope };
    payload_hash = record { algorithm = []; value = short_digest envelope.payload };
    signatures =
        record {
          signature = envelope.signature.sig;
          verifier = codes "-----BEGIN CERTIFICATE-----\nc\n-----END CERTIFICATE-----\n";
        }
        ∷ [];
  };
}

abbrev body_of : Value → Result RawTlogEntryBody Text
body_of v = ok raw_body

abbrev facts : CertificateFacts
facts = record { subject_public_key_info_der = ok (b'k' ∷ []); not_before = 0; not_after = 10 }

abbrev from_der : Bytes → Result CertificateFacts Text
from_der b = ok facts

abbrev entry_body : Bytes
entry_body = 1 ∷ []

abbrev log_id : Bytes
log_id = short_digest (1 ∷ 2 ∷ 3 ∷ [])

abbrev root : Bytes
unfolding rfc6962_leaf_hash
root = rfc6962_leaf_hash short_digest entry_body

abbrev note : Text
note = b'o' ∷ b'\n' ∷ b'1' ∷ b'\n' ∷ (root ++ (b'\n' ∷ []))

abbrev proof : InclusionProof
proof = record {
  log_index = 0;
  root_hash = root;
  tree_size = 1;
  hashes = [];
  checkpoint = record {
    envelope =
        note
        ++ (b'\n'
            ∷ (checkpoint_signature_prefix
                ++ (b'n'
                    ∷ b' '
                    ∷ 1
                    ∷ 2
                    ∷ 3
                    ∷ 0
                    ∷ b'x'
                    ∷ b'\n'
                    ∷ (checkpoint_signature_prefix
                        ++ (b'm' ∷ b' ' ∷ 1 ∷ 2 ∷ 3 ∷ 0 ∷ b'o' ∷ b'\n' ∷ [])))));
  };
}

abbrev entry : TlogEntry
entry = record {
  log_index = 7;
  log_id_key_id = log_id;
  kind = codes "dsse";
  version = codes "0.0.1";
  integrated_time = 5;
  inclusion_promise = some (record { signed_entry_timestamp = b'{' ∷ [] });
  inclusion_proof = some proof;
  canonicalized_body = entry_body;
}

abbrev bundle : Bundle
bundle = record {
  media_type = [];
  verification_material = record {
    certificate = record { raw_bytes = certificate_der };
    tlog_entries = entry ∷ [];
    timestamp_verification_data = record { rfc3161_timestamps = [] };
  };
  dsse_envelope = envelope;
}

abbrev store : TrustStore
store = record {
  media_type = [];
  tlogs = sample_log ∷ [];
  ctlogs = [];
  certificate_authorities = [];
  timestamp_authorities = [];
  fingerprint = [];
  source = [];
}

abbrev origins : CheckpointOriginPolicy
origins = record { bindings = record { key_id = log_id; origins = (b'o' ∷ []) ∷ [] } ∷ [] }

abbrev stamp : VerifiedTimestamp
stamp = record { integrated_time = 5; log_index = 7 }

verified :
    verify_tlog_entry toy_crates toy_ecdsa from_der toy_reader body_of bundle store origins
    ≡ ok stamp
unfolding verify_tlog_entry codes toy_ecdsa
verified = refl

verify_tlog_entry-IsVerified_example :
    IsVerified toy_crates toy_ecdsa from_der toy_reader body_of bundle store origins stamp
verify_tlog_entry-IsVerified_example =
    verify_tlog_entry-IsVerified toy_crates toy_ecdsa from_der toy_reader body_of bundle store
      origins stamp verified
