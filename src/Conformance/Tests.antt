-- ===== src/Conformance/Tests.antt =====
-- Runs of the client of tools/conformance/src/main.rs, and its theorems at concrete inputs.
use attestation_verify.Prelude.{◌≡◌, ◌↔◌, refl, [], ◌∷◌, some, none, List, ok, err}
use attestation_verify.Prelude.Int.{◌-ℤ◌, ◌+ℤ◌, ◌*ℤ◌}
use attestation_verify.Time.Calendar.{days_from_shifted, div_ℤ}
use attestation_verify.Prelude.Text.{Text, codes}
use attestation_verify.Bundle.{Bundle}
use attestation_verify.Bundle.Raw.{RawBundle, bundle_media_type}
use attestation_verify.Trust.Raw.{RawValidFor, RawTrustedRoot, trusted_root_media_type}
use attestation_verify.Subject.{Subject}
use attestation_verify.PolicyMatch.{expected_issuer}
use attestation_verify.Verifier.{Verifier}
use attestation_verify.Verifier.Report.{VerificationReport}
use attestation_verify.Samples.{toy_ecdsa}
use attestation_verify.Samples.Attestation.{
  envelope, leaf_der, root_hash, log_id, proof, entry_body, deps,
}
use attestation_verify.Conformance.Failures.{message}
use attestation_verify.Conformance.Identity.{GithubIdentity, parse_github_identity}
use attestation_verify.Conformance.Identity.Accepts.{IsIdentity, parse_github_identity_iff}
use attestation_verify.Conformance.{Client, run}
use attestation_verify.Conformance.Verified.Run.{IsVerifiedBy, run-IsVerifiedBy}

abbrev raw_bundle : RawBundle
raw_bundle = record {
  media_type = bundle_media_type;
  verification_material = record {
    certificate = record { raw_bytes = leaf_der };
    tlog_entries =
        record {
          log_index = codes "7";
          log_id = record { key_id = log_id };
          kind_version = record { kind = codes "dsse"; version = codes "0.0.1" };
          integrated_time = codes "5";
          inclusion_promise = some (record { signed_entry_timestamp = b'{' ∷ [] });
          inclusion_proof = some (record {
            log_index = codes "0";
            root_hash = root_hash;
            tree_size = codes "1";
            hashes = [];
            checkpoint = record { envelope = proof.checkpoint.envelope };
          });
          canonicalized_body = entry_body;
        }
        ∷ [];
    timestamp_verification_data = record { rfc3161_timestamps = [] };
  };
  dsse_envelope = record {
    payload = envelope.payload;
    payload_type = envelope.payload_type;
    signatures = record { sig = envelope.signature.sig; keyid = none } ∷ [];
  };
}

abbrev always : RawValidFor
always = record { start = codes "1970-01-01T00:00:00Z"; end = none }

abbrev raw_root : RawTrustedRoot
raw_root = record {
  media_type = trusted_root_media_type;
  tlogs =
      record {
        base_url = [];
        hash_algorithm = [];
        public_key = record { raw_bytes = 1 ∷ 2 ∷ 3 ∷ []; key_details = []; valid_for = always };
        log_id = record { key_id = [] };
        checkpoint_key_id = none;
      }
      ∷ [];
  ctlogs =
      record {
        base_url = [];
        hash_algorithm = [];
        public_key = record { raw_bytes = []; key_details = []; valid_for = always };
        log_id = record { key_id = [] };
        checkpoint_key_id = none;
      }
      ∷ [];
  certificate_authorities =
      record {
        subject = record { organization = []; common_name = [] };
        uri = [];
        cert_chain = record { certificates = record { raw_bytes = [] } ∷ [] };
        valid_for = always;
      }
      ∷ [];
  timestamp_authorities = [];
}

-- Every file is empty, which is the artifact that the statement names, and no JSON for the client.
abbrev client : Client
client = record {
  deps = deps;
  bundle_of = λ v. ok raw_bundle;
  root_of = λ v. ok raw_root;
  json = record { from_slice = λ b. err []; pointer = λ v p. none; get = λ v k. none };
  debug_str = λ s. s;
  embedded = [];
  read = λ path. ok [];
}

abbrev identity_text : Text
identity_text = codes "https://github.com/a/b/.github/workflows/w.yml@refs/heads/m"

abbrev arguments : List Text
arguments =
    codes "verify-bundle"
    ∷ codes "--bundle"
    ∷ codes "bundle.json"
    ∷ codes "--certificate-identity"
    ∷ identity_text
    ∷ codes "--certificate-oidc-issuer"
    ∷ expected_issuer
    ∷ codes "artifact"
    ∷ []

verified : run client arguments ≡ ok tt
unfolding run codes toy_ecdsa root_hash ◌-ℤ◌ ◌+ℤ◌ ◌*ℤ◌ days_from_shifted div_ℤ
verified = refl

run-IsVerifiedBy_example :
    (rest : List Text) × (verifier : Verifier) × (subject : Subject) × (bundle : Bundle)
    × (report : VerificationReport) × (arguments ≡ codes "verify-bundle" ∷ rest)
    × IsVerifiedBy client rest verifier subject bundle report
run-IsVerifiedBy_example = run-IsVerifiedBy client arguments verified

-- Signing, a missing value, and an unknown option.
refused :
    (run client [] ≡ err (message (codes "missing conformance subcommand")))
    × (run client (codes "verify-bundle" ∷ codes "--bundle" ∷ [])
        ≡ err (message (codes "--bundle requires a value")))
    × (run client (codes "verify-bundle" ∷ codes "-x" ∷ [])
        ≡ err (message (codes "unsupported or unknown conformance option -x")))
unfolding run codes
refused = (refl, refl, refl)

abbrev identity : GithubIdentity
identity = record {
  repository = codes "a/b";
  workflow_path = codes ".github/workflows/w.yml";
  workflow_ref = codes "refs/heads/m";
}

parse_github_identity_iff_example :
    (parse_github_identity (λ s. s) identity_text ≡ ok identity) ↔ IsIdentity identity_text identity
parse_github_identity_iff_example = parse_github_identity_iff (λ s. s) identity_text identity
