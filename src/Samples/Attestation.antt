-- ===== src/Samples/Attestation.antt =====
-- A bundle that verifies with stand-ins for the crates, and what it is verified against, for the tests.
use attestation_verify.Prelude.{[], ◌∷◌, ◌++◌, true, false, some, none, Result, ok}
use attestation_verify.Prelude.Int.{pos}
use attestation_verify.Prelude.Text.{Bytes, Text, codes}
use attestation_verify.Samples.{
  short_digest, sample_log, zeros_32, toy_crates, toy_ecdsa, toy_reader,
}
use attestation_verify.Crates.{
  Extension, X509Certificate, uniform_resource_identifier, context_specific,
}
use attestation_verify.StrictJson.Tree.{null}
use attestation_verify.Bundle.{Bundle, TlogEntry, DsseEnvelope, InclusionProof}
use attestation_verify.Trust.{TrustStore}
use attestation_verify.Policy.{RepositoryIdentity, exact, any_revision}
use attestation_verify.Subject.{Subject}
use attestation_verify.Statement.{RawStatement, expected_statement_type}
use attestation_verify.Rekor.Body.{RawTlogEntryBody, compute_envelope_hash}
use attestation_verify.Rekor.Merkle.{rfc6962_leaf_hash}
use attestation_verify.Rekor.Checkpoint.{checkpoint_signature_prefix}
use attestation_verify.X509.Profile.{
  id_kp_code_signing, sct_list_oid, id_ce_key_usage, id_ce_subject_alt_name,
  id_ce_basic_constraints, id_ce_ext_key_usage,
}
use attestation_verify.X509.Chain.{ecdsa_with_sha_256}
use attestation_verify.Fulcio.{oid_issuer, oid_source_repository_uri, oid_source_repository_ref}
use attestation_verify.PolicyMatch.{expected_issuer}
use attestation_verify.Verifier.{Verifier}
use attestation_verify.Verifier.Report.{VerificationReport}
use attestation_verify.Verifier.Digest.{
  supported_predicate_type, supported_dsse_payload_type, Dependencies,
}

-- The stand-in for a signature is the first byte of what is signed: of the encoding of an envelope,
-- a SET, a checkpoint, an SCT and a certificate.
abbrev pub envelope : DsseEnvelope
envelope = record {
  payload = [];
  payload_type = supported_dsse_payload_type;
  signature = record { sig = b'D' ∷ []; keyid = none };
}

abbrev pub leaf_der : Bytes
leaf_der = b'c' ∷ []

abbrev pub extension : Text → Bytes → Extension
extension oid value = record { extn_id = oid; critical = false; extn_value = value }

abbrev pub workflow : Text
workflow = codes ".github/workflows/w.yml"

abbrev pub git_ref : Text
git_ref = codes "refs/heads/m"

abbrev pub leaf : X509Certificate
leaf = record {
  subject = [];
  issuer = b'r' ∷ [];
  validity_not_before = 0;
  validity_not_after = 10;
  extensions =
      extension id_ce_key_usage []
      ∷ extension id_ce_ext_key_usage []
      ∷ extension sct_list_oid []
      ∷ extension id_ce_subject_alt_name
          (codes "https://github.com/a/b/.github/workflows/w.yml@refs/heads/m")
      ∷ extension oid_issuer expected_issuer
      ∷ extension oid_source_repository_uri (codes "https://github.com/a/b")
      ∷ extension oid_source_repository_ref git_ref
      ∷ [];
  subject_public_key_info = ok (b'k' ∷ []);
  tbs_certificate = ok (b't' ∷ []);
  signature_algorithm = ecdsa_with_sha_256;
  signature = b't' ∷ [];
}

abbrev pub root : X509Certificate
root = record {
  subject = b'r' ∷ [];
  issuer = b'r' ∷ [];
  validity_not_before = 0;
  validity_not_after = 10;
  extensions = extension id_ce_key_usage [] ∷ extension id_ce_basic_constraints [] ∷ [];
  subject_public_key_info = ok (b'K' ∷ []);
  tbs_certificate = ok [];
  signature_algorithm = [];
  signature = [];
}

abbrev pub toy_certificate_from_der : Bytes → Result X509Certificate Text
toy_certificate_from_der [] = ok root
toy_certificate_from_der (x ∷ rest) = ok leaf

-- Version 0, a log id of zeros, 4999 ms, no extensions, SHA-256, ECDSA, and one byte of signature.
abbrev pub sct_list : Bytes
sct_list =
    0
    ∷ 50
    ∷ 0
    ∷ 48
    ∷ 0
    ∷ (zeros_32 ++ (0 ∷ 0 ∷ 0 ∷ 0 ∷ 0 ∷ 0 ∷ 19 ∷ 135 ∷ 0 ∷ 0 ∷ 4 ∷ 3 ∷ 0 ∷ 1 ∷ 0 ∷ []))

abbrev pub artifact : Subject
artifact = record { bytes = zeros_32 }

abbrev pub raw_statement : RawStatement
raw_statement = record {
  type_ = expected_statement_type;
  subject = record { name = some (b'n' ∷ []); digest = (codes "sha256", zeros_32) ∷ [] } ∷ [];
  predicate_type = supported_predicate_type;
  predicate = null;
}

abbrev pub raw_body : RawTlogEntryBody
raw_body = record {
  api_version = codes "0.0.1";
  kind = codes "dsse";
  spec = record {
    envelope_hash = record { algorithm = []; value = compute_envelope_hash toy_crates envelope };
    payload_hash = record { algorithm = []; value = short_digest envelope.payload };
    signatures =
        record {
          signature = envelope.signature.sig;
          verifier = codes "-----BEGIN CERTIFICATE-----\nc\n-----END CERTIFICATE-----\n";
        }
        ∷ [];
  };
}

abbrev pub deps : Dependencies
deps = record {
  crates = toy_crates;
  ecdsa = toy_ecdsa;
  x509 = record {
    certificate_from_der = toy_certificate_from_der;
    basic_constraints = λ b. some (record { ca = true; path_len_constraint = none });
    key_usage = λ b. some (record { digital_signature = true; key_cert_sign = true });
    extended_key_usage = λ b. some (id_kp_code_signing ∷ []);
  };
  der = record {
    octet_string_from_der = λ b. ok sct_list;
    fields_from_der = λ b. ok (record { tag = context_specific true 3; value = b } ∷ []);
    fields_to_der = λ fs. ok [];
    extensions_from_der = λ b. ok [];
    extensions_to_der = λ es. ok [];
    any_ref_new = λ tag value. ok (record { tag = tag; value = value });
  };
  utf8_string = λ b. ok b;
  subject_alt_name = λ b. ok (uniform_resource_identifier b ∷ []);
  reader = toy_reader;
  body_of = λ v. ok raw_body;
  statement_of = λ v. ok raw_statement;
}

abbrev pub sample_origin : Text
sample_origin = codes "rekor.sigstore.dev - 1193050959916656506"

abbrev pub entry_body : Bytes
entry_body = 1 ∷ []

abbrev pub log_id : Bytes
log_id = short_digest (1 ∷ 2 ∷ 3 ∷ [])

unfoldable pub root_hash : Bytes
unfolding rfc6962_leaf_hash
root_hash = rfc6962_leaf_hash short_digest entry_body

abbrev pub proof : InclusionProof
proof = record {
  log_index = 0;
  root_hash = root_hash;
  tree_size = 1;
  hashes = [];
  checkpoint = record {
    envelope =
        sample_origin
        ++ (b'\n'
            ∷ b'1'
            ∷ b'\n'
            ∷ (root_hash
                ++ (b'\n'
                    ∷ b'\n'
                    ∷ (checkpoint_signature_prefix ++ codes "m \u{1}\u{2}\u{3}\0r\n"))));
  };
}

abbrev pub entry : TlogEntry
entry = record {
  log_index = 7;
  log_id_key_id = log_id;
  kind = codes "dsse";
  version = codes "0.0.1";
  integrated_time = 5;
  inclusion_promise = some (record { signed_entry_timestamp = b'{' ∷ [] });
  inclusion_proof = some proof;
  canonicalized_body = entry_body;
}

abbrev pub bundle_with : DsseEnvelope → Bundle
bundle_with e = record {
  media_type = [];
  verification_material = record {
    certificate = record { raw_bytes = leaf_der };
    tlog_entries = entry ∷ [];
    timestamp_verification_data = record { rfc3161_timestamps = [] };
  };
  dsse_envelope = e;
}

abbrev pub bundle : Bundle
bundle = bundle_with envelope

abbrev pub store : TrustStore
store = record {
  media_type = [];
  tlogs = sample_log ∷ [];
  ctlogs =
      record {
        base_url = [];
        hash_algorithm = [];
        public_key = record {
          raw_bytes = [];
          key_details = [];
          valid_for = record { start = pos 1; end = some (pos 5) };
        };
        log_id_key_id = [];
      }
      ∷ [];
  certificate_authorities =
      record {
        subject = record { organization = []; common_name = [] };
        uri = [];
        certificates = record { raw_bytes = [] } ∷ [];
        valid_for = record { start = pos 0; end = none };
      }
      ∷ [];
  timestamp_authorities = [];
  fingerprint = b'f' ∷ [];
  source = codes "external";
}

abbrev pub repository : RepositoryIdentity
repository = record { owner = b'a' ∷ []; name = b'b' ∷ []; owner_id = none; repository_id = none }

abbrev pub verifier : Verifier
verifier = record {
  trust_store = store;
  github_policy = record {
    source = record { repository = repository; git_ref = exact git_ref; commit = none };
    signer = record {
      repository = repository;
      path = record { path = workflow };
      revision = any_revision;
    };
  };
  checkpoint_origin_policy = record {
    bindings = record { key_id = log_id; origins = sample_origin ∷ [] } ∷ [];
  };
}

abbrev pub report : VerificationReport
report = record {
  subject = record { digest = artifact; name = some (b'n' ∷ []) };
  signer = record {
    issuer = expected_issuer;
    source_repository = codes "a/b";
    source_ref = git_ref;
    signer_repository = codes "a/b";
    signer_workflow_path = workflow;
  };
  transparency = record { log_index = 7; integrated_time = 5 };
  statement = record { predicate_type = supported_predicate_type; predicate = null };
  trust = record { fingerprint = b'f' ∷ []; source = codes "external" };
}
