-- ===== src/Bundle/Raw.antt =====
-- src/bundle.rs: the raw shapes, and their strict conversion. What serde derives for the raw
-- shapes, which `serde_json::from_value` calls, is a parameter.
pub mod Bounds
mod Tests
use attestation_verify.Prelude.{
  ℕ, not, Option, some, none, List, [], ◌∷◌, ◌++◌, length, is_empty, Result, ok, err, map_err,
  ◌>>=◌, ◌>>◌, traverse, transpose, if◌then◌else◌, Bool, true, false,
}
use attestation_verify.Prelude.Text.{Bytes, Text, codes, str_eq, split, trim_ascii}
use attestation_verify.Limits.{max_tlog_entries, max_bundles_per_set}
use attestation_verify.Errors.{
  Error, parse, dsse_signature_count, empty_container, unsupported, media_type, bundles_not_inline,
  too_many_tlog_entries, too_many_bundles, from_parse, from_limit,
}
use attestation_verify.StrictJson.Tree.{Value}
use attestation_verify.StrictJson.{JsonReader, parse_error, read_strict}
use attestation_verify.Crates.{Crates}
use attestation_verify.ParseUtil.{
  strict_stringified_u64, strict_base64, check_input_size, check_count,
}
use attestation_verify.Bundle.{
  Certificate, InclusionPromise, InclusionProof, TlogEntry, Rfc3161Timestamp,
  TimestampVerificationData, VerificationMaterial, DsseSignature, DsseEnvelope, Bundle,
}

abbrev pub bundle_media_type : Text
bundle_media_type = codes "application/vnd.dev.sigstore.bundle.v0.3+json"

pub record RawCertificate : Type 0 where
  pub raw_bytes : Text

pub record RawLogId : Type 0 where
  pub key_id : Text

pub record RawKindVersion : Type 0 where
  pub kind : Text
  pub version : Text

pub record RawInclusionPromise : Type 0 where
  pub signed_entry_timestamp : Text

pub record RawCheckpoint : Type 0 where
  pub envelope : Text

pub record RawInclusionProof : Type 0 where
  pub log_index : Text
  pub root_hash : Text
  pub tree_size : Text
  pub hashes : List Text
  pub checkpoint : RawCheckpoint

pub record RawTlogEntry : Type 0 where
  pub log_index : Text
  pub log_id : RawLogId
  pub kind_version : RawKindVersion
  pub integrated_time : Text
  pub inclusion_promise : Option RawInclusionPromise
  pub inclusion_proof : Option RawInclusionProof
  pub canonicalized_body : Text

pub record RawRfc3161Timestamp : Type 0 where
  pub signed_timestamp : Text

pub record RawTimestampVerificationData : Type 0 where
  pub rfc3161_timestamps : List RawRfc3161Timestamp

pub record RawVerificationMaterial : Type 0 where
  pub certificate : RawCertificate
  pub tlog_entries : List RawTlogEntry
  pub timestamp_verification_data : RawTimestampVerificationData

pub record RawDsseSignature : Type 0 where
  pub sig : Text
  pub keyid : Option Text

pub record RawDsseEnvelope : Type 0 where
  pub payload : Text
  pub payload_type : Text
  pub signatures : List RawDsseSignature

pub record RawBundle : Type 0 where
  pub media_type : Text
  pub verification_material : RawVerificationMaterial
  pub dsse_envelope : RawDsseEnvelope

-- `<[_; 1]>::try_from(signatures)`
abbrev pub sole_signature : List RawDsseSignature → Result RawDsseSignature Error
sole_signature [] = err (parse (dsse_signature_count 0))
sole_signature (s ∷ []) = ok s
sole_signature (s ∷ t ∷ rest) = err (parse (dsse_signature_count (length (s ∷ t ∷ rest))))

abbrev pub read_number : Text → Text → Result ℕ Error
unfolding strict_stringified_u64
read_number field s = from_parse (strict_stringified_u64 field s)

module _ (crates : Crates) where
  abbrev pub decode : Text → Text → Result Bytes Error
  decode field s = from_parse (strict_base64 crates field s)

  abbrev pub certificate_from_raw : RawCertificate → Result Certificate Error
  certificate_from_raw raw =
      decode (codes "certificate.rawBytes") raw.raw_bytes >>= λ b. ok (record { raw_bytes = b })

  abbrev pub promise_from_raw : RawInclusionPromise → Result InclusionPromise Error
  promise_from_raw raw =
      decode (codes "inclusionPromise.signedEntryTimestamp") raw.signed_entry_timestamp >>= λ b.
      ok (record { signed_entry_timestamp = b })

  unfoldable pub proof_from_raw : RawInclusionProof → Result InclusionProof Error
  unfolding read_number traverse
  proof_from_raw raw = do
    log_index ← read_number (codes "inclusionProof.logIndex") raw.log_index
    root_hash ← decode (codes "inclusionProof.rootHash") raw.root_hash
    tree_size ← read_number (codes "inclusionProof.treeSize") raw.tree_size
    hashes ← traverse (decode (codes "inclusionProof.hashes[]")) raw.hashes
    ok (record {
      log_index = log_index;
      root_hash = root_hash;
      tree_size = tree_size;
      hashes = hashes;
      checkpoint = record { envelope = raw.checkpoint.envelope };
    })

  unfoldable pub entry_from_raw : RawTlogEntry → Result TlogEntry Error
  unfolding read_number proof_from_raw
  entry_from_raw raw = do
    log_index ← read_number (codes "tlogEntries[].logIndex") raw.log_index
    log_id_key_id ← decode (codes "tlogEntries[].logId.keyId") raw.log_id.key_id
    integrated_time ← read_number (codes "tlogEntries[].integratedTime") raw.integrated_time
    inclusion_promise ← transpose raw.inclusion_promise promise_from_raw
    inclusion_proof ← transpose raw.inclusion_proof proof_from_raw
    canonicalized_body ← decode (codes "tlogEntries[].canonicalizedBody") raw.canonicalized_body
    ok (record {
      log_index = log_index;
      log_id_key_id = log_id_key_id;
      kind = raw.kind_version.kind;
      version = raw.kind_version.version;
      integrated_time = integrated_time;
      inclusion_promise = inclusion_promise;
      inclusion_proof = inclusion_proof;
      canonicalized_body = canonicalized_body;
    })

  abbrev pub timestamp_from_raw : RawRfc3161Timestamp → Result Rfc3161Timestamp Error
  timestamp_from_raw raw =
      decode (codes "rfc3161Timestamps[].signedTimestamp") raw.signed_timestamp >>= λ b.
      ok (record { signed_timestamp = b })

  unfoldable pub timestamps_from_raw :
      RawTimestampVerificationData → Result TimestampVerificationData Error
  unfolding traverse
  timestamps_from_raw raw = traverse timestamp_from_raw raw.rfc3161_timestamps >>= λ ts.
      ok (record { rfc3161_timestamps = ts })

  unfoldable pub material_from_raw : RawVerificationMaterial → Result VerificationMaterial Error
  unfolding traverse entry_from_raw timestamps_from_raw
  material_from_raw raw = do
    from_limit (check_count raw.tlog_entries max_tlog_entries too_many_tlog_entries)
    certificate ← certificate_from_raw raw.certificate
    tlog_entries ← traverse entry_from_raw raw.tlog_entries
    timestamp_verification_data ← timestamps_from_raw raw.timestamp_verification_data
    ok (record {
      certificate = certificate;
      tlog_entries = tlog_entries;
      timestamp_verification_data = timestamp_verification_data;
    })

  abbrev pub signature_from_raw : RawDsseSignature → Result DsseSignature Error
  signature_from_raw raw = decode (codes "dsseEnvelope.signatures[].sig") raw.sig >>= λ b.
      ok (record { sig = b; keyid = raw.keyid })

  unfoldable pub envelope_from_raw : RawDsseEnvelope → Result DsseEnvelope Error
  envelope_from_raw raw = do
    raw_signature ← sole_signature raw.signatures
    payload ← decode (codes "dsseEnvelope.payload") raw.payload
    signature ← signature_from_raw raw_signature
    ok (record { payload = payload; payload_type = raw.payload_type; signature = signature })

  unfoldable pub bundle_from_raw : RawBundle → Result Bundle Error
  unfolding str_eq material_from_raw envelope_from_raw
  bundle_from_raw raw = do
    if not (str_eq raw.media_type bundle_media_type)
        then err (unsupported (media_type raw.media_type))
        else ok tt
    verification_material ← material_from_raw raw.verification_material
    dsse_envelope ← envelope_from_raw raw.dsse_envelope
    ok (record {
      media_type = raw.media_type;
      verification_material = verification_material;
      dsse_envelope = dsse_envelope;
    })

  unfoldable pub from_json :
      JsonReader → (Value → Result RawBundle Text) → Bytes → Result Bundle Error
  unfolding read_strict bundle_from_raw
  from_json reader bundle_of bytes = do
    from_limit (check_input_size bytes)
    raw ← read_strict reader bundle_of bytes
    bundle_from_raw raw
