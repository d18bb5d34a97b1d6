-- ===== src/Rekor/Body.antt =====
-- src/rekor.rs, "1. Canonicalized body model + binding". What serde derives for
-- the raw shape is a parameter.
pub mod Binding
mod Tests
use attestation_verify.Prelude.{
  ℕ, Bool, true, false, ◌||◌, not, Option, some, none, List, [], ◌∷◌, ◌++◌, is_empty, length,
  Result, ok, err, ◌>>=◌, ◌>>◌, ok_or, if◌then◌else◌, String,
}
use attestation_verify.Prelude.Text.{Bytes, Text, codes, str_eq}
use attestation_verify.Prelude.Text.Utf8.{is_utf8}
use attestation_verify.Errors.{
  Error, parse, base64, dsse_signature_count, unsupported, tlog_entry_kind_version, content_binding,
  tlog_entry_kind_version_mismatch, tlog_entry_signature_mismatch, tlog_entry_certificate_mismatch,
  tlog_entry_payload_hash_mismatch, tlog_entry_envelope_hash_mismatch, from_parse,
}
use attestation_verify.StrictJson.Tree.{Value}
use attestation_verify.StrictJson.{JsonReader, read_strict}
use attestation_verify.Crates.{Crates}
use attestation_verify.ParseUtil.{strict_hex, strict_base64, strict_pem}
use attestation_verify.Bundle.{TlogEntry, DsseEnvelope, DsseSignature}

abbrev pub tlog_entry_kind : Text
tlog_entry_kind = codes "dsse"

abbrev pub tlog_entry_api_version : Text
tlog_entry_api_version = codes "0.0.1"

pub record RawHash : Type 0 where
  pub algorithm : Text
  pub value : Text

pub record RawDsseSpecSignature : Type 0 where
  pub signature : Text
  pub verifier : Text

pub record RawDsseSpec : Type 0 where
  pub envelope_hash : RawHash
  pub payload_hash : RawHash
  pub signatures : List RawDsseSpecSignature

pub record RawTlogEntryBody : Type 0 where
  pub api_version : Text
  pub kind : Text
  pub spec : RawDsseSpec

pub record TlogEntryBody : Type 0 where
  pub kind : Text
  pub api_version : Text
  pub envelope_hash : Bytes
  pub payload_hash : Bytes
  pub signature : Bytes
  pub verifier_certificate_der : Bytes

-- `<[_; 1]>::try_from(signatures)`
abbrev pub exactly_one : List RawDsseSpecSignature → Result RawDsseSpecSignature Error
exactly_one [] = err (parse (dsse_signature_count 0))
exactly_one (s ∷ []) = ok s
exactly_one (s ∷ t ∷ rest) = err (parse (dsse_signature_count (length (s ∷ t ∷ rest))))

module _ (crates : Crates) where
  open crates use {digest, base64_encode, json_string}

  unfoldable pub body_from_raw : RawTlogEntryBody → Result TlogEntryBody Error
  unfolding str_eq is_utf8 strict_pem
  body_from_raw raw = do
    if not (str_eq raw.kind tlog_entry_kind) || not (str_eq raw.api_version tlog_entry_api_version)
        then err (unsupported (tlog_entry_kind_version raw.kind raw.api_version))
        else ok tt
    raw_signature ← exactly_one raw.spec.signatures
    envelope_hash ←
        from_parse
          (strict_hex crates 32 (codes "spec.envelopeHash.value") raw.spec.envelope_hash.value)
    payload_hash ←
        from_parse
          (strict_hex crates 32 (codes "spec.payloadHash.value") raw.spec.payload_hash.value)
    signature ←
        from_parse
          (strict_base64 crates (codes "spec.signatures[].signature") raw_signature.signature)
    verifier_pem_bytes ←
        from_parse
          (strict_base64 crates (codes "spec.signatures[].verifier") raw_signature.verifier)
    if not (is_utf8 verifier_pem_bytes)
        then err (
            parse (
              base64 (codes "spec.signatures[].verifier")
                (codes "decoded PEM body is not valid UTF-8")))
        else ok tt
    verifier_certificate_der ← from_parse (
        strict_pem crates (codes "spec.signatures[].verifier") (codes "CERTIFICATE")
          verifier_pem_bytes)
    ok (record {
      kind = raw.kind;
      api_version = raw.api_version;
      envelope_hash = envelope_hash;
      payload_hash = payload_hash;
      signature = signature;
      verifier_certificate_der = verifier_certificate_der;
    })

  unfoldable pub parse_tlog_entry_body :
      JsonReader → (Value → Result RawTlogEntryBody Text) → Bytes → Result TlogEntryBody Error
  unfolding read_strict body_from_raw
  parse_tlog_entry_body reader body_of canonicalized_body =
      read_strict reader body_of canonicalized_body >>= body_from_raw

  -- The `keyid` member, which is left out when it is absent or empty.
  keyid_member : Option Text → Text
  keyid_member none = []
  keyid_member (some k) =
      if is_empty k then [] else codes "\"keyid\":" ++ (json_string k ++ (b',' ∷ []))

  -- The envelope as the submitter's encoder prints it.
  unfoldable pub envelope_json : DsseEnvelope → Text
  unfolding keyid_member
  envelope_json envelope =
      codes "{\"payload\":"
      ++ (json_string (base64_encode envelope.payload)
          ++ (codes ",\"payloadType\":"
              ++ (json_string envelope.payload_type
                  ++ (codes ",\"signatures\":[{"
                      ++ (keyid_member envelope.signature.keyid
                          ++ (codes "\"sig\":"
                              ++ (json_string (base64_encode envelope.signature.sig)
                                  ++ codes "}]}")))))))

  abbrev pub compute_envelope_hash : DsseEnvelope → Bytes
  unfolding envelope_json
  compute_envelope_hash envelope = digest (envelope_json envelope)

  abbrev pub refuse_unless : Bool → Error → Result (Unit {0}) Error
  refuse_unless test e = if test then ok tt else err e

  unfoldable pub check_entry_binding :
      TlogEntry → TlogEntryBody → DsseEnvelope → Bytes → Result (Unit {0}) Error
  unfolding str_eq envelope_json
  check_entry_binding tlog_entry body envelope leaf_certificate_der = do
    if not (str_eq tlog_entry.kind body.kind) || not (str_eq tlog_entry.version body.api_version)
        then err (content_binding tlog_entry_kind_version_mismatch)
        else ok tt
    refuse_unless (str_eq body.signature envelope.signature.sig)
        (content_binding tlog_entry_signature_mismatch)
    refuse_unless (str_eq body.verifier_certificate_der leaf_certificate_der)
        (content_binding tlog_entry_certificate_mismatch)
    refuse_unless (str_eq body.payload_hash (digest envelope.payload))
        (content_binding tlog_entry_payload_hash_mismatch)
    refuse_unless (str_eq body.envelope_hash (compute_envelope_hash envelope))
        (content_binding tlog_entry_envelope_hash_mismatch)
