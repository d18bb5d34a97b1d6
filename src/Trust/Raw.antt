-- ===== src/Trust/Raw.antt =====
-- src/trust.rs: the raw shapes of a trusted root, and their strict conversion. What serde
-- derives for the raw shapes is a parameter.
pub mod Bounds
mod Tests
use attestation_verify.Prelude.{
  not, Option, List, Result, ok, err, ◌>>=◌, ◌>>◌, traverse, transpose, if◌then◌else◌,
}
use attestation_verify.Prelude.Text.{Bytes, Text, codes, str_eq}
use attestation_verify.Limits.{max_certificates_per_chain}
use attestation_verify.Errors.{
  Error, unsupported, media_type, too_many_certificates, from_parse, from_limit,
}
use attestation_verify.StrictJson.Tree.{Value}
use attestation_verify.StrictJson.{JsonReader, read_strict}
use attestation_verify.Crates.{Crates}
use attestation_verify.ParseUtil.{strict_base64, check_input_size, check_count}
use attestation_verify.Time.{parse_rfc3339}
use attestation_verify.Bundle.{Certificate}
use attestation_verify.Trust.{
  ValidityPeriod, PublicKey, TransparencyLog, CtLog, CertificateAuthority, TrustStore,
}

abbrev pub trusted_root_media_type : Text
trusted_root_media_type = codes "application/vnd.dev.sigstore.trustedroot+json;version=0.1"

pub record RawValidFor : Type 0 where
  pub start : Text
  pub end : Option Text

pub record RawCertEntry : Type 0 where
  pub raw_bytes : Text

pub record RawCertChain : Type 0 where
  pub certificates : List RawCertEntry

pub record RawCaSubject : Type 0 where
  pub organization : Text
  pub common_name : Text

pub record RawCertificateAuthority : Type 0 where
  pub subject : RawCaSubject
  pub uri : Text
  pub cert_chain : RawCertChain
  pub valid_for : RawValidFor

pub record RawRootLogId : Type 0 where
  pub key_id : Text

pub record RawPublicKey : Type 0 where
  pub raw_bytes : Text
  pub key_details : Text
  pub valid_for : RawValidFor

pub record RawTlog : Type 0 where
  pub base_url : Text
  pub hash_algorithm : Text
  pub public_key : RawPublicKey
  pub log_id : RawRootLogId
  pub checkpoint_key_id : Option Text

pub record RawTrustedRoot : Type 0 where
  pub media_type : Text
  pub tlogs : List RawTlog
  pub ctlogs : List RawTlog
  pub certificate_authorities : List RawCertificateAuthority
  pub timestamp_authorities : List RawCertificateAuthority

unfoldable pub validity_from_raw : RawValidFor → Result ValidityPeriod Error
unfolding parse_rfc3339
validity_from_raw raw = do
  start ← from_parse (parse_rfc3339 (codes "validFor.start") raw.start)
  end ← transpose raw.end (λ (e : Text). from_parse (parse_rfc3339 (codes "validFor.end") e))
  ok (record { start = start; end = end })

module _ (crates : Crates) where
  abbrev pub decode_field : Text → Text → Result Bytes Error
  decode_field field s = from_parse (strict_base64 crates field s)

  unfoldable pub public_key_from_raw : RawPublicKey → Result PublicKey Error
  unfolding validity_from_raw
  public_key_from_raw raw = do
    raw_bytes ← decode_field (codes "publicKey.rawBytes") raw.raw_bytes
    valid_for ← validity_from_raw raw.valid_for
    ok (record { raw_bytes = raw_bytes; key_details = raw.key_details; valid_for = valid_for })

  unfoldable pub tlog_from_raw : RawTlog → Result TransparencyLog Error
  unfolding public_key_from_raw
  tlog_from_raw raw = do
    public_key ← public_key_from_raw raw.public_key
    log_id_key_id ← decode_field (codes "tlogs[].logId.keyId") raw.log_id.key_id
    checkpoint_key_id ←
        transpose raw.checkpoint_key_id (decode_field (codes "tlogs[].checkpointKeyId"))
    ok (record {
      base_url = raw.base_url;
      hash_algorithm = raw.hash_algorithm;
      public_key = public_key;
      log_id_key_id = log_id_key_id;
      checkpoint_key_id = checkpoint_key_id;
    })

  unfoldable pub ctlog_from_raw : RawTlog → Result CtLog Error
  unfolding public_key_from_raw
  ctlog_from_raw raw = do
    public_key ← public_key_from_raw raw.public_key
    log_id_key_id ← decode_field (codes "ctlogs[].logId.keyId") raw.log_id.key_id
    ok (record {
      base_url = raw.base_url;
      hash_algorithm = raw.hash_algorithm;
      public_key = public_key;
      log_id_key_id = log_id_key_id;
    })

  abbrev pub cert_entry_from_raw : RawCertEntry → Result Certificate Error
  cert_entry_from_raw entry =
      decode_field (codes "certChain.certificates[].rawBytes") entry.raw_bytes >>= λ b.
      ok (record { raw_bytes = b })

  unfoldable pub authority_from_raw : RawCertificateAuthority → Result CertificateAuthority Error
  unfolding traverse validity_from_raw
  authority_from_raw raw = do
    from_limit
        (check_count raw.cert_chain.certificates max_certificates_per_chain too_many_certificates)
    certificates ← traverse cert_entry_from_raw raw.cert_chain.certificates
    valid_for ← validity_from_raw raw.valid_for
    ok (record {
      subject = record {
        organization = raw.subject.organization;
        common_name = raw.subject.common_name;
      };
      uri = raw.uri;
      certificates = certificates;
      valid_for = valid_for;
    })

  unfoldable pub store_from_raw : RawTrustedRoot → Text → Text → Result TrustStore Error
  unfolding str_eq traverse tlog_from_raw ctlog_from_raw authority_from_raw
  store_from_raw raw fingerprint source = do
    if not (str_eq raw.media_type trusted_root_media_type)
        then err (unsupported (media_type raw.media_type))
        else ok tt
    tlogs ← traverse tlog_from_raw raw.tlogs
    ctlogs ← traverse ctlog_from_raw raw.ctlogs
    certificate_authorities ← traverse authority_from_raw raw.certificate_authorities
    timestamp_authorities ← traverse authority_from_raw raw.timestamp_authorities
    ok (record {
      media_type = raw.media_type;
      tlogs = tlogs;
      ctlogs = ctlogs;
      certificate_authorities = certificate_authorities;
      timestamp_authorities = timestamp_authorities;
      fingerprint = fingerprint;
      source = source;
    })

  unfoldable pub store_from_json :
      JsonReader → (Value → Result RawTrustedRoot Text) → Bytes → Result TrustStore Error
  unfolding read_strict store_from_raw
  store_from_json reader root_of bytes = do
    from_limit (check_input_size bytes)
    raw ← read_strict reader root_of bytes
    store_from_raw raw (crates.hex_encode (crates.digest bytes)) (codes "external")

  -- `asset` is the document that the crate embeds.
  unfoldable pub embedded_public_good :
      JsonReader → (Value → Result RawTrustedRoot Text) → Bytes → Result TrustStore Error
  unfolding store_from_json
  embedded_public_good reader root_of asset = do
    store ← store_from_json reader root_of asset
    ok (record {
      media_type = store.media_type;
      tlogs = store.tlogs;
      ctlogs = store.ctlogs;
      certificate_authorities = store.certificate_authorities;
      timestamp_authorities = store.timestamp_authorities;
      fingerprint = store.fingerprint;
      source = codes "embedded-public-good";
    })
