-- ===== src/Crates.antt =====
-- The third-party crates that the code calls on bytes and text, as parameters: sha2, base64, hex,
-- and the string printer of serde_json. A decoder's error is the text of its message.
use attestation_verify.Prelude.{ℕ, Bool, Option, List, Result}
use attestation_verify.Prelude.Text.{Bytes, Text}

pub record Crates : Type 0 where
  -- `Sha256::digest`
  pub digest : Bytes → Bytes
  -- `base64::STANDARD`
  pub base64_encode : Bytes → Text
  pub base64_decode : Text → Result Bytes Text
  -- `hex::encode` and `hex::decode_to_slice` into a slice of that length
  pub hex_encode : Bytes → Text
  pub hex_decode : ℕ → Text → Result Bytes Text
  -- `serde_json::Value::String(s).to_string()`
  pub json_string : Text → Text

-- What the crate x509_cert tells of a decoded certificate: the DER of its public key, or the message
-- of the encoder, and its window in seconds.
pub record CertificateFacts : Type 0 where
  pub subject_public_key_info_der : Result Bytes Text
  pub not_before : ℕ
  pub not_after : ℕ

-- `x509_cert::Certificate::from_der`
abbrev pub CertificateDecoder : Type 0
CertificateDecoder = Bytes → Result CertificateFacts Text

-- `x509_cert::ext::Extension`; an object identifier is its dotted text.
pub record Extension : Type 0 where
  pub extn_id : Text
  pub critical : Bool
  pub extn_value : Bytes

-- `x509_cert::ext::pkix::name::GeneralName`; the code tells only URIs from the rest.
pub data GeneralName : Type 0 where
  uniform_resource_identifier : Text → GeneralName
  other_name : GeneralName

-- `x509_cert::Certificate`, by what the code reads of it. A name is a byte string, equal where the
-- names are; an encoder gives DER or the text of its error; a moment is in seconds.
pub record X509Certificate : Type 0 where
  pub subject : Bytes
  pub issuer : Bytes
  pub validity_not_before : ℕ
  pub validity_not_after : ℕ
  pub extensions : List Extension
  pub subject_public_key_info : Result Bytes Text
  pub tbs_certificate : Result Bytes Text
  pub signature_algorithm : Text
  pub signature : Bytes

-- `x509_cert::ext::pkix`
pub record BasicConstraints : Type 0 where
  pub ca : Bool
  pub path_len_constraint : Option ℕ

pub record KeyUsage : Type 0 where
  pub digital_signature : Bool
  pub key_cert_sign : Bool

-- The decoders of x509_cert; the code uses the error of the first alone.
pub record X509Decoders : Type 0 where
  pub certificate_from_der : Bytes → Result X509Certificate Text
  pub basic_constraints : Bytes → Option BasicConstraints
  pub key_usage : Bytes → Option KeyUsage
  pub extended_key_usage : Bytes → Option (List Text)

-- `der::Tag`, as far as the code tells one from another.
pub data Tag : Type 0 where
  context_specific : Bool → ℕ → Tag
  universal : ℕ → Tag

-- `der::asn1::AnyRef`
pub record AnyRef : Type 0 where
  pub tag : Tag
  pub value : Bytes

-- The crates der and x509_cert, on byte strings: `OctetString::from_der`, `Vec::<AnyRef>::from_der`
-- and `to_der`, `Extensions::from_der` and `to_der`, and `AnyRef::new`.
pub record DerCodec : Type 0 where
  pub octet_string_from_der : Bytes → Result Bytes Text
  pub fields_from_der : Bytes → Result (List AnyRef) Text
  pub fields_to_der : List AnyRef → Result Bytes Text
  pub extensions_from_der : Bytes → Result (List Extension) Text
  pub extensions_to_der : List Extension → Result Bytes Text
  pub any_ref_new : Tag → Bytes → Result AnyRef Text
