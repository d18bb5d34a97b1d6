-- ===== src/Dsse.antt =====
-- src/dsse.rs: the pre-authentication encoding and the envelope's signature. ECDSA and DER are
-- third-party crates, and parameters here.
pub mod Pae
mod Tests
use attestation_verify.Prelude.{
  ℕ, Bool, true, false, Option, none, some, List, [], ◌∷◌, ◌++◌, length, if◌then◌else◌, Result, ok,
  err, ◌>>=◌, leb, map_err, String,
}
use attestation_verify.Prelude.Int.{ℤ, pos, i64_max}
use attestation_verify.Prelude.Text.{Bytes, Text, codes}
use attestation_verify.Prelude.Decimal.{to_string}
use attestation_verify.Crates.{CertificateDecoder}
use attestation_verify.Errors.{
  Error, certificate, unsupported_key_algorithm, invalid_der, content_binding,
  dsse_signature_invalid,
}
use attestation_verify.Bundle.{DsseEnvelope, Certificate}

-- `Vec::extend_from_slice` in the order of the calls.
unfoldable pub pae : Text → Bytes → Bytes
pae payload_type payload =
    codes "DSSEv1 "
    ++ (to_string (length payload_type)
        ++ (b' ' ∷ (payload_type ++ (b' ' ∷ (to_string (length payload) ++ (b' ' ∷ payload))))))

-- The crates p256 and p384: keys, their decoding from a `SubjectPublicKeyInfo`, and verification
-- of a DER signature over a message.
pub record Ecdsa : Type 1 where
  pub P256Key : Type 0
  pub P384Key : Type 0
  pub p256_from_public_key_der : Bytes → Option P256Key
  pub p384_from_public_key_der : Bytes → Option P384Key
  pub p256_verify : P256Key → Bytes → Bytes → Bool
  pub p384_verify : P384Key → Bytes → Bytes → Bool

abbrev pub invalid_certificate : Text → Error
invalid_certificate e = certificate (invalid_der e)

module _ (ecdsa : Ecdsa) where
  open ecdsa use {
    P256Key, P384Key, p256_from_public_key_der, p384_from_public_key_der, p256_verify, p384_verify,
  }

  pub data EcdsaVerifyingKey : Type 0 where
    p256 : P256Key → EcdsaVerifyingKey
    p384 : P384Key → EcdsaVerifyingKey

  or_else_p384 : Option P384Key → Result EcdsaVerifyingKey Error
  or_else_p384 (some key) = ok (p384 key)
  or_else_p384 none = err (certificate unsupported_key_algorithm)

  or_else : Option P256Key → Result EcdsaVerifyingKey Error → Result EcdsaVerifyingKey Error
  or_else (some key) rest = ok (p256 key)
  or_else none rest = rest

  unfoldable pub from_spki_der : Bytes → Result EcdsaVerifyingKey Error
  unfolding or_else or_else_p384
  from_spki_der spki_der =
      or_else (p256_from_public_key_der spki_der) (or_else_p384 (p384_from_public_key_der spki_der))

  unfoldable pub verify_der : EcdsaVerifyingKey → Bytes → Bytes → Bool
  verify_der (p256 key) message signature = p256_verify key message signature
  verify_der (p384 key) message signature = p384_verify key message signature

  unfoldable pub verify_envelope : DsseEnvelope → EcdsaVerifyingKey → Result (Unit {0}) Error
  unfolding verify_der pae
  verify_envelope envelope leaf_key =
      let message = pae envelope.payload_type envelope.payload in
      if verify_der leaf_key message envelope.signature.sig
      then ok tt
      else err (content_binding dsse_signature_invalid)

-- Saturates at `i64::MAX`.
abbrev pub unix_seconds : ℕ → ℤ
unix_seconds d = if leb d i64_max then pos d else pos i64_max

module _ (ecdsa : Ecdsa) (from_der : CertificateDecoder) where
  pub record LeafCertificateInfo : Type 0 where
    pub key : EcdsaVerifyingKey ecdsa
    pub not_before : ℤ
    pub not_after : ℤ

  unfoldable pub from_certificate : Certificate → Result LeafCertificateInfo Error
  unfolding from_spki_der
  from_certificate c = do
    cert ← map_err (from_der c.raw_bytes) invalid_certificate
    spki_der ← map_err cert.subject_public_key_info_der invalid_certificate
    key ← from_spki_der ecdsa spki_der
    ok (record {
      key = key;
      not_before = unix_seconds cert.not_before;
      not_after = unix_seconds cert.not_after;
    })
