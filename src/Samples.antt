-- ===== src/Samples.antt =====
-- Stand-ins for the parameters of the model, for the tests.
pub mod Attestation
use attestation_verify.Prelude.{◌++◌, ◌≡◌, [], ◌∷◌, length, length-append, length-take, take, arith}
use attestation_verify.Prelude.Text.{Bytes, Text, str_eq}
use attestation_verify.Prelude.Int.{pos}
use attestation_verify.Prelude.{ℕ, none, some, false, Result, ok, err, ◌==◌, if◌then◌else◌}
use attestation_verify.StrictJson.Tree.{visits_unit}
use attestation_verify.StrictJson.{JsonReader}
use attestation_verify.Crates.{Crates}
use attestation_verify.Dsse.{Ecdsa, EcdsaVerifyingKey, p256}
use attestation_verify.Trust.{TransparencyLog}

abbrev pub zeros_32 : Bytes
zeros_32 =
    0 ∷ 0 ∷ 0 ∷ 0 ∷ 0 ∷ 0 ∷ 0 ∷ 0 ∷ 0 ∷ 0 ∷ 0 ∷ 0 ∷ 0 ∷ 0 ∷ 0 ∷ 0 ∷ 0 ∷ 0 ∷ 0 ∷ 0 ∷ 0 ∷ 0 ∷ 0 ∷ 0
    ∷ 0 ∷ 0 ∷ 0 ∷ 0 ∷ 0 ∷ 0 ∷ 0 ∷ 0 ∷ []

-- The first 32 bytes, padded with zeros.
abbrev pub short_digest : Bytes → Bytes
short_digest b = take 32 (b ++ zeros_32)

pub length-short_digest : (b : Bytes) → length (short_digest b) ≡ 32
length-short_digest b = omega (arith, length-take 32 (b ++ zeros_32), length-append b zeros_32)

abbrev pub sample_log : TransparencyLog
sample_log = record {
  base_url = b'u' ∷ [];
  hash_algorithm = b'h' ∷ [];
  public_key = record {
    raw_bytes = 1 ∷ 2 ∷ 3 ∷ [];
    key_details = [];
    valid_for = record { start = pos 0; end = none };
  };
  log_id_key_id = [];
  checkpoint_key_id = none;
}

-- Encoders that change nothing, and decoders that accept everything of the right length.
abbrev pub toy_hex_decode : ℕ → Text → Result Bytes Text
toy_hex_decode n s = if length s == n then ok s else err s

abbrev pub toy_crates : Crates
toy_crates = record {
  digest = short_digest;
  base64_encode = λ b. b;
  base64_decode = λ s. ok s;
  hex_encode = λ b. b;
  hex_decode = toy_hex_decode;
  json_string = λ s. s;
}

-- A key is the text that it was decoded from; a signature is the first byte of the message.
unfoldable pub toy_ecdsa : Ecdsa
unfolding str_eq
toy_ecdsa = record {
  P256Key = Bytes;
  P384Key = Bytes;
  p256_from_public_key_der = λ der. some der;
  p384_from_public_key_der = λ der. none;
  p256_verify = λ key message signature. str_eq signature (take 1 message);
  p384_verify = λ key message signature. false;
}

abbrev pub toy_key : EcdsaVerifyingKey toy_ecdsa
unfolding toy_ecdsa
toy_key = p256 []

-- Every document is the JSON value `null`.
abbrev pub toy_reader : JsonReader
toy_reader = record { source = λ b. visits_unit; end = λ b. ok tt }
