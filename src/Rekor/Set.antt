-- ===== src/Rekor/Set.antt =====
-- src/rekor.rs, "2. SET (inclusion promise) verification", and the selection of the log's key.
pub mod Binds
mod Tests
use attestation_verify.Prelude.{
  ℕ, Bool, Option, some, none, List, find_first, ◌++◌, ◌∷◌, [], Result, ok, err, ◌>>=◌, ok_or,
  if◌then◌else◌, String,
}
use attestation_verify.Prelude.Text.{Bytes, Text, codes, str_eq}
use attestation_verify.Prelude.Decimal.{to_string}
use attestation_verify.Errors.{Error, transparency, set_missing, set_invalid, unknown_log_key}
use attestation_verify.Crates.{Crates}
use attestation_verify.Bundle.{TlogEntry, InclusionPromise}
use attestation_verify.Trust.{TrustStore, TransparencyLog}
use attestation_verify.Dsse.{Ecdsa, EcdsaVerifyingKey, verify_der, from_spki_der}

module _ (crates : Crates) where
  open crates use {digest, base64_encode, hex_encode}

  -- `{"body":"…","integratedTime":…,"logID":"…","logIndex":…}`
  unfoldable pub set_signed_bytes : Bytes → ℕ → Bytes → ℕ → Bytes
  set_signed_bytes canonicalized_body integrated_time log_key_id log_index =
      codes "{\"body\":\""
      ++ (base64_encode canonicalized_body
          ++ (b'"'
              ∷ (codes ",\"integratedTime\":"
                  ++ (to_string integrated_time
                      ++ (b','
                          ∷ (codes "\"logID\":\""
                              ++ (hex_encode log_key_id
                                  ++ (b'"'
                                      ∷ (codes ",\"logIndex\":"
                                          ++ (to_string log_index ++ (b'}' ∷ [])))))))))))

  module _ (ecdsa : Ecdsa) where
    unfoldable pub verify_set :
        TlogEntry → Bytes → EcdsaVerifyingKey ecdsa → Result (Unit {0}) Error
    unfolding set_signed_bytes verify_der
    verify_set tlog_entry log_key_id log_key =
        ok_or tlog_entry.inclusion_promise (transparency set_missing) >>= λ promise.
        let message =
          set_signed_bytes tlog_entry.canonicalized_body tlog_entry.integrated_time log_key_id
            tlog_entry.log_index in
        if verify_der ecdsa log_key message promise.signed_entry_timestamp
        then ok tt
        else err (transparency set_invalid)

    unfoldable pub select_log_key :
        TrustStore → Bytes → Result (TransparencyLog × EcdsaVerifyingKey ecdsa) Error
    unfolding find_first str_eq from_spki_der
    select_log_key trust_store wanted_log_id = do
      log ←
          ok_or
            (find_first
              (λ (log : TransparencyLog). str_eq (digest log.public_key.raw_bytes) wanted_log_id)
              trust_store.tlogs)
            (transparency unknown_log_key)
      key ← from_spki_der ecdsa log.public_key.raw_bytes
      ok (log, key)
