-- ===== src/Rekor/Entry.antt =====
-- src/rekor.rs, "Composed verification": `verify_tlog_entry`. Decoding a certificate (`from_der`) and
-- what serde derives for the entry's body (`body_of`) are parameters.
pub mod Verified
mod Tests
use attestation_verify.Prelude.{
  ℕ, Bool, List, [], ◌∷◌, length, Option, some, none, Result, ok, err, ◌>>=◌, ◌>>◌, ok_or, not,
  if◌then◌else◌,
}
use attestation_verify.Prelude.Text.{Bytes, Text}
use attestation_verify.Errors.{
  Error, transparency, no_tlog_entries, inclusion_proof_missing, checkpoint_origin_mismatch,
  unsupported, multiple_tlog_entries,
}
use attestation_verify.StrictJson.Tree.{Value}
use attestation_verify.StrictJson.{JsonReader}
use attestation_verify.Crates.{Crates, CertificateDecoder}
use attestation_verify.Bundle.{Bundle, TlogEntry}
use attestation_verify.Trust.{TrustStore}
use attestation_verify.Policy.{CheckpointOriginPolicy, allows_bindings, checkpoint_log_key_id}
use attestation_verify.Dsse.{Ecdsa, from_certificate}
use attestation_verify.Rekor.Merkle.{verify_inclusion_proof}
use attestation_verify.Rekor.Body.{RawTlogEntryBody, parse_tlog_entry_body, check_entry_binding}
use attestation_verify.Rekor.Set.{verify_set, select_log_key}
use attestation_verify.Rekor.Checkpoint.{verify_checkpoint}
use attestation_verify.Rekor.Window.{check_time_window}

pub record VerifiedTimestamp : Type 0 where
  pub integrated_time : ℕ
  pub log_index : ℕ

abbrev pub sole_entry : List TlogEntry → Result TlogEntry Error
sole_entry [] = err (transparency no_tlog_entries)
sole_entry (entry ∷ []) = ok entry
sole_entry (a ∷ b ∷ rest) = err (unsupported (multiple_tlog_entries (length (a ∷ b ∷ rest))))

module _ (crates : Crates) (ecdsa : Ecdsa) (from_der : CertificateDecoder) (reader : JsonReader)
    (body_of : Value → Result RawTlogEntryBody Text) where
  unfoldable pub verify_tlog_entry :
      Bundle → TrustStore → CheckpointOriginPolicy → Result VerifiedTimestamp Error
  unfolding parse_tlog_entry_body check_entry_binding select_log_key verify_set
      verify_inclusion_proof verify_checkpoint allows_bindings from_certificate check_time_window
  verify_tlog_entry bundle trust_store checkpoint_origin_policy = do
    entry ← sole_entry bundle.verification_material.tlog_entries
    body ← parse_tlog_entry_body crates reader body_of entry.canonicalized_body
    check_entry_binding crates entry body bundle.dsse_envelope
        bundle.verification_material.certificate.raw_bytes
    (log, log_key) ← select_log_key crates ecdsa trust_store entry.log_id_key_id
    let selected_key_id = checkpoint_log_key_id crates.digest log
    verify_set crates ecdsa entry selected_key_id log_key
    inclusion_proof ← ok_or entry.inclusion_proof (transparency inclusion_proof_missing)
    verify_inclusion_proof crates.digest entry.canonicalized_body inclusion_proof
    checkpoint ←
        verify_checkpoint crates ecdsa inclusion_proof.checkpoint.envelope inclusion_proof.tree_size
          inclusion_proof.root_hash log log_key
    if not (allows_bindings checkpoint_origin_policy.bindings selected_key_id checkpoint.origin)
        then err (transparency checkpoint_origin_mismatch)
        else ok tt
    leaf_info ← from_certificate ecdsa from_der bundle.verification_material.certificate
    check_time_window entry.integrated_time log.public_key.valid_for leaf_info.not_before
        leaf_info.not_after
    ok (record { integrated_time = entry.integrated_time; log_index = entry.log_index })
