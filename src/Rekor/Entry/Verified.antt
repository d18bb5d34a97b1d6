-- ===== src/Rekor/Entry/Verified.antt =====
-- What a verified transparency-log entry guarantees.
use attestation_verify.Prelude.{
  find_first_sound, unnegated, ◌≤◌, ◌≡◌, sym, ap, subst, true, not, List, [], ◌∷◌, find_first,
  Exists, some, Result, ok, ok_or, ok_or-eq-ok, passed, refused_not, last_met, ok_inj,
}
use attestation_verify.Prelude.Int.{pos, ◌≤ℤ◌, i64_max}
use attestation_verify.Prelude.Text.{Bytes, Text}
use attestation_verify.Prelude.Text.Laws.{str_eq→eq}
use attestation_verify.StrictJson.Tree.{Value}
use attestation_verify.StrictJson.{JsonReader}
use attestation_verify.Crates.{Crates, CertificateDecoder}
use attestation_verify.Bundle.{Bundle, TlogEntry, InclusionPromise, InclusionProof}
use attestation_verify.Trust.{TrustStore, TransparencyLog}
use attestation_verify.Policy.{CheckpointOriginPolicy, allows_bindings, checkpoint_log_key_id}
use attestation_verify.Dsse.{
  Ecdsa, EcdsaVerifyingKey, verify_der, from_spki_der, LeafCertificateInfo, from_certificate,
}
use attestation_verify.Rekor.Merkle.{verify_inclusion_proof}
use attestation_verify.Rekor.Body.{
  RawTlogEntryBody, TlogEntryBody, parse_tlog_entry_body, check_entry_binding,
}
use attestation_verify.Rekor.Body.Binding.{IsBound, check_entry_binding_iff}
use attestation_verify.Rekor.Set.{set_signed_bytes, verify_set, select_log_key}
use attestation_verify.Rekor.Checkpoint.{ParsedCheckpoint, checkpoint_key_hint, verify_checkpoint}
use attestation_verify.Rekor.Checkpoint.Parsed.{IsCheckpoint, parse_checkpoint-IsCheckpoint}
use attestation_verify.Rekor.Checkpoint.Verified.{IsSignedBy, verify_checkpoint_iff}
use attestation_verify.Rekor.Window.{check_time_window, check_time_window_iff, IsWithin}
use attestation_verify.Rekor.Entry.{VerifiedTimestamp, sole_entry, verify_tlog_entry}

sole_entry_sound : (es : List TlogEntry) {e : TlogEntry} → sole_entry es ≡ ok e → es ≡ e ∷ []
sole_entry_sound [] h = absurd (cc h)
sole_entry_sound (a ∷ []) h = ap (λ (t : TlogEntry). t ∷ []) (ok_inj h)
sole_entry_sound (a ∷ b ∷ rest) h = absurd (cc h)

module _ (crates : Crates) (ecdsa : Ecdsa) where
  -- A trusted log whose key hashes to the id, with that key.
  abbrev pub IsLogKey : TrustStore → Bytes → TransparencyLog → EcdsaVerifyingKey ecdsa → Type 0
  IsLogKey store id log key =
      Exists (λ (x : TransparencyLog). x ≡ log) store.tlogs
      × (checkpoint_log_key_id crates.digest log ≡ id)
      × (from_spki_der ecdsa log.public_key.raw_bytes ≡ ok key)

  select_log_key_sound :
      (store : TrustStore) (id : Bytes) (log : TransparencyLog) (key : EcdsaVerifyingKey ecdsa)
      → select_log_key crates ecdsa store id ≡ ok (log, key)
      → IsLogKey store id log key
  unfolding select_log_key
  select_log_key_sound store id log key e =
      passed (ok_or (find_first _ store.tlogs) _) _ e (λ l found e.
        passed (from_spki_der ecdsa l.public_key.raw_bytes) _ e (λ k decoded e.
          let (x, i, at, (same, hashes)) = find_first_sound _ store.tlogs (ok_or-eq-ok _ _ found) in
          subst (λ (t : TransparencyLog × EcdsaVerifyingKey ecdsa). IsLogKey store id t.0 t.1)
            (ok_inj e)
            (
              (x, i, at, same),
              subst (λ (t : TransparencyLog). checkpoint_log_key_id crates.digest t ≡ id) same
                  (str_eq→eq _ _ hashes),
              decoded,
            )))

  -- The entry's promise is a signature of the log over body, time, log and index.
  abbrev pub IsPromised : TlogEntry → Bytes → EcdsaVerifyingKey ecdsa → Type 0
  IsPromised entry id key =
      (promise : InclusionPromise) × (entry.inclusion_promise ≡ some promise)
      × (verify_der ecdsa key
            (set_signed_bytes crates entry.canonicalized_body entry.integrated_time id
              entry.log_index)
            promise.signed_entry_timestamp
          ≡ true)

  verify_set_sound :
      (entry : TlogEntry) (id : Bytes) (key : EcdsaVerifyingKey ecdsa)
      → verify_set crates ecdsa entry id key ≡ ok tt
      → IsPromised entry id key
  unfolding verify_set
  verify_set_sound entry id key e =
      passed (ok_or entry.inclusion_promise _) _ e
        (λ promise there e. (promise, ok_or-eq-ok _ _ there, last_met _ _ e))

module _ (crates : Crates) (ecdsa : Ecdsa) (from_der : CertificateDecoder) (reader : JsonReader)
    (body_of : Value → Result RawTlogEntryBody Text) where
  abbrev pub IsVerified : Bundle → TrustStore → CheckpointOriginPolicy → VerifiedTimestamp → Type 0
  IsVerified bundle store origins t =
      (entry : TlogEntry) × (body : TlogEntryBody) × (log : TransparencyLog)
      × (key : EcdsaVerifyingKey ecdsa) × (proof : InclusionProof) × (c : ParsedCheckpoint)
      × (hint : Bytes) × (leaf : LeafCertificateInfo ecdsa from_der)
      × (bundle.verification_material.tlog_entries ≡ entry ∷ [])
      × (parse_tlog_entry_body crates reader body_of entry.canonicalized_body ≡ ok body)
      × IsBound crates entry body bundle.dsse_envelope
          bundle.verification_material.certificate.raw_bytes
      × IsLogKey crates ecdsa store entry.log_id_key_id log key
      × IsPromised crates ecdsa entry (checkpoint_log_key_id crates.digest log) key
      × (entry.inclusion_proof ≡ some proof)
      × (verify_inclusion_proof crates.digest entry.canonicalized_body proof ≡ ok tt)
      × IsCheckpoint crates proof.checkpoint.envelope c
      × (c.tree_size ≡ proof.tree_size)
      × (c.root_hash ≡ proof.root_hash)
      × (checkpoint_key_hint crates log ≡ some hint)
      × IsSignedBy crates ecdsa c hint key
      × (allows_bindings origins.bindings (checkpoint_log_key_id crates.digest log) c.origin ≡ true)
      × (from_certificate ecdsa from_der bundle.verification_material.certificate ≡ ok leaf)
      × (entry.integrated_time ≤ i64_max)
      × IsWithin log.public_key.valid_for (pos entry.integrated_time)
      × (leaf.not_before ≤ℤ pos entry.integrated_time)
      × (pos entry.integrated_time ≤ℤ leaf.not_after)
      × (t ≡ record { integrated_time = entry.integrated_time; log_index = entry.log_index })

  -- A timestamp is returned only of a bundle with one log entry, whose body binds it to the envelope
  -- and the certificate; under a trusted log's key, whose hash is the entry's log id, the promise is
  -- signed over the body, time and index that are returned, and the checkpoint over the tree size and
  -- the root of the inclusion proof, which holds; the checkpoint's origin is allowed for the key; and
  -- the time is in the windows of the key and of the certificate.
  pub verify_tlog_entry-IsVerified :
      (bundle : Bundle) (store : TrustStore) (origins : CheckpointOriginPolicy)
      (t : VerifiedTimestamp)
      → verify_tlog_entry crates ecdsa from_der reader body_of bundle store origins ≡ ok t
      → IsVerified bundle store origins t
  unfolding verify_tlog_entry
  verify_tlog_entry-IsVerified bundle store origins t e =
      let material = bundle.verification_material in
      passed (sole_entry material.tlog_entries) _ e (λ entry sole e.
        passed (parse_tlog_entry_body crates reader body_of entry.canonicalized_body) _ e
          (λ body parsed e.
            passed
              (check_entry_binding crates entry body bundle.dsse_envelope
                material.certificate.raw_bytes)
              _ e
              (λ u bound e.
                passed (select_log_key crates ecdsa store entry.log_id_key_id) _ e
                  (λ (log, key) selected e.
                    passed
                      (verify_set crates ecdsa entry (checkpoint_log_key_id crates.digest log) key)
                      _ e
                      (λ u promised e. passed (ok_or entry.inclusion_proof _) _ e (λ proof there e.
                        passed (verify_inclusion_proof crates.digest entry.canonicalized_body proof)
                          _ e
                          (λ u included e.
                            passed
                              (verify_checkpoint crates ecdsa proof.checkpoint.envelope
                                proof.tree_size proof.root_hash log key)
                              _ e
                              (λ c noted e.
                                refused_not
                                  (not (
                                    allows_bindings origins.bindings
                                      (checkpoint_log_key_id crates.digest log) c.origin))
                                  _ _ e
                                  (λ allowed e.
                                    passed (from_certificate ecdsa from_der material.certificate) _
                                      e
                                      (λ leaf decoded e.
                                        passed
                                          (check_time_window entry.integrated_time
                                            log.public_key.valid_for leaf.not_before leaf.not_after)
                                          _ e
                                          (λ u in_time e.
                                            let (noted_c, size, root, hint, hinted, signed) =
                                              (verify_checkpoint_iff crates ecdsa
                                                  proof.checkpoint.envelope proof.tree_size
                                                  proof.root_hash log key c).0
                                                noted in
                                            let (fits, in_log, from, to) =
                                              (check_time_window_iff entry.integrated_time
                                                  log.public_key.valid_for leaf.not_before
                                                  leaf.not_after).0
                                                in_time in
                                            (
                                              entry,
                                              body,
                                              log,
                                              key,
                                              proof,
                                              c,
                                              hint,
                                              leaf,
                                              sole_entry_sound _ sole,
                                              parsed,
                                              (check_entry_binding_iff crates entry body
                                                    bundle.dsse_envelope
                                                    material.certificate.raw_bytes).0
                                                  bound,
                                              select_log_key_sound crates ecdsa store
                                                  entry.log_id_key_id log key selected,
                                              verify_set_sound crates ecdsa entry
                                                  (checkpoint_log_key_id crates.digest log) key
                                                  promised,
                                              ok_or-eq-ok _ _ there,
                                              included,
                                              parse_checkpoint-IsCheckpoint crates
                                                  proof.checkpoint.envelope c noted_c,
                                              size,
                                              root,
                                              hinted,
                                              signed,
                                              unnegated _ allowed,
                                              decoded,
                                              fits,
                                              in_log,
                                              from,
                                              to,
                                              sym (ok_inj e),
                                            ))))))))))))
