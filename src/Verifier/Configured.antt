-- ===== src/Verifier/Configured.antt =====
-- Which configurations a verifier is built from.
use attestation_verify.Prelude.{
  unnegated, or_false, last_refused_not, ◌≡◌, ◌↔◌, refl, subst, true, false, not, is_some, any_iff,
  All, Exists, some, List, [], ◌∷◌, ok, ok_inj, ok_or, ok_or-eq-ok, passed, refused_not,
}
use attestation_verify.Prelude.Text.{Bytes, str_eq}
use attestation_verify.Trust.{TransparencyLog}
use attestation_verify.Policy.{CheckpointOriginBinding, SignerPolicy, reject_signer_id_pins}
use attestation_verify.Verifier.{Verifier, VerifierBuilder, known_key, check_bindings, build}

-- The repository of the signer pins no numeric ids.
abbrev pub HasNoPins : SignerPolicy → Type 0
HasNoPins s = (is_some s.repository.owner_id ≡ false) × (is_some s.repository.repository_id ≡ false)

reject_signer_id_pins-HasNoPins : (s : SignerPolicy) → reject_signer_id_pins s ≡ ok tt → HasNoPins s
unfolding reject_signer_id_pins
reject_signer_id_pins-HasNoPins s e = or_false _ _ (last_refused_not _ _ e)

HasNoPins-reject : (s : SignerPolicy) → HasNoPins s → reject_signer_id_pins s ≡ ok tt
unfolding reject_signer_id_pins
HasNoPins-reject s (no_owner, no_repo) = rw (no_owner, no_repo) refl

module _ (digest : Bytes → Bytes) where
  -- The binding's key is that of a log.
  abbrev pub IsKnown : List TransparencyLog → CheckpointOriginBinding → Type 0
  IsKnown tlogs binding =
      Exists
        (λ (log : TransparencyLog). str_eq (digest log.public_key.raw_bytes) binding.key_id ≡ true)
        tlogs

  check_bindings-IsKnown :
      (tlogs : List TransparencyLog) (bs : List CheckpointOriginBinding)
      → check_bindings digest tlogs bs ≡ ok tt
      → All (IsKnown tlogs) bs
  unfolding check_bindings
  check_bindings-IsKnown tlogs [] e = tt
  check_bindings-IsKnown tlogs (b ∷ bs) e =
      refused_not (not (known_key digest tlogs b)) _ _ e
        (λ known e. ((any_iff _ tlogs).0 (unnegated _ known), check_bindings-IsKnown tlogs bs e))

  IsKnown-check_bindings :
      (tlogs : List TransparencyLog) (bs : List CheckpointOriginBinding)
      → All (IsKnown tlogs) bs
      → check_bindings digest tlogs bs ≡ ok tt
  unfolding check_bindings
  IsKnown-check_bindings tlogs [] h = refl
  IsKnown-check_bindings tlogs (b ∷ bs) (known, rest) =
      let here : known_key digest tlogs b ≡ true = (any_iff _ tlogs).1 known in
      rw here (IsKnown-check_bindings tlogs bs rest)

  -- The verifier has what the builder was given, its signer pins no ids, and every key of its
  -- checkpoint-origin policy is that of a trusted log.
  abbrev pub IsConfigured : VerifierBuilder → Verifier → Type 0
  IsConfigured b v =
      (b.trust_store ≡ some v.trust_store)
      × (b.github_policy ≡ some v.github_policy)
      × (b.checkpoint_origin_policy ≡ some v.checkpoint_origin_policy)
      × HasNoPins v.github_policy.signer
      × All (IsKnown v.trust_store.tlogs) v.checkpoint_origin_policy.bindings

  build_sound : (b : VerifierBuilder) (v : Verifier) → build digest b ≡ ok v → IsConfigured b v
  unfolding build
  build_sound b v e = passed (ok_or b.trust_store _) _ e (λ store stored e.
      passed (ok_or b.github_policy _) _ e (λ github set e.
        passed (ok_or b.checkpoint_origin_policy _) _ e (λ origins allowed e.
          passed (reject_signer_id_pins github.signer) _ e (λ u unpinned e.
            passed (check_bindings digest store.tlogs origins.bindings) _ e (λ u known e.
              subst (IsConfigured b) (ok_inj e) (
                ok_or-eq-ok _ _ stored,
                ok_or-eq-ok _ _ set,
                ok_or-eq-ok _ _ allowed,
                reject_signer_id_pins-HasNoPins github.signer unpinned,
                check_bindings-IsKnown store.tlogs origins.bindings known,
              ))))))

  build_complete : (b : VerifierBuilder) (v : Verifier) → IsConfigured b v → build digest b ≡ ok v
  unfolding build
  build_complete b v (store, github, origins, unpinned, known) =
      rw
        (
          store,
          github,
          origins,
          HasNoPins-reject v.github_policy.signer unpinned,
          IsKnown-check_bindings v.trust_store.tlogs v.checkpoint_origin_policy.bindings known,
        )
        refl

  -- A verifier is built exactly when the trust store and both policies were given, the signer's
  -- repository pins no ids, and every key of the checkpoint-origin policy is that of a log of the
  -- trust store; and it has what was given.
  pub build_iff : (b : VerifierBuilder) (v : Verifier) → (build digest b ≡ ok v) ↔ IsConfigured b v
  build_iff b v = (build_sound b v, build_complete b v)
