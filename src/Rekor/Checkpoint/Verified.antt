-- ===== src/Rekor/Checkpoint/Verified.antt =====
-- What `verify_checkpoint` accepts: the order in which it tries the signatures does not count.
use attestation_verify.Prelude.{
  unnegated, ℕ, ◌≡◌, ◌↔◌, refl, sym, ap, ◌∙◌, Bool, true, false, ◌&&◌, ◌||◌, not, some, List, [],
  ◌∷◌, any, any_cons, any_iff, keep, Exists, Result, ok, err, ok_or, ok_or-eq-ok, passed,
  refused_not, ok_inj, subst, Bool-cases, inl, inr, ◌==◌, ==_iff, and_true, true_and, if◌then◌else◌,
}
use attestation_verify.Prelude.Text.{Bytes, Text, str_eq}
use attestation_verify.Prelude.Text.Laws.{str_eq→eq, eq→str_eq}
use attestation_verify.Errors.{Error}
use attestation_verify.Crates.{Crates}
use attestation_verify.Trust.{TransparencyLog}
use attestation_verify.Dsse.{Ecdsa, EcdsaVerifyingKey, verify_der}
use attestation_verify.Rekor.Checkpoint.{
  CheckpointSignature, ParsedCheckpoint, parse_checkpoint, checkpoint_key_hint,
  checkpoint_key_name_matches, has_hint, any_verifies, verify_checkpoint,
}

module _ {ℓ} {A : Type ℓ} (h n v : A → Bool) where
  assoc_or : (a b c : Bool) → ((a || b) || c) ≡ (a || (b || c))
  assoc_or true b c = refl
  assoc_or false b c = refl

  swap_or : (a b c : Bool) → (a || (b || c)) ≡ (b || (a || c))
  swap_or true true c = refl
  swap_or true false c = refl
  swap_or false b c = refl

  none_found : (any v [] || any v []) ≡ any (λ (x : A). h x && v x) []
  unfolding any
  none_found = refl

  -- Two passes over the candidates find what one pass finds.
  two_passes :
      (xs : List A)
      → (any v (keep n (keep h xs)) || any v (keep (λ (x : A). not (n x)) (keep h xs)))
        ≡ any (λ (x : A). h x && v x) xs
  unfolding keep
  two_passes [] = none_found
  two_passes (x ∷ xs) = elim (Bool-cases (h x)) [
    | inl hinted ↦ elim (Bool-cases (n x)) [
      | inl named ↦
          rw (hinted, keep)
            (rw (named, keep)
              (ap (λ (b : Bool). b || any v (keep (λ (x : A). not (n x)) (keep h xs)))
                  (any_cons v x (keep n (keep h xs)))
                ∙ assoc_or (v x) _ _
                ∙ ap (λ (b : Bool). v x || b) (two_passes xs)
                ∙ sym (
                    any_cons (λ (x : A). h x && v x) x xs
                    ∙ ap (λ (b : Bool). (b && v x) || any (λ (x : A). h x && v x) xs) hinted)))
      | inr other ↦
          rw (hinted, keep)
            (rw (other, keep)
              (ap (λ (b : Bool). any v (keep n (keep h xs)) || b)
                  (any_cons v x (keep (λ (x : A). not (n x)) (keep h xs)))
                ∙ swap_or (any v (keep n (keep h xs))) (v x) _
                ∙ ap (λ (b : Bool). v x || b) (two_passes xs)
                ∙ sym (
                    any_cons (λ (x : A). h x && v x) x xs
                    ∙ ap (λ (b : Bool). (b && v x) || any (λ (x : A). h x && v x) xs) hinted)))
    ]
    | inr unhinted ↦
        rw (unhinted, keep)
          (two_passes xs
            ∙ sym (
                any_cons (λ (x : A). h x && v x) x xs
                ∙ ap (λ (b : Bool). (b && v x) || any (λ (x : A). h x && v x) xs) unhinted))
  ]

verdict {ℓ} :
    {A : Type 0} {C : Type ℓ} {a b : A} (test : Bool) (e : Error)
    → ◌≡◌ {A = Result A Error} (if test then ok a else err e) (ok b)
    → (test ≡ true → a ≡ b → C)
    → C
verdict true e h k = k refl (ok_inj h)
verdict false e h k = absurd (cc h)

module _ (crates : Crates) (ecdsa : Ecdsa) where
  -- A signature line with the log's hint that verifies over the note's body.
  abbrev pub IsSignedBy : ParsedCheckpoint → Bytes → EcdsaVerifyingKey ecdsa → Type 0
  IsSignedBy c hint key =
      Exists
        (λ (s : CheckpointSignature).
          (s.key_hint ≡ hint) × (verify_der ecdsa key c.note_body s.signature ≡ true))
        c.signatures

  any_verifies_iff :
      (c : ParsedCheckpoint) (hint : Bytes) (log : TransparencyLog) (key : EcdsaVerifyingKey ecdsa)
      → (any_verifies crates ecdsa c.signatures hint log key c.note_body ≡ true)
        ↔ IsSignedBy c hint key
  unfolding any_verifies
  any_verifies_iff c hint log key =
      let h = has_hint crates ecdsa hint in
      let v = λ (s : CheckpointSignature). verify_der ecdsa key c.note_body s.signature in
      let n = λ (s : CheckpointSignature). checkpoint_key_name_matches log s.name in
      let passes = two_passes h n v c.signatures in
      let one = any_iff (λ (s : CheckpointSignature). h s && v s) c.signatures in
      (
        (λ e.
            let (s, i, found, both) = one.0 (sym passes ∙ e) in
            let (hinted, verified) = and_true _ _ both in
            (s, i, found, (str_eq→eq s.key_hint hint hinted, verified))),
        λ (s, i, found, (hinted, verified)).
            passes ∙ one.1 (s, i, found, true_and (eq→str_eq s.key_hint hint hinted) verified),
      )

  -- A checkpoint is accepted exactly when it parses, has the proof's tree size and root hash, and
  -- one of its signatures with the log's key hint verifies over the note's body under the log's key.
  -- The names on the signature lines, and the order of the lines, make no difference.
  pub verify_checkpoint_iff :
      (envelope : Text) (tree_size : ℕ) (root_hash : Bytes) (log : TransparencyLog)
      (key : EcdsaVerifyingKey ecdsa) (c : ParsedCheckpoint)
      → (verify_checkpoint crates ecdsa envelope tree_size root_hash log key ≡ ok c) ↔ (
          (parse_checkpoint crates envelope ≡ ok c)
          × (c.tree_size ≡ tree_size)
          × (c.root_hash ≡ root_hash)
          × (hint : Bytes) × (checkpoint_key_hint crates log ≡ some hint)
          × IsSignedBy c hint key)
  unfolding verify_checkpoint
  verify_checkpoint_iff envelope tree_size root_hash log key c = (
    (λ e. passed (parse_checkpoint crates envelope) _ e (λ d parsed e.
        refused_not (not (d.tree_size == tree_size)) _ _ e (λ size e.
          refused_not (not (str_eq d.root_hash root_hash)) _ _ e (λ root e.
            passed (ok_or (checkpoint_key_hint crates log) _) _ e (λ hint hinted e.
              verdict _ _ e (λ signed same.
                subst
                  (λ (x : ParsedCheckpoint).
                    (parse_checkpoint crates envelope ≡ ok x)
                    × (x.tree_size ≡ tree_size)
                    × (x.root_hash ≡ root_hash)
                    × (hint : Bytes) × (checkpoint_key_hint crates log ≡ some hint)
                    × IsSignedBy x hint key)
                  same
                  (
                    parsed,
                    (==_iff d.tree_size tree_size).0 (unnegated _ size),
                    str_eq→eq _ _ (unnegated _ root),
                    hint,
                    ok_or-eq-ok _ _ hinted,
                    (any_verifies_iff d hint log key).0 signed,
                  ))))))),
    λ (parsed, size, root, hint, hinted, signed). rw parsed (
        rw ((==_iff c.tree_size tree_size).1 size) (
          rw (eq→str_eq _ _ root)
            (rw hinted (rw ((any_verifies_iff c hint log key).1 signed) refl)))),
  )
