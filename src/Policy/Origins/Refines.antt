-- ===== src/Policy/Origins/Refines.antt =====
-- The checkpoint-origin builder of src/policy.rs as a state machine, against the set of the grants that
-- were made of it.
use attestation_verify.Prelude.{
  ◌≡◌, ◌↔◌, ◌⊎◌, inl, inr, refl, sym, ap, ap₂, ◌∙◌, Bool, true, ◌&&◌, ◌||◌, List, [], ◌∷◌, ◌++◌, ok,
  ok_inj, passed, refused_not, traverse, any, is_empty, Bool-cases, and_true, true_and,
}
use attestation_verify.Prelude.Text.{Bytes, Text, str_eq}
use attestation_verify.Prelude.Text.Laws.{str_eq→eq, eq→str_eq}
use attestation_verify.Trust.{TransparencyLog}
use attestation_verify.Policy.{
  CheckpointOriginBinding, CheckpointOriginPolicyBuilder, checkpoint_log_key_id,
  validate_checkpoint_origin, validate_checkpoint_origins, new_binding, add_binding, allow_origin,
  allows_bindings, origin_among,
}
use attestation_verify.Policy.Origins.{
  validate_checkpoint_origin_iff, allow_origin-allows, allows-cons, allows_none, or_true,
  or_false_right, assoc,
}

-- A grant is a log with an origin; the last one is first.
abbrev pub Grants : Type 0
Grants = List (TransparencyLog × Text)

abbrev pub grant_all : TransparencyLog → List Text → Grants → Grants
grant_all log [] h = h
grant_all log (o ∷ origins) h = (log, o) ∷ grant_all log origins h

abbrev new_binding_of : Bytes → List Text → CheckpointOriginBinding
new_binding_of key_id origins = record { key_id = key_id; origins = origins }

among-cons :
    (o : Text) (origins : List Text) (asked : Text)
    → origin_among (o ∷ origins) asked ≡ (str_eq o asked || origin_among origins asked)
unfolding any
among-cons o origins asked = elim (Bool-cases (str_eq o asked)) [
  | inl here ↦ rw (here, any) refl
  | inr away ↦ rw (away, any) refl
]

-- A binding that is pushed at the end adds what it allows.
allows-append :
    (bs : List CheckpointOriginBinding) (b : CheckpointOriginBinding) (key : Bytes) (asked : Text)
    → allows_bindings (bs ++ b ∷ []) key asked
      ≡ (allows_bindings bs key asked || (str_eq b.key_id key && origin_among b.origins asked))
allows-append [] b key asked =
    allows-cons b [] key asked
    ∙ ap (λ (t : Bool). (str_eq b.key_id key && origin_among b.origins asked) || t)
        (allows_none key asked)
    ∙ sym (or_false_right (str_eq b.key_id key && origin_among b.origins asked))
    ∙ ap (λ (t : Bool). t || (str_eq b.key_id key && origin_among b.origins asked))
        (sym (allows_none key asked))
allows-append (a ∷ bs) b key asked =
    allows-cons a (bs ++ b ∷ []) key asked
    ∙ ap (λ (t : Bool). (str_eq a.key_id key && origin_among a.origins asked) || t)
        (allows-append bs b key asked)
    ∙ assoc (str_eq a.key_id key && origin_among a.origins asked) (allows_bindings bs key asked)
        (str_eq b.key_id key && origin_among b.origins asked)
    ∙ ap (λ (t : Bool). t || (str_eq b.key_id key && origin_among b.origins asked))
        (sym (allows-cons a bs key asked))

validated :
    (origins : List Text) {r : List Text}
    → traverse validate_checkpoint_origin origins ≡ ok r
    → r ≡ origins
unfolding traverse
validated [] e = sym (ok_inj e)
validated (o ∷ origins) e = passed (validate_checkpoint_origin o) _ e (λ o' valid e.
    passed (traverse validate_checkpoint_origin origins) _ e (λ os rest e.
      sym (ok_inj e)
      ∙ ap₂ (λ (x : Text) (xs : List Text). x ∷ xs)
          ((validate_checkpoint_origin_iff o o').0 valid).0 (validated origins rest)))

module _ (digest : Bytes → Bytes) where
  -- The builders that can be reached, with the grants made on the way: each step is one call.
  pub data Built : Grants → CheckpointOriginPolicyBuilder → Type 0 where
    fresh : Built [] (record { bindings = [] })
    granted :
        {h : Grants} {b b' : CheckpointOriginPolicyBuilder} (log : TransparencyLog) (origin : Text)
        → Built h b
        → allow_origin digest b log origin ≡ ok b'
        → Built ((log, origin) ∷ h) b'
    bound :
        {h : Grants} {b : CheckpointOriginPolicyBuilder} (log : TransparencyLog)
        (origins : List Text) (binding : CheckpointOriginBinding)
        → Built h b
        → new_binding digest log origins ≡ ok binding
        → Built (grant_all log origins h) (add_binding b binding)

  -- The set of grants: the key of the log and the origin are among them.
  abbrev pub IsGranted : Bytes → Text → Grants → Type 0
  IsGranted key asked [] = ⊥
  IsGranted key asked ((log, origin) ∷ h) =
      ((checkpoint_log_key_id digest log ≡ key) × (origin ≡ asked)) ⊎ IsGranted key asked h

  IsGranted-grant_all :
      (log : TransparencyLog) (origins : List Text) (h : Grants) (key : Bytes) (asked : Text)
      → IsGranted key asked (grant_all log origins h) ↔ (
          ((checkpoint_log_key_id digest log ≡ key) × (origin_among origins asked ≡ true))
          ⊎ IsGranted key asked h)
  unfolding any
  IsGranted-grant_all log [] h key asked =
      (λ g. inr g, λ e. elim e [ inl (_, f) ↦ absurd (cc f) | inr g ↦ g ])
  IsGranted-grant_all log (o ∷ origins) h key asked =
      let ih = IsGranted-grant_all log origins h key asked in
      let either = or_true (str_eq o asked) (origin_among origins asked) in
      let cons = among-cons o origins asked in
      (
        (λ g. elim g [
          | inl (k, t) ↦ inl (k, cons ∙ either.1 (inl (eq→str_eq o asked t)))
          | inr later ↦ elim (ih.0 later) [
            | inl (k, t) ↦ inl (k, cons ∙ either.1 (inr t))
            | inr old ↦ inr old
          ]
        ]),
        λ e. elim e [
          | inl (k, t) ↦ elim (either.0 (sym cons ∙ t)) [
            | inl here ↦ inl (k, str_eq→eq o asked here)
            | inr later ↦ inr (ih.1 (inl (k, later)))
          ]
          | inr old ↦ inr (ih.1 (inr old))
        ],
      )

  new_binding_sound :
      (log : TransparencyLog) (origins : List Text) (binding : CheckpointOriginBinding)
      → new_binding digest log origins ≡ ok binding
      → binding ≡ record { key_id = checkpoint_log_key_id digest log; origins = origins }
  unfolding validate_checkpoint_origins
  new_binding_sound log origins binding e =
      passed (validate_checkpoint_origins origins) _ e (λ r valid e.
        passed (traverse validate_checkpoint_origin origins) _ valid (λ os each filled.
          refused_not (is_empty os) _ _ filled (λ some_origin same.
            sym (ok_inj e)
            ∙ ap (λ (t : List Text). new_binding_of (checkpoint_log_key_id digest log) t)
                (sym (ok_inj same) ∙ validated origins each))))

  -- A builder that any sequence of `binding` and `allow_origin` calls makes allows an origin under a key
  -- exactly when one of these calls granted it for a log with that key: neither the order of the calls
  -- nor how the bindings are split up matters.
  pub allows-IsGranted :
      {h : Grants} {b : CheckpointOriginPolicyBuilder}
      → Built h b
      → (key : Bytes) (asked : Text)
      → (allows_bindings b.bindings key asked ≡ true) ↔ IsGranted key asked h
  allows-IsGranted fresh key asked = (λ e. absurd (cc (e, allows_none key asked)), λ f. absurd f)
  allows-IsGranted (granted {h} {b} {b'} log origin before e) key asked =
      let ih = allows-IsGranted before key asked in
      let step = allow_origin-allows digest b b' log origin e key asked in
      (
        (λ t. elim (step.0 t) [ inl old ↦ inr (ih.0 old) | inr new ↦ inl new ]),
        λ g. step.1 (elim g [ inl new ↦ inr new | inr old ↦ inl (ih.1 old) ]),
      )
  allows-IsGranted (bound {h} {b} log origins binding before e) key asked =
      let ih = allows-IsGranted before key asked in
      let all = IsGranted-grant_all log origins h key asked in
      let id = checkpoint_log_key_id digest log in
      let made = new_binding_sound log origins binding e in
      let pushed =
        allows-append b.bindings binding key asked
        ∙ ap
            (λ (t : CheckpointOriginBinding).
              allows_bindings b.bindings key asked
              || (str_eq t.key_id key && origin_among t.origins asked))
            made in
      let either =
        or_true (allows_bindings b.bindings key asked)
          (str_eq id key && origin_among origins asked) in
      (
        (λ t. elim (either.0 (sym pushed ∙ t)) [
          | inl old ↦ all.1 (inr (ih.0 old))
          | inr new ↦ let (k, o) = and_true _ _ new in all.1 (inl (str_eq→eq id key k, o))
        ]),
        λ g.
            pushed
            ∙ either.1 (elim (all.0 g) [
              | inl (k, o) ↦ inr (true_and (eq→str_eq id key k) o)
              | inr old ↦ inl (ih.1 old)
            ]),
      )
