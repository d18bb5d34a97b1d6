-- ===== src/Policy/Origins.antt =====
-- What a checkpoint-origin policy allows, and what the builder keeps.
pub mod Refines
use attestation_verify.Prelude.{
  ◌≡◌, ◌↔◌, ◌⊎◌, inl, inr, refl, sym, ap, ap₂, ◌∙◌, subst, Bool, true, false, ◌||◌, ◌&&◌, List, [],
  ◌∷◌, ◌++◌, any, keep, is_empty, All, All-append, ok, passed, refused_not, ok_inj, Bool-cases,
  or_false, and_true, true_and, false≢true,
}
use attestation_verify.Prelude.Text.{Bytes, Text, str_eq, contains}
use attestation_verify.Prelude.Text.Laws.{str_eq→eq, eq→str_eq}
use attestation_verify.Trust.{TransparencyLog}
use attestation_verify.Policy.{
  CheckpointOriginBinding, CheckpointOriginPolicyBuilder, validate_checkpoint_origin, origin_among,
  allows_bindings, add_origin, insert_origin, allow_origin, allow_origins, checkpoint_log_key_id,
}

-- What an origin must be: not empty, and one line.
abbrev pub IsOrigin : Text → Type 0
IsOrigin o = (is_empty o ≡ false) × (contains o b'\r' ≡ false) × (contains o b'\n' ≡ false)

-- An origin is validated exactly when it is not empty and has no CR or LF, and is not changed.
pub validate_checkpoint_origin_iff :
    (o r : Text) → (validate_checkpoint_origin o ≡ ok r) ↔ ((r ≡ o) × IsOrigin o)
unfolding validate_checkpoint_origin
validate_checkpoint_origin_iff o r = (
  (λ e. refused_not (is_empty o) _ _ e (λ filled e.
      refused_not (contains o b'\r' || contains o b'\n') _ _ e
        (λ single e. let (cr, lf) = or_false _ _ single in (sym (ok_inj e), (filled, cr, lf))))),
  λ (e, (filled, cr, lf)). rw filled (rw cr (rw lf (ap ok (sym e)))),
)

any-append : (p : Text → Bool) (xs ys : List Text) → any p (xs ++ ys) ≡ (any p xs || any p ys)
unfolding any
any-append p [] ys = refl
any-append p (x ∷ xs) ys = elim (Bool-cases (p x)) [
  | inl here ↦ rw (here, any) refl
  | inr away ↦ rw (away, any) (any-append p xs ys)
]

any_one : (p : Text → Bool) (x : Text) → any p (x ∷ []) ≡ p x
unfolding any
any_one p x = elim (Bool-cases (p x)) [
  | inl here ↦ rw (here, any) refl
  | inr away ↦ rw (away, any) refl
]

or_false_right : (a : Bool) → a ≡ (a || false)
or_false_right true = refl
or_false_right false = refl

-- An origin pushed unless it is there is allowed with the others.
origin_among-add_origin :
    (b : CheckpointOriginBinding) (o asked : Text)
    → origin_among (add_origin b o).origins asked ≡ (origin_among b.origins asked || str_eq o asked)
origin_among-add_origin b o asked = elim (Bool-cases (origin_among b.origins o)) [
  | inl there ↦ rw there (elim (Bool-cases (str_eq o asked)) [
    | inl same ↦
        let asked_there : origin_among b.origins asked ≡ true =
          subst (λ (t : Text). origin_among b.origins t ≡ true) (str_eq→eq o asked same) there in
        rw asked_there refl
    | inr other ↦ rw other (or_false_right (origin_among b.origins asked))
  ])
  | inr missing ↦ rw missing (
      any-append (λ (allowed : Text). str_eq allowed asked) b.origins (o ∷ [])
      ∙ ap (λ (t : Bool). origin_among b.origins asked || t)
          (any_one (λ (allowed : Text). str_eq allowed asked) o))
]

allows-cons :
    (b : CheckpointOriginBinding) (bs : List CheckpointOriginBinding) (key : Bytes) (o : Text)
    → allows_bindings (b ∷ bs) key o
      ≡ ((str_eq b.key_id key && origin_among b.origins o) || allows_bindings bs key o)
unfolding allows_bindings
allows-cons b bs key o = elim (Bool-cases (str_eq b.key_id key)) [
  | inl same ↦
      rw (same, keep)
        (elim (Bool-cases (origin_among b.origins o)) [
          | inl here ↦ rw (here, any) refl
          | inr away ↦ rw (away, any) refl
        ])
  | inr other ↦ rw (other, keep) refl
]

allows_none : (key : Bytes) (o : Text) → allows_bindings [] key o ≡ false
unfolding allows_bindings
allows_none key o = refl

rearrange : (k a x rest : Bool) → ((k && (a || x)) || rest) ≡ (((k && a) || rest) || (k && x))
rearrange true true x rest = refl
rearrange true false true true = refl
rearrange true false true false = refl
rearrange true false false true = refl
rearrange true false false false = refl
rearrange false a x true = refl
rearrange false a x false = refl

assoc : (a b c : Bool) → (a || (b || c)) ≡ ((a || b) || c)
assoc true b c = refl
assoc false b c = refl

allows-insert_origin :
    (bs : List CheckpointOriginBinding) (key asked_key : Bytes) (o asked : Text)
    → allows_bindings (insert_origin bs key o) asked_key asked
      ≡ (allows_bindings bs asked_key asked || (str_eq key asked_key && str_eq o asked))
unfolding insert_origin
allows-insert_origin [] key asked_key o asked =
    allows-cons (record { key_id = key; origins = o ∷ [] }) [] asked_key asked
    ∙ ap₂ (λ (t u : Bool). (str_eq key asked_key && t) || u)
        (any_one (λ (allowed : Text). str_eq allowed asked) o) (allows_none asked_key asked)
    ∙ sym (or_false_right (str_eq key asked_key && str_eq o asked))
    ∙ ap (λ (t : Bool). t || (str_eq key asked_key && str_eq o asked))
        (sym (allows_none asked_key asked))
allows-insert_origin (b ∷ bs) key asked_key o asked = elim (Bool-cases (str_eq b.key_id key)) [
  | inl same ↦
      rw (same, insert_origin)
        (allows-cons (add_origin b o) bs asked_key asked
          ∙ ap
              (λ (t : Bool). (str_eq b.key_id asked_key && t) || allows_bindings bs asked_key asked)
              (origin_among-add_origin b o asked)
          ∙ rearrange (str_eq b.key_id asked_key) (origin_among b.origins asked) (str_eq o asked) _
          ∙ ap₂ (λ (t : Bool) (k : Bytes). t || (str_eq k asked_key && str_eq o asked))
              (sym (allows-cons b bs asked_key asked)) (str_eq→eq b.key_id key same))
  | inr other ↦
      rw (other, insert_origin)
        (allows-cons b (insert_origin bs key o) asked_key asked
          ∙ ap (λ (t : Bool). (str_eq b.key_id asked_key && origin_among b.origins asked) || t)
              (allows-insert_origin bs key asked_key o asked)
          ∙ assoc (str_eq b.key_id asked_key && origin_among b.origins asked) _ _
          ∙ ap (λ (t : Bool). t || (str_eq key asked_key && str_eq o asked))
              (sym (allows-cons b bs asked_key asked)))
]

or_true : (a b : Bool) → ((a || b) ≡ true) ↔ ((a ≡ true) ⊎ (b ≡ true))
or_true true b = (λ h. inl refl, λ h. refl)
or_true false b = (λ h. inr h, λ h. elim h [ inl f ↦ absurd (false≢true f) | inr t ↦ t ])

module _ (digest : Bytes → Bytes) where
  -- After a successful `allow_origin` the builder allows what it allowed before, and the new origin
  -- under the log's key, and nothing else.
  pub allow_origin-allows :
      (b b' : CheckpointOriginPolicyBuilder) (log : TransparencyLog) (origin : Text)
      → allow_origin digest b log origin ≡ ok b'
      → (key : Bytes) (asked : Text)
      → (allows_bindings b'.bindings key asked ≡ true) ↔ (
          (allows_bindings b.bindings key asked ≡ true)
          ⊎ ((checkpoint_log_key_id digest log ≡ key) × (origin ≡ asked)))
  unfolding allow_origin
  allow_origin-allows b b' log origin e key asked =
      passed (validate_checkpoint_origin origin) _ e (λ o valid e.
        let o_is = ((validate_checkpoint_origin_iff origin o).0 valid).0 in
        let id = checkpoint_log_key_id digest log in
        let allowed =
          ap (λ (t : CheckpointOriginPolicyBuilder). allows_bindings t.bindings key asked)
            (sym (ok_inj e))
          ∙ allows-insert_origin b.bindings id key o asked in
        let either =
          or_true (allows_bindings b.bindings key asked) (str_eq id key && str_eq o asked) in
        (
          (λ h. elim (either.0 (sym allowed ∙ h)) [
            | inl old ↦ inl old
            | inr new ↦
                let (k, t) = and_true _ _ new in
                inr (str_eq→eq id key k, sym o_is ∙ str_eq→eq o asked t)
          ]),
          λ h.
              allowed
              ∙ either.1 (elim h [
                | inl old ↦ inl old
                | inr (k, t) ↦ inr (true_and (eq→str_eq id key k) (eq→str_eq o asked (o_is ∙ t)))
              ]),
        ))

is_empty-append : (os : List Text) (o : Text) → is_empty (os ++ o ∷ []) ≡ false
is_empty-append [] o = refl
is_empty-append (x ∷ os) o = refl

-- Every origin of every binding is valid, and no binding is without one.
abbrev pub IsBinding : CheckpointOriginBinding → Type 0
IsBinding b = (is_empty b.origins ≡ false) × All IsOrigin b.origins

add_origin-IsBinding :
    (b : CheckpointOriginBinding) (o : Text) → IsOrigin o → IsBinding b → IsBinding (add_origin b o)
add_origin-IsBinding b o valid (filled, origins) = elim (Bool-cases (origin_among b.origins o)) [
  | inl there ↦ rw there (filled, origins)
  | inr missing ↦
      rw missing
        (is_empty-append b.origins o, All-append IsOrigin b.origins (o ∷ []) origins (valid, tt))
]

insert_origin-IsBinding :
    (bs : List CheckpointOriginBinding) (key : Bytes) (o : Text)
    → IsOrigin o
    → All IsBinding bs
    → All IsBinding (insert_origin bs key o)
unfolding insert_origin
insert_origin-IsBinding [] key o valid h = ((refl, (valid, tt)), tt)
insert_origin-IsBinding (b ∷ bs) key o valid (first, rest) =
    elim (Bool-cases (str_eq b.key_id key)) [
      | inl same ↦ rw (same, insert_origin) (add_origin-IsBinding b o valid first, rest)
      | inr other ↦ rw (other, insert_origin) (first, insert_origin-IsBinding bs key o valid rest)
    ]

module _ (digest : Bytes → Bytes) where
  allow_origin-IsBinding :
      (b b' : CheckpointOriginPolicyBuilder) (log : TransparencyLog) (origin : Text)
      → All IsBinding b.bindings
      → allow_origin digest b log origin ≡ ok b'
      → All IsBinding b'.bindings
  unfolding allow_origin
  allow_origin-IsBinding b b' log origin h e =
      passed (validate_checkpoint_origin origin) _ e (λ o valid e.
        let (o_is, is_origin) = (validate_checkpoint_origin_iff origin o).0 valid in
        subst (λ (t : CheckpointOriginPolicyBuilder). All IsBinding t.bindings) (ok_inj e)
          (insert_origin-IsBinding b.bindings (checkpoint_log_key_id digest log) o
            (subst IsOrigin (sym o_is) is_origin) h))

  -- Any run of `allow_origins` keeps the builder well formed: every binding has an origin, and every
  -- origin is a nonempty line.
  pub allow_origins-IsBinding :
      (origins : List Text) (b b' : CheckpointOriginPolicyBuilder) (log : TransparencyLog)
      → All IsBinding b.bindings
      → allow_origins digest b log origins ≡ ok b'
      → All IsBinding b'.bindings
  unfolding allow_origins
  allow_origins-IsBinding [] b b' log h e =
      subst (λ (t : CheckpointOriginPolicyBuilder). All IsBinding t.bindings) (ok_inj e) h
  allow_origins-IsBinding (o ∷ origins) b b' log h e =
      passed (allow_origin digest b log o) _ e (λ b1 first e.
        allow_origins-IsBinding origins b1 b' log (allow_origin-IsBinding b b1 log o h first) e)
