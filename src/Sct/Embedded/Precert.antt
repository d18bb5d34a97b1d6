-- ===== src/Sct/Embedded/Precert.antt =====
-- What the precertificate is of the certificate that it was made from.
use attestation_verify.Prelude.{
  Option-cases, inl, inr, unnegated, ◌≡◌, refl, sym, ap, ◌∙◌, subst, true, not, some, some_inj,
  List, [], ◌∷◌, ◌++◌, keep, ok, ok_inj, ok_or, ok_or-eq-ok, map_err-eq-ok, passed, refused_not,
}
use attestation_verify.Prelude.Text.{Bytes}
use attestation_verify.Crates.{Extension, Tag, AnyRef, DerCodec}
use attestation_verify.Sct.Embedded.{
  extensions_context_tag, is_extensions_tag, pop, invalid_der_of, is_other, precert_tbs_der,
}

-- DER is read back as it was written, and `AnyRef::new` makes a field of what it is given.
pub record IsFaithful (codec : DerCodec) : Type 0 where
  pub fields_back :
      (fs : List AnyRef) (out : Bytes)
      → codec.fields_to_der fs ≡ ok out
      → codec.fields_from_der out ≡ ok fs
  pub extensions_back :
      (es : List Extension) (out : Bytes)
      → codec.extensions_to_der es ≡ ok out
      → codec.extensions_from_der out ≡ ok es
  pub any_ref_made :
      (tag : Tag) (value : Bytes) (a : AnyRef)
      → codec.any_ref_new tag value ≡ ok a
      → a ≡ record { tag = tag; value = value }

pop_sound {ℓ} :
    {A : Type ℓ} (xs front : List A) (last : A)
    → pop xs ≡ some (front, last)
    → xs ≡ front ++ last ∷ []
unfolding pop
pop_sound [] front last e = absurd (cc e)
pop_sound (x ∷ []) front last e = cc (some_inj e)
pop_sound {A} (x ∷ y ∷ rest) front last e = elim (Option-cases (pop (y ∷ rest))) [
  | inl nothing ↦ absurd (cc (rw (nothing, pop) at e))
  | inr ((init, end), popped) ↦
      let same : ◌≡◌ {A = List A × A} (x ∷ init, end) (front, last) =
        some_inj (rw (popped, pop) at e) in
      ap (λ (t : List A). x ∷ t) (pop_sound (y ∷ rest) init end popped)
      ∙ ap (λ (t : List A × A). t.0 ++ t.1 ∷ []) same
]

pop-append {ℓ} :
    {A : Type ℓ} (front : List A) (last : A) → pop (front ++ last ∷ []) ≡ some (front, last)
unfolding pop
pop-append [] last = refl
pop-append (x ∷ []) last = refl
pop-append (x ∷ y ∷ front) last = rw (pop-append (y ∷ front) last) refl

append_last_inj {ℓ} :
    {A : Type ℓ} (xs ys : List A) (x y : A) → xs ++ x ∷ [] ≡ ys ++ y ∷ [] → (xs ≡ ys) × (x ≡ y)
append_last_inj {A} xs ys x y e =
    let same : ◌≡◌ {A = List A × A} (xs, x) (ys, y) =
      some_inj (sym (pop-append xs x) ∙ ap pop e ∙ pop-append ys y) in
    (ap (λ (t : List A × A). t.0) same, ap (λ (t : List A × A). t.1) same)

module _ (codec : DerCodec) where
  -- The certificate's last field holds its extensions, and the precertificate has the same fields in
  -- front of one that holds those that are no SCT list.
  abbrev pub IsPrecert : List AnyRef → List Extension → Bytes → Bytes → Type 0
  IsPrecert front extensions tbs out =
      (old : AnyRef) × (new : AnyRef) × (codec.fields_from_der tbs ≡ ok (front ++ old ∷ []))
      × (is_extensions_tag old.tag ≡ true)
      × (codec.extensions_from_der old.value ≡ ok extensions)
      × (codec.fields_from_der out ≡ ok (front ++ new ∷ []))
      × (new.tag ≡ extensions_context_tag)
      × (codec.extensions_from_der new.value ≡ ok (keep is_other extensions))

  same_out :
      (front front' : List AnyRef) (es es' : List Extension) (tbs tbs' out : Bytes)
      → IsPrecert front es tbs out
      → IsPrecert front' es' tbs' out
      → (f : List AnyRef) × (xs : List Extension) × (xs' : List Extension) × IsPrecert f xs tbs out
        × IsPrecert f xs' tbs' out
        × (keep is_other xs ≡ keep is_other xs')
  same_out front front' es es' tbs tbs' out h h' =
      let (old, new, decoded, tagged, read, made, new_tagged, kept) = h in
      let (old', new', decoded', tagged', read', made', new_tagged', kept') = h' in
      let (fronts, fields) = append_last_inj front front' new new' (ok_inj (sym made ∙ made')) in
      (
        front,
        es,
        es',
        h,
        subst (λ f. IsPrecert f es' tbs' out) (sym fronts) h',
        ok_inj (sym kept ∙ ap (λ (t : AnyRef). codec.extensions_from_der t.value) fields ∙ kept'),
      )

  module _ (faithful : IsFaithful codec) where
    -- Where DER is read back as it was written, the precertificate has the fields of the certificate,
    -- in their order, and in the last field all extensions but the SCT lists, in their order.
    pub precert_tbs_der-IsPrecert :
        (tbs out : Bytes)
        → precert_tbs_der codec tbs ≡ ok out
        → (front : List AnyRef) × (extensions : List Extension) × IsPrecert front extensions tbs out
    unfolding precert_tbs_der
    precert_tbs_der-IsPrecert tbs out e =
        passed (invalid_der_of (codec.fields_from_der tbs)) _ e (λ fields decoded e.
          passed (ok_or (pop fields) _) _ e (λ (front, old) popped e.
            refused_not (not (is_extensions_tag old.tag)) _ _ e (λ tagged e.
              passed (invalid_der_of (codec.extensions_from_der old.value)) _ e (λ es read e.
                passed (invalid_der_of (codec.extensions_to_der (keep is_other es))) _ e
                  (λ der written e.
                    passed (invalid_der_of (codec.any_ref_new extensions_context_tag der)) _ e
                      (λ new made e.
                        let a =
                          faithful.any_ref_made extensions_context_tag der new
                            (map_err-eq-ok (codec.any_ref_new extensions_context_tag der) _ made) in
                        (
                          front,
                          es,
                          (
                            old,
                            new,
                            map_err-eq-ok (codec.fields_from_der tbs) _ decoded
                                ∙ ap ok (
                                    pop_sound fields front old (ok_or-eq-ok (pop fields) _ popped)),
                            unnegated _ tagged,
                            map_err-eq-ok (codec.extensions_from_der old.value) _ read,
                            faithful.fields_back (front ++ new ∷ []) out
                                (map_err-eq-ok (codec.fields_to_der (front ++ new ∷ [])) _ e),
                            ap (λ (t : AnyRef). t.tag) a,
                            ap (λ (t : AnyRef). codec.extensions_from_der t.value) a
                                ∙ faithful.extensions_back (keep is_other es) der (
                                    map_err-eq-ok (codec.extensions_to_der (keep is_other es)) _
                                      written),
                          ),
                        )))))))

    -- Where two certificates have the same precertificate, they have the same fields in front of the
    -- extensions, and the same extensions but for the SCT lists: an SCT is for all of them.
    pub precert_tbs_der_inj :
        (tbs tbs' out : Bytes)
        → precert_tbs_der codec tbs ≡ ok out
        → precert_tbs_der codec tbs' ≡ ok out
        → (front : List AnyRef) × (extensions : List Extension) × (extensions' : List Extension)
          × IsPrecert front extensions tbs out
          × IsPrecert front extensions' tbs' out
          × (keep is_other extensions ≡ keep is_other extensions')
    precert_tbs_der_inj tbs tbs' out e e' =
        let (front, es, h) = precert_tbs_der-IsPrecert tbs out e in
        let (front', es', h') = precert_tbs_der-IsPrecert tbs' out e' in
        same_out front front' es es' tbs tbs' out h h'
