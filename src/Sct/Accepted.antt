-- ===== src/Sct/Accepted.antt =====
-- When the list of SCTs is accepted, and with which error it is refused.
use attestation_verify.Prelude.{
  ℕ, zero, suc, ◌≡◌, ◌↔◌, refl, ap, ◌∙◌, List, [], ◌∷◌, get_elem?, Exists, Option, none, some, ok,
  Result-cases, inl, inr, some_inj, sym, All, err, err_inj,
}
use attestation_verify.Prelude.Text.{Bytes}
use attestation_verify.Errors.{Error, certificate, sct_invalid}
use attestation_verify.Trust.{TrustStore}
use attestation_verify.Dsse.{Ecdsa}
use attestation_verify.Sct.{ParsedSct, keep_first, verify_one_sct, verify_any_sct}

module _ (digest : Bytes → Bytes) (ecdsa : Ecdsa) (tbs issuer : Bytes) (store : TrustStore) where
  abbrev pub Verifies : ParsedSct → Type 0
  Verifies s = verify_one_sct digest ecdsa s tbs issuer store ≡ ok tt

  pub verify_any_sct-Verifies :
      (scts : List ParsedSct) (first : Option Error)
      → verify_any_sct digest ecdsa scts first tbs issuer store ≡ ok tt
      → Exists Verifies scts
  unfolding verify_any_sct
  verify_any_sct-Verifies [] first e = absurd (cc e)
  verify_any_sct-Verifies (s ∷ scts) first e =
      elim (Result-cases (verify_one_sct digest ecdsa s tbs issuer store)) [
        | inl (u, fine) ↦ (s, zero, refl, fine)
        | inr (bad, refused) ↦
            let (x, i, at, fine) =
              verify_any_sct-Verifies scts (keep_first first bad) (rw refused at e) in
            (x, suc i, at, fine)
      ]

  Verifies-verify_any_sct :
      (scts : List ParsedSct) (first : Option Error) (s : ParsedSct) (i : ℕ)
      → get_elem? scts i ≡ some s
      → Verifies s
      → verify_any_sct digest ecdsa scts first tbs issuer store ≡ ok tt
  unfolding verify_any_sct
  Verifies-verify_any_sct [] first s i at fine = absurd (cc at)
  Verifies-verify_any_sct (x ∷ scts) first s zero at fine =
      let here : verify_one_sct digest ecdsa x tbs issuer store ≡ ok tt =
        ap (λ (t : ParsedSct). verify_one_sct digest ecdsa t tbs issuer store) (some_inj at)
        ∙ fine in
      rw here refl
  Verifies-verify_any_sct (x ∷ scts) first s (suc i) at fine =
      elim (Result-cases (verify_one_sct digest ecdsa x tbs issuer store)) [
        | inl (u, accepted) ↦ rw accepted refl
        | inr (bad, refused) ↦
            rw refused (Verifies-verify_any_sct scts (keep_first first bad) s i at fine)
      ]

  abbrev pub IsRefused : ParsedSct → Type 0
  IsRefused s = (e : Error) × (verify_one_sct digest ecdsa s tbs issuer store ≡ err e)

  -- The error of a list that is refused: the first SCT's, or the general one of an empty list.
  abbrev pub IsError : List ParsedSct → Error → Type 0
  IsError [] e = e ≡ certificate sct_invalid
  IsError (s ∷ scts) e =
      (verify_one_sct digest ecdsa s tbs issuer store ≡ err e) × All IsRefused scts

  -- With an error kept, that error is returned exactly when all that is left is refused.
  kept_error :
      (scts : List ParsedSct) (first e : Error)
      → (verify_any_sct digest ecdsa scts (some first) tbs issuer store ≡ err e)
        ↔ ((first ≡ e) × All IsRefused scts)
  unfolding verify_any_sct
  kept_error [] first e = (λ h. (err_inj h, tt), λ (same, _). ap err same)
  kept_error (s ∷ scts) first e =
      elim (Result-cases (verify_one_sct digest ecdsa s tbs issuer store)) [
        | inl (u, fine) ↦ (
          (λ h. absurd (cc (rw fine at h))),
          λ (_, ((bad, refused), _)). absurd (cc (fine, refused)),
        )
        | inr (bad, refused) ↦
            let rest = kept_error scts first e in
            (
              (λ h.
                  let (same, others) = rest.0 (rw refused at h) in
                  (same, ((bad, refused), others))),
              λ (same, (_, others)). rw refused (rest.1 (same, others)),
            )
      ]

  first_error :
      (scts : List ParsedSct) (e : Error)
      → (verify_any_sct digest ecdsa scts none tbs issuer store ≡ err e) ↔ IsError scts e
  unfolding verify_any_sct
  first_error [] e = (λ h. sym (err_inj h), λ h. ap err (sym h))
  first_error (s ∷ scts) e = elim (Result-cases (verify_one_sct digest ecdsa s tbs issuer store)) [
    | inl (u, fine) ↦
        ((λ h. absurd (cc (rw fine at h))), λ (refused, _). absurd (cc (fine, refused)))
    | inr (bad, refused) ↦
        let rest = kept_error scts bad e in
        (
          (λ h. let (same, others) = rest.0 (rw refused at h) in (refused ∙ ap err same, others)),
          λ (h, others). rw refused (rest.1 (err_inj (sym refused ∙ h), others)),
        )
  ]

  -- The list is accepted exactly when one of its SCTs verifies; and it is refused with an error exactly
  -- when all of them are refused and the error is that of the first, or that of an invalid SCT if there
  -- are none.
  pub verify_any_sct_iff :
      (scts : List ParsedSct) (e : Error)
      → ((verify_any_sct digest ecdsa scts none tbs issuer store ≡ ok tt) ↔ Exists Verifies scts)
        × ((verify_any_sct digest ecdsa scts none tbs issuer store ≡ err e) ↔ IsError scts e)
  verify_any_sct_iff scts e = (
    (
      verify_any_sct-Verifies scts none,
      λ (s, i, at, fine). Verifies-verify_any_sct scts none s i at fine,
    ),
    first_error scts e,
  )
