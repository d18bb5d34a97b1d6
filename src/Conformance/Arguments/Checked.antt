-- ===== src/Conformance/Arguments/Checked.antt =====
-- What the options of a request that is gone through with are.
use attestation_verify.Prelude.{
  ◌≡◌, refl, subst, false, not, ◌||◌, some, none, Option, is_some, ok, ok_or, ok_or-eq-ok, ok_inj,
  passed, refused_not,
}
use attestation_verify.Conformance.Arguments.{Arguments, Request, check_arguments}

-- No online infrastructure and no key is asked for, and the request has what was given.
abbrev pub IsRequest : Arguments → Request → Type 0
IsRequest o r =
    (o.staging ≡ false)
    × (o.key_path ≡ none)
    × (o.bundle_path ≡ some r.bundle_path)
    × (o.artifact_or_digest ≡ some r.artifact_or_digest)
    × (o.certificate_identity ≡ some r.certificate_identity)
    × (o.certificate_issuer ≡ some r.certificate_issuer)
    × (o.trusted_root_path ≡ r.trusted_root_path)

is_some-none {ℓ} : {A : Type ℓ} (o : Option A) → is_some o ≡ false → o ≡ none
is_some-none none h = refl
is_some-none (some a) h = absurd (cc h)

pub check_arguments-IsRequest :
    (o : Arguments) (r : Request) → check_arguments o ≡ ok r → IsRequest o r
unfolding check_arguments
check_arguments-IsRequest o r e = refused_not o.staging _ _ e (λ offline e.
    refused_not (is_some o.key_path) _ _ e (λ keyless e.
      refused_not (not (is_some o.certificate_identity) || not (is_some o.certificate_issuer)) _ _ e
        (λ both e. passed (ok_or o.bundle_path _) _ e (λ bundle bundled e.
          passed (ok_or o.artifact_or_digest _) _ e (λ operand given e.
            passed (ok_or o.certificate_identity _) _ e (λ identity named e.
              passed (ok_or o.certificate_issuer _) _ e (λ issuer issued e.
                subst (IsRequest o) (ok_inj e) (
                  offline,
                  is_some-none o.key_path keyless,
                  ok_or-eq-ok _ _ bundled,
                  ok_or-eq-ok _ _ given,
                  ok_or-eq-ok _ _ named,
                  ok_or-eq-ok _ _ issued,
                  refl,
                ))))))))
