-- ===== src/Bundle/Set/Carried.antt =====
-- src/bundle.rs, BundleSet::from_github_response: what the set holds, against the document's entries.
use attestation_verify.Prelude.{
  ◌≤◌, ◌≡◌, refl, sym, ap, ◌∙◌, subst, Option, some, none, ◌⊎◌, inl, inr, List, [], ◌∷◌, length,
  is_empty, Result, ok, ok_inj, passed, refused_not, traverse, transpose, map_err, map_err-eq-ok,
  ◌>>=◌, arith,
}
use attestation_verify.Prelude.Text.{Bytes, Text}
use attestation_verify.Limits.{max_input_bytes, max_bundles_per_set}
use attestation_verify.Errors.{from_limit, too_many_bundles}
use attestation_verify.StrictJson.Tree.{Value}
use attestation_verify.StrictJson.{JsonReader, parse_error, read_strict}
use attestation_verify.StrictJson.Accepts.{value_of}
use attestation_verify.StrictJson.Accepts.Decides.{IsReadFrom, read_strict-IsReadFrom}
use attestation_verify.Crates.{Crates}
use attestation_verify.ParseUtil.{check_input_size, check_count}
use attestation_verify.Bundle.{Bundle}
use attestation_verify.Bundle.Raw.{RawBundle, bundle_from_raw}
use attestation_verify.Bundle.Set.{
  RawAttestationEntry, RawGithubResponse, AttestationEntry, BundleSet, inline_bundles,
  attestation_from_raw, from_github_response,
}
use attestation_verify.Bundle.Raw.Bounds.{traverse-length, within_count, within_size, some_left}

-- A fallible function over an option that succeeds: nothing was there, or it succeeded at the value.
transpose-eq-ok {ℓ κ ι} :
    {A : Type ℓ} {B : Type κ} {E : Type ι} (o : Option A) (f : A → Result B E) (r : Option B)
    → transpose o f ≡ ok r
    → ((o ≡ none) × (r ≡ none)) ⊎ ((a : A) × (b : B) × (o ≡ some a) × (f a ≡ ok b) × (r ≡ some b))
transpose-eq-ok none f r e = inl (refl, sym (ok_inj e))
transpose-eq-ok (some a) f r e =
    inr (passed (f a) _ e (λ b made e. (a, b, refl, made, sym (ok_inj e))))

-- An entry with what the document says of it, and the bundle that was made.
abbrev entry_of : RawAttestationEntry → Option Bundle → AttestationEntry
entry_of raw bundle = record {
  initiator = raw.initiator;
  repository_id = raw.repository_id;
  bundle_url = raw.bundle_url;
  bundle = bundle;
}

module _ (crates : Crates) (bundle_of : Value → Result RawBundle Text) where
  -- The entries of a document and the bundles among them: every value that stands inline in an entry
  -- makes the next bundle, which the entry holds too.
  pub data Carry : List RawAttestationEntry → List AttestationEntry → List Bundle → Type 0 where
    no_entry : Carry [] [] []
    by_url :
        {raws : List RawAttestationEntry} {es : List AttestationEntry} {bs : List Bundle}
        (raw : RawAttestationEntry)
        → raw.bundle ≡ none
        → Carry raws es bs
        → Carry (raw ∷ raws) (entry_of raw none ∷ es) bs
    inline :
        {raws : List RawAttestationEntry} {es : List AttestationEntry} {bs : List Bundle}
        (raw : RawAttestationEntry) (v : Value) (shape : RawBundle) (b : Bundle)
        → raw.bundle ≡ some v
        → bundle_of v ≡ ok shape
        → bundle_from_raw crates shape ≡ ok b
        → Carry raws es bs
        → Carry (raw ∷ raws) (entry_of raw (some b) ∷ es) (b ∷ bs)

  -- The two ways in which an entry is converted.
  abbrev IsEntry : RawAttestationEntry → AttestationEntry → Type 0
  IsEntry raw e =
      ((raw.bundle ≡ none) × (e ≡ entry_of raw none))
      ⊎ ((v : Value) × (shape : RawBundle) × (b : Bundle) × (raw.bundle ≡ some v)
          × (bundle_of v ≡ ok shape)
          × (bundle_from_raw crates shape ≡ ok b)
          × (e ≡ entry_of raw (some b)))

  Carry-length :
      {raws : List RawAttestationEntry} {es : List AttestationEntry} {bs : List Bundle}
      → Carry raws es bs
      → length bs ≤ length es
  Carry-length no_entry = omega arith
  Carry-length (by_url raw absent carried) =
      let shorter = Carry-length carried in omega (arith, shorter)
  Carry-length (inline raw v shape b there shaped made carried) =
      let shorter = Carry-length carried in omega (arith, shorter)

module _ (crates : Crates) (reader : JsonReader)
    (response_of : Value → Result RawGithubResponse Text)
    (bundle_of : Value → Result RawBundle Text) where
  attestation_from_raw-IsEntry :
      (raw : RawAttestationEntry) (e : AttestationEntry)
      → attestation_from_raw crates reader response_of bundle_of raw ≡ ok e
      → IsEntry crates bundle_of raw e
  unfolding attestation_from_raw
  attestation_from_raw-IsEntry raw e h =
      passed
        (transpose raw.bundle
          (λ v. map_err (bundle_of v) parse_error >>= λ b. bundle_from_raw crates b))
        _ h
        (λ o read h. elim (transpose-eq-ok raw.bundle _ o read) [
          | inl (absent, nothing) ↦ inl (absent, sym (ok_inj h) ∙ ap (entry_of raw) nothing)
          | inr (v, b, there, converted, it) ↦
              passed (map_err (bundle_of v) parse_error) _ converted (λ shape shaped made. inr (
                v,
                shape,
                b,
                there,
                map_err-eq-ok (bundle_of v) parse_error shaped,
                made,
                sym (ok_inj h) ∙ ap (entry_of raw) it,
              ))
        ])

  attestations-Carry :
      (raws : List RawAttestationEntry) (es : List AttestationEntry)
      → traverse (attestation_from_raw crates reader response_of bundle_of) raws ≡ ok es
      → Carry crates bundle_of raws es (inline_bundles es)
  unfolding traverse
  attestations-Carry [] es h =
      subst (λ (l : List AttestationEntry). Carry crates bundle_of [] l (inline_bundles l))
        (ok_inj h) no_entry
  attestations-Carry (raw ∷ raws) es h =
      passed (attestation_from_raw crates reader response_of bundle_of raw) _ h (λ e one h.
        passed (traverse (attestation_from_raw crates reader response_of bundle_of) raws) _ h
          (λ rest more h.
            let carried = attestations-Carry raws rest more in
            subst
              (λ (l : List AttestationEntry).
                Carry crates bundle_of (raw ∷ raws) l (inline_bundles l))
              (ok_inj h)
              (elim (attestation_from_raw-IsEntry raw e one) [
                | inl (absent, e_is) ↦
                    subst
                      (λ (x : AttestationEntry).
                        Carry crates bundle_of (raw ∷ raws) (x ∷ rest) (inline_bundles (x ∷ rest)))
                      (sym e_is) (by_url raw absent carried)
                | inr (v, shape, b, there, shaped, made, e_is) ↦
                    subst
                      (λ (x : AttestationEntry).
                        Carry crates bundle_of (raw ∷ raws) (x ∷ rest) (inline_bundles (x ∷ rest)))
                      (sym e_is) (inline raw v shape b there shaped made carried)
              ])))

  -- A set that is read from a GitHub response comes from a document of at most 8 MiB and 262144 nodes,
  -- in which no object repeats a key and behind which nothing stands, that lists 1 to 64 entries. The
  -- set has these entries, with their data, and exactly the bundles that stand inline in them, at least
  -- one, in their order; every entry holds its own bundle.
  pub from_github_response_bounds :
      (bytes : Bytes) (s : BundleSet)
      → from_github_response crates reader response_of bundle_of bytes ≡ ok s
      → (raw : RawGithubResponse) × (response_of (value_of (reader.source bytes)) ≡ ok raw)
        × IsReadFrom reader bytes
        × (length bytes ≤ max_input_bytes)
        × (1 ≤ length s.bundles)
        × (length s.bundles ≤ length s.entries)
        × (length s.entries ≤ max_bundles_per_set)
        × Carry crates bundle_of raw.attestations s.entries s.bundles
  unfolding from_github_response
  from_github_response_bounds bytes s e =
      passed (from_limit (check_input_size bytes)) _ e (λ u small e.
        passed (read_strict reader response_of bytes) _ e (λ raw read e.
          refused_not (is_empty raw.attestations) _ _ e (λ there e.
            passed (from_limit (check_count raw.attestations max_bundles_per_set too_many_bundles))
              _ e
              (λ u few e.
                passed
                  (traverse (attestation_from_raw crates reader response_of bundle_of)
                    raw.attestations)
                  _ e
                  (λ es made e. refused_not (is_empty (inline_bundles es)) _ _ e (λ inline e.
                    let count =
                      traverse-length (attestation_from_raw crates reader response_of bundle_of)
                        raw.attestations es made in
                    let bound =
                      within_count raw.attestations max_bundles_per_set too_many_bundles few in
                    let (strict, shape) =
                      read_strict-IsReadFrom reader response_of bytes raw read in
                    let carried = attestations-Carry raw.attestations es made in
                    subst
                      (λ (t : BundleSet).
                        (raw : RawGithubResponse) × (response_of (value_of (reader.source bytes))
                          ≡ ok raw)
                        × IsReadFrom reader bytes
                        × (length bytes ≤ max_input_bytes)
                        × (1 ≤ length t.bundles)
                        × (length t.bundles ≤ length t.entries)
                        × (length t.entries ≤ max_bundles_per_set)
                        × Carry crates bundle_of raw.attestations t.entries t.bundles)
                      (ok_inj e)
                      (
                        raw,
                        shape,
                        strict,
                        within_size bytes small,
                        some_left (inline_bundles es) inline,
                        Carry-length crates bundle_of carried,
                        omega (arith, count, bound),
                        carried,
                      )))))))
