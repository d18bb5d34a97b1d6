-- ===== src/Bundle/Raw/Bounds.antt =====
-- The bounds that the conversions put on bundles.
use attestation_verify.Prelude.{
  is_empty, false, unnegated, ℕ, suc, ◌≤◌, ◌≡◌, sym, ap, ◌∙◌, subst, not, List, [], ◌∷◌, length,
  Result, ok, ok_inj, passed, refused_not, traverse, arith,
}
use attestation_verify.Prelude.Text.{Bytes, Text, str_eq}
use attestation_verify.Prelude.Text.Laws.{str_eq→eq}
use attestation_verify.Limits.{max_input_bytes, max_tlog_entries}
use attestation_verify.Errors.{ResourceLimitError, from_limit, too_many_tlog_entries}
use attestation_verify.StrictJson.Tree.{Value}
use attestation_verify.StrictJson.{JsonReader, read_strict}
use attestation_verify.StrictJson.Accepts.{value_of}
use attestation_verify.StrictJson.Accepts.Decides.{IsReadFrom, read_strict-IsReadFrom}
use attestation_verify.Crates.{Crates}
use attestation_verify.ParseUtil.{check_input_size, check_count}
use attestation_verify.Bundle.{Bundle, VerificationMaterial}
use attestation_verify.Bundle.Raw.{
  RawBundle, RawVerificationMaterial, bundle_media_type, certificate_from_raw, entry_from_raw,
  timestamps_from_raw, material_from_raw, envelope_from_raw, bundle_from_raw, from_json,
}

pub traverse-length {ℓ κ ι} :
    {A : Type ℓ} {B : Type κ} {E : Type ι} (f : A → Result B E) (xs : List A) (ys : List B)
    → traverse f xs ≡ ok ys
    → length ys ≡ length xs
unfolding traverse
traverse-length f [] ys e = ap length (sym (ok_inj e))
traverse-length f (x ∷ xs) ys e = passed (f x) _ e (λ z one e.
    passed (traverse f xs) _ e
      (λ zs more e. sym (ap length (ok_inj e)) ∙ ap suc (traverse-length f xs zs more)))

pub within_count :
    {A : Type 0} (items : List A) (limit : ℕ) (make_err : ℕ → ℕ → ResourceLimitError)
    → from_limit (check_count items limit make_err) ≡ ok tt
    → length items ≤ limit
within_count items limit make_err e = ground arith

pub within_size :
    (bytes : Bytes) → from_limit (check_input_size bytes) ≡ ok tt → length bytes ≤ max_input_bytes
within_size bytes e = ground arith

pub some_left {ℓ} : {A : Type ℓ} (xs : List A) → is_empty xs ≡ false → 1 ≤ length xs
some_left [] h = cc
some_left (x ∷ xs) h = omega arith

module _ (crates : Crates) where
  material_from_raw_bounds :
      (raw : RawVerificationMaterial) (m : VerificationMaterial)
      → material_from_raw crates raw ≡ ok m
      → (length m.tlog_entries ≡ length raw.tlog_entries)
        × (length m.tlog_entries ≤ max_tlog_entries)
  unfolding material_from_raw
  material_from_raw_bounds raw m e =
      passed (from_limit (check_count raw.tlog_entries max_tlog_entries too_many_tlog_entries)) _ e
        (λ u few e. passed (certificate_from_raw crates raw.certificate) _ e (λ c certified e.
          passed (traverse (entry_from_raw crates) raw.tlog_entries) _ e (λ es entries e.
            passed (timestamps_from_raw crates raw.timestamp_verification_data) _ e (λ ts stamped e.
              let count = traverse-length (entry_from_raw crates) raw.tlog_entries es entries in
              let bound =
                within_count raw.tlog_entries max_tlog_entries too_many_tlog_entries few in
              subst
                (λ (t : VerificationMaterial).
                  (length t.tlog_entries ≡ length raw.tlog_entries)
                  × (length t.tlog_entries ≤ max_tlog_entries))
                (ok_inj e) (count, omega (arith, count, bound))))))

  module _ (reader : JsonReader) (bundle_of : Value → Result RawBundle Text) where
    -- A bundle comes from a document of at most 8 MiB and 262144 nodes, in which no object repeats a
    -- key and behind which nothing stands, with the one supported media type; and has as many log
    -- entries as the document lists, at most 32.
    pub from_json_bounds :
        (bytes : Bytes) (b : Bundle)
        → from_json crates reader bundle_of bytes ≡ ok b
        → (raw : RawBundle) × (bundle_of (value_of (reader.source bytes)) ≡ ok raw)
          × IsReadFrom reader bytes
          × (length bytes ≤ max_input_bytes)
          × (b.media_type ≡ bundle_media_type)
          × (length b.verification_material.tlog_entries
              ≡ length raw.verification_material.tlog_entries)
          × (length b.verification_material.tlog_entries ≤ max_tlog_entries)
    unfolding from_json bundle_from_raw
    from_json_bounds bytes b e = passed (from_limit (check_input_size bytes)) _ e (λ u small e.
        passed (read_strict reader bundle_of bytes) _ e (λ raw read e.
          refused_not (not (str_eq raw.media_type bundle_media_type)) _ _ e (λ typed e.
            passed (material_from_raw crates raw.verification_material) _ e (λ m made e.
              passed (envelope_from_raw crates raw.dsse_envelope) _ e (λ d enveloped e.
                let (count, bound) = material_from_raw_bounds raw.verification_material m made in
                subst
                  (λ (t : Bundle).
                    (raw : RawBundle) × (bundle_of (value_of (reader.source bytes)) ≡ ok raw)
                    × IsReadFrom reader bytes
                    × (length bytes ≤ max_input_bytes)
                    × (t.media_type ≡ bundle_media_type)
                    × (length t.verification_material.tlog_entries
                        ≡ length raw.verification_material.tlog_entries)
                    × (length t.verification_material.tlog_entries ≤ max_tlog_entries))
                  (ok_inj e)
                  (
                    raw,
                    (read_strict-IsReadFrom reader bundle_of bytes raw read).1,
                    (read_strict-IsReadFrom reader bundle_of bytes raw read).0,
                    within_size bytes small,
                    str_eq→eq _ _ (unnegated _ typed),
                    count,
                    bound,
                  ))))))
