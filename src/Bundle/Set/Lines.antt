-- ===== src/Bundle/Set/Lines.antt =====
-- src/bundle.rs, BundleSet::from_json_lines: what the set holds, against the lines it is read from.
use attestation_verify.Prelude.{
  ◌≤◌, ◌≡◌, refl, subst, true, false, inl, inr, List, [], ◌∷◌, length, is_empty, Result, ok, ok_inj,
  passed, refused_not, Bool-cases,
}
use attestation_verify.Prelude.Text.{Bytes, Text, split, trim_ascii}
use attestation_verify.Limits.{max_input_bytes, max_bundles_per_set}
use attestation_verify.Errors.{from_limit, too_many_bundles}
use attestation_verify.StrictJson.Tree.{Value}
use attestation_verify.StrictJson.{JsonReader, read_strict}
use attestation_verify.StrictJson.Accepts.{value_of}
use attestation_verify.StrictJson.Accepts.Decides.{IsReadFrom, read_strict-IsReadFrom}
use attestation_verify.Crates.{Crates}
use attestation_verify.ParseUtil.{check_input_size, check_count}
use attestation_verify.Bundle.{Bundle}
use attestation_verify.Bundle.Raw.{RawBundle, bundle_from_raw}
use attestation_verify.Bundle.Set.{BundleSet, read_lines, from_json_lines}
use attestation_verify.Bundle.Raw.Bounds.{within_count, within_size, some_left}

module _ (crates : Crates) (reader : JsonReader) (bundle_of : Value → Result RawBundle Text) where
  -- The bundles of the lines, in their order; a line of white space has none.
  pub data AreRead : List Bytes → List Bundle → Type 0 where
    no_line : AreRead [] []
    blank :
        {lines : List Bytes} {bs : List Bundle} (line : Bytes)
        → is_empty (trim_ascii line) ≡ true
        → AreRead lines bs
        → AreRead (line ∷ lines) bs
    one_line :
        {lines : List Bytes} {bs : List Bundle} (line : Bytes) (raw : RawBundle) (b : Bundle)
        → is_empty (trim_ascii line) ≡ false
        → IsReadFrom reader (trim_ascii line)
        → bundle_of (value_of (reader.source (trim_ascii line))) ≡ ok raw
        → bundle_from_raw crates raw ≡ ok b
        → AreRead lines bs
        → AreRead (line ∷ lines) (b ∷ bs)

  read_lines-AreRead :
      (lines : List Bytes) (bs : List Bundle)
      → read_lines crates reader bundle_of lines ≡ ok bs
      → AreRead lines bs
  unfolding read_lines
  read_lines-AreRead [] bs e = subst (AreRead []) (ok_inj e) no_line
  read_lines-AreRead (line ∷ lines) bs e = elim (Bool-cases (is_empty (trim_ascii line))) [
    | inl white ↦ blank line white (read_lines-AreRead lines bs (rw white at e))
    | inr filled ↦
        passed (read_strict reader bundle_of (trim_ascii line)) _ (rw filled at e) (λ raw read e.
          passed (bundle_from_raw crates raw) _ e (λ b made e.
            passed (read_lines crates reader bundle_of lines) _ e (λ rest more e.
              let (strict, shape) =
                read_strict-IsReadFrom reader bundle_of (trim_ascii line) raw read in
              subst (AreRead (line ∷ lines)) (ok_inj e) (
                one_line line raw b filled strict shape made
                  (read_lines-AreRead lines rest more)))))
  ]

  -- A set that is read from at most 8 MiB of lines has between 1 and 64 bundles, which are those of the
  -- lines that are not white space, each read strictly and in their order, and no entries.
  pub from_json_lines_bounds :
      (bytes : Bytes) (s : BundleSet)
      → from_json_lines crates reader bundle_of bytes ≡ ok s
      → (length bytes ≤ max_input_bytes)
        × (1 ≤ length s.bundles)
        × (length s.bundles ≤ max_bundles_per_set)
        × (s.entries ≡ [])
        × AreRead (split bytes b'\n') s.bundles
  unfolding from_json_lines
  from_json_lines_bounds bytes s e = passed (from_limit (check_input_size bytes)) _ e (λ u small e.
      passed (read_lines crates reader bundle_of (split bytes b'\n')) _ e (λ bs read e.
        refused_not (is_empty bs) _ _ e (λ there e.
          passed (from_limit (check_count bs max_bundles_per_set too_many_bundles)) _ e (λ u few e.
            subst
              (λ (t : BundleSet).
                (length bytes ≤ max_input_bytes)
                × (1 ≤ length t.bundles)
                × (length t.bundles ≤ max_bundles_per_set)
                × (t.entries ≡ [])
                × AreRead (split bytes b'\n') t.bundles)
              (ok_inj e)
              (
                within_size bytes small,
                some_left bs there,
                within_count bs max_bundles_per_set too_many_bundles few,
                refl,
                read_lines-AreRead (split bytes b'\n') bs read,
              )))))
