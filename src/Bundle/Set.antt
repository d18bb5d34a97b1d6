-- ===== src/Bundle/Set.antt =====
-- src/bundle.rs: the containers of bundles, JSON lines and the response of the GitHub API.
pub mod Lines
pub mod Carried
use attestation_verify.Prelude.{
  ℕ, Option, some, none, List, [], ◌∷◌, is_empty, Result, ok, err, map_err, ◌>>=◌, ◌>>◌, traverse,
  transpose, if◌then◌else◌,
}
use attestation_verify.Prelude.Text.{Bytes, Text, codes, split, trim_ascii}
use attestation_verify.Limits.{max_bundles_per_set}
use attestation_verify.Errors.{
  Error, parse, empty_container, unsupported, bundles_not_inline, too_many_bundles, from_limit,
}
use attestation_verify.StrictJson.Tree.{Value}
use attestation_verify.StrictJson.{JsonReader, parse_error, read_strict}
use attestation_verify.Crates.{Crates}
use attestation_verify.ParseUtil.{check_input_size, check_count}
use attestation_verify.Bundle.{Bundle}
use attestation_verify.Bundle.Raw.{RawBundle, bundle_from_raw}

pub record AttestationEntry : Type 0 where
  pub initiator : Text
  pub repository_id : Option ℕ
  pub bundle_url : Option Text
  pub bundle : Option Bundle

pub record BundleSet : Type 0 where
  pub bundles : List Bundle
  pub entries : List AttestationEntry

pub record RawAttestationEntry : Type 0 where
  pub initiator : Text
  pub repository_id : Option ℕ
  pub bundle_url : Option Text
  pub bundle : Option Value

pub record RawGithubResponse : Type 0 where
  pub attestations : List RawAttestationEntry

module _ (crates : Crates) (reader : JsonReader) (bundle_of : Value → Result RawBundle Text) where
  -- The loop over the lines, which passes over those of white space.
  unfoldable pub read_lines : List Bytes → Result (List Bundle) Error
  unfolding read_strict bundle_from_raw trim_ascii
  read_lines [] = ok []
  read_lines (line ∷ lines) =
      let rest = read_lines lines in
      if is_empty (trim_ascii line)
      then rest
      else read_strict reader bundle_of (trim_ascii line) >>= λ raw.
          bundle_from_raw crates raw >>= λ b. rest >>= λ bs. ok (b ∷ bs)

  unfoldable pub from_json_lines : Bytes → Result BundleSet Error
  unfolding split read_lines
  from_json_lines bytes = do
    from_limit (check_input_size bytes)
    bundles ← read_lines (split bytes b'\n')
    if is_empty bundles
        then err (parse (empty_container (codes "BundleSet: no bundle lines in JSONL input")))
        else ok tt
    from_limit (check_count bundles max_bundles_per_set too_many_bundles)
    ok (record { bundles = bundles; entries = [] })

-- The bundles that the entries carry, in their order.
abbrev pub inline_bundles : List AttestationEntry → List Bundle
inline_bundles [] = []
inline_bundles (e ∷ entries) =
    let rest = inline_bundles entries in elim e.bundle [ none ↦ rest | some b ↦ b ∷ rest ]

module _ (crates : Crates) (reader : JsonReader)
    (response_of : Value → Result RawGithubResponse Text)
    (bundle_of : Value → Result RawBundle Text) where
  unfoldable pub attestation_from_raw : RawAttestationEntry → Result AttestationEntry Error
  unfolding bundle_from_raw
  attestation_from_raw raw = do
    bundle ←
        transpose raw.bundle
          (λ v. map_err (bundle_of v) parse_error >>= λ b. bundle_from_raw crates b)
    ok (record {
      initiator = raw.initiator;
      repository_id = raw.repository_id;
      bundle_url = raw.bundle_url;
      bundle = bundle;
    })

  unfoldable pub from_github_response : Bytes → Result BundleSet Error
  unfolding read_strict traverse attestation_from_raw
  from_github_response bytes = do
    from_limit (check_input_size bytes)
    raw ← read_strict reader response_of bytes
    if is_empty raw.attestations
        then err
            (parse (empty_container (codes "attestations API response: no attestation entries")))
        else ok tt
    from_limit (check_count raw.attestations max_bundles_per_set too_many_bundles)
    entries ← traverse attestation_from_raw raw.attestations
    if is_empty (inline_bundles entries) then err (unsupported bundles_not_inline) else ok tt
    ok (record { bundles = inline_bundles entries; entries = entries })
