-- ===== src/ParseUtil.antt =====
-- src/parse_util.rs: the strict decoders and the checks of sizes. A field's name is any text.
pub mod Accepts
mod Tests
use attestation_verify.Prelude.{
  ℕ, ltb, List, ◌++◌, length, if◌then◌else◌, Result, ok, err, ◌>>=◌, ◌>>◌, ok_or, map_err, String,
}
use attestation_verify.Prelude.Text.{Bytes, Text, codes, strip_prefix, strip_suffix}
use attestation_verify.Prelude.Text.Whitespace.{trim, without_whitespace}
use attestation_verify.Prelude.Decimal.{parse_u64}
use attestation_verify.Errors.{
  ParseError, base64, hex, not_an_integer, ResourceLimitError, input_too_large,
}
use attestation_verify.Limits.{max_input_bytes}
use attestation_verify.Crates.{Crates}

unfoldable pub strict_stringified_u64 : Text → Text → Result ℕ ParseError
unfolding parse_u64
strict_stringified_u64 field s = ok_or (parse_u64 s) (not_an_integer field s)

abbrev pub check_input_size : Bytes → Result (Unit {0}) ResourceLimitError
check_input_size bytes =
    if ltb max_input_bytes (length bytes)
    then err (input_too_large (length bytes) max_input_bytes)
    else ok tt

abbrev pub check_count {ℓ} :
    {A : Type ℓ} → List A → ℕ → (ℕ → ℕ → ResourceLimitError) → Result (Unit {0}) ResourceLimitError
check_count items limit make_err =
    if ltb limit (length items) then err (make_err (length items) limit) else ok tt

module _ (crates : Crates) where
  open crates use {base64_decode, hex_decode}

  abbrev pub strict_base64 : Text → Text → Result Bytes ParseError
  strict_base64 field s = map_err (base64_decode s) (base64 field)

  abbrev pub strict_hex : ℕ → Text → Text → Result Bytes ParseError
  strict_hex n field s = map_err (hex_decode n s) (hex field)

  abbrev missing_marker : Text → Text → ParseError
  missing_marker field marker = base64 field (codes "missing \"" ++ (marker ++ codes "\" marker"))

  unfoldable pub strict_pem : Text → Text → Text → Result Bytes ParseError
  unfolding trim strip_prefix strip_suffix without_whitespace
  strict_pem field label s = do
    let begin = codes "-----BEGIN " ++ (label ++ codes "-----")
    let end = codes "-----END " ++ (label ++ codes "-----")
    rest ← ok_or (strip_prefix (trim s) begin) (missing_marker field begin)
    body ← ok_or (strip_suffix rest end) (missing_marker field end)
    strict_base64 field (without_whitespace body)
