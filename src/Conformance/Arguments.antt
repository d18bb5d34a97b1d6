-- ===== src/Conformance/Arguments.antt =====
-- tools/conformance/src/main.rs: the options of `verify-bundle`, which `run_verify` reads in a loop.
pub mod Checked
use attestation_verify.Prelude.{
  Bool, true, false, Option, none, some, is_some, not, ◌||◌, List, [], ◌∷◌, ◌++◌, Result, ok, err,
  ◌>>=◌, ◌>>◌, if◌then◌else◌, String,
}
use attestation_verify.Prelude.Text.{Text, codes, str_eq, starts_with}
use attestation_verify.Conformance.Failures.{Failure, message, refuse_if, ok_or_message}

pub record Arguments : Type 0 where
  pub staging : Bool
  pub bundle_path : Option Text
  pub certificate_identity : Option Text
  pub certificate_issuer : Option Text
  pub key_path : Option Text
  pub trusted_root_path : Option Text
  pub artifact_or_digest : Option Text

abbrev pub no_arguments : Arguments
no_arguments = record {
  staging = false;
  bundle_path = none;
  certificate_identity = none;
  certificate_issuer = none;
  key_path = none;
  trusted_root_path = none;
  artifact_or_digest = none;
}

-- What an argument does: it sets something, takes the next argument as its value, or is refused.
pub data Action : Type 0 where
  sets : Arguments → Action
  takes : (Text → Arguments) → Action
  refuses : Text → Action

abbrev with_bundle_path : Arguments → Text → Arguments
with_bundle_path o value = record {
  staging = o.staging;
  bundle_path = some value;
  certificate_identity = o.certificate_identity;
  certificate_issuer = o.certificate_issuer;
  key_path = o.key_path;
  trusted_root_path = o.trusted_root_path;
  artifact_or_digest = o.artifact_or_digest;
}

abbrev with_certificate_identity : Arguments → Text → Arguments
with_certificate_identity o value = record {
  staging = o.staging;
  bundle_path = o.bundle_path;
  certificate_identity = some value;
  certificate_issuer = o.certificate_issuer;
  key_path = o.key_path;
  trusted_root_path = o.trusted_root_path;
  artifact_or_digest = o.artifact_or_digest;
}

abbrev with_certificate_issuer : Arguments → Text → Arguments
with_certificate_issuer o value = record {
  staging = o.staging;
  bundle_path = o.bundle_path;
  certificate_identity = o.certificate_identity;
  certificate_issuer = some value;
  key_path = o.key_path;
  trusted_root_path = o.trusted_root_path;
  artifact_or_digest = o.artifact_or_digest;
}

abbrev with_key_path : Arguments → Text → Arguments
with_key_path o value = record {
  staging = o.staging;
  bundle_path = o.bundle_path;
  certificate_identity = o.certificate_identity;
  certificate_issuer = o.certificate_issuer;
  key_path = some value;
  trusted_root_path = o.trusted_root_path;
  artifact_or_digest = o.artifact_or_digest;
}

abbrev with_trusted_root_path : Arguments → Text → Arguments
with_trusted_root_path o value = record {
  staging = o.staging;
  bundle_path = o.bundle_path;
  certificate_identity = o.certificate_identity;
  certificate_issuer = o.certificate_issuer;
  key_path = o.key_path;
  trusted_root_path = some value;
  artifact_or_digest = o.artifact_or_digest;
}

abbrev with_artifact_or_digest : Arguments → Text → Arguments
with_artifact_or_digest o value = record {
  staging = o.staging;
  bundle_path = o.bundle_path;
  certificate_identity = o.certificate_identity;
  certificate_issuer = o.certificate_issuer;
  key_path = o.key_path;
  trusted_root_path = o.trusted_root_path;
  artifact_or_digest = some value;
}

abbrev with_staging : Arguments → Arguments
with_staging o = record {
  staging = true;
  bundle_path = o.bundle_path;
  certificate_identity = o.certificate_identity;
  certificate_issuer = o.certificate_issuer;
  key_path = o.key_path;
  trusted_root_path = o.trusted_root_path;
  artifact_or_digest = o.artifact_or_digest;
}

-- `debug_str` is the print of a string by `{:?}`.
module _ (debug_str : Text → Text) where
  -- The arms of the `match` on an argument.
  unfoldable pub action : Arguments → Text → Action
  unfolding str_eq starts_with
  action o argument =
      if str_eq argument (codes "--staging")
      then sets (with_staging o)
      else if str_eq argument (codes "--bundle")
      then takes (with_bundle_path o)
      else if str_eq argument (codes "--certificate-identity")
      then takes (with_certificate_identity o)
      else if str_eq argument (codes "--certificate-oidc-issuer")
      then takes (with_certificate_issuer o)
      else if str_eq argument (codes "--key")
      then takes (with_key_path o)
      else if str_eq argument (codes "--trusted-root")
      then takes (with_trusted_root_path o)
      else if starts_with argument (codes "-")
      then refuses (codes "unsupported or unknown conformance option " ++ debug_str argument)
      else if is_some o.artifact_or_digest
      then refuses (codes "unexpected extra positional argument " ++ debug_str argument)
      else sets (with_artifact_or_digest o argument)

  -- The loop; `next_value` takes the argument behind an option.
  unfoldable pub read_arguments : List Text → Arguments → Result Arguments Failure
  unfolding action
  read_arguments [] o = ok o
  read_arguments (argument ∷ []) o = elim (action o argument) [
    | sets o' ↦ ok o'
    | takes set ↦ err (message (argument ++ codes " requires a value"))
    | refuses text ↦ err (message text)
  ]
  read_arguments (argument ∷ next ∷ args) o = elim (action o argument) [
    | sets o' ↦ read_arguments (next ∷ args) o'
    | takes set ↦ read_arguments args (set next)
    | refuses text ↦ err (message text)
  ]

pub record Request : Type 0 where
  pub bundle_path : Text
  pub artifact_or_digest : Text
  pub certificate_identity : Text
  pub certificate_issuer : Text
  pub trusted_root_path : Option Text

-- The checks behind the loop, up to the one of the issuer.
unfoldable pub check_arguments : Arguments → Result Request Failure
check_arguments o = do
  refuse_if o.staging (
      codes
        "unsupported: --staging selects online Sigstore staging infrastructure, but this verifier is offline")
  refuse_if (is_some o.key_path) (
      codes
        "unsupported: --key requests managed-key/cosign verification, which this crate does not implement")
  refuse_if (not (is_some o.certificate_identity) || not (is_some o.certificate_issuer)) (
      codes
        "verify-bundle requires --certificate-identity and --certificate-oidc-issuer (or an unsupported --key path)")
  bundle_path ← ok_or_message o.bundle_path (codes "verify-bundle requires --bundle FILE")
  artifact_or_digest ← ok_or_message o.artifact_or_digest (
      codes "verify-bundle requires an artifact path or a sha256:<64-hex-character-digest> operand")
  certificate_identity ← ok_or_message o.certificate_identity (codes "missing certificate identity")
  certificate_issuer ← ok_or_message o.certificate_issuer (codes "missing certificate OIDC issuer")
  ok (record {
    bundle_path = bundle_path;
    artifact_or_digest = artifact_or_digest;
    certificate_identity = certificate_identity;
    certificate_issuer = certificate_issuer;
    trusted_root_path = o.trusted_root_path;
  })
