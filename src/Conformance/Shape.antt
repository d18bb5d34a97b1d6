-- ===== src/Conformance/Shape.antt =====
-- tools/conformance/src/main.rs: the shapes of a bundle that are refused with a message of their own,
-- and the checkpoint origin that the client allows.
use attestation_verify.Prelude.{
  Bool, true, false, not, ◌&&◌, Option, none, some, [], is_some, and_then, ◌++◌, find_first, Result,
  ok, err, ◌>>=◌, ◌>>◌,
}
use attestation_verify.Prelude.Text.{Bytes, Text, codes, str_eq, contains_str}
use attestation_verify.StrictJson.Tree.{Value, null, string}
use attestation_verify.Trust.{TrustStore, TransparencyLog}
use attestation_verify.Policy.{CheckpointOriginPolicy, allow_origin, build_origin_policy}
use attestation_verify.Bundle.Raw.{bundle_media_type}
use attestation_verify.Conformance.Failures.{Failure, refuse_if, ok_or_message, from_library}

abbrev pub public_good_checkpoint_origin : Text
public_good_checkpoint_origin = codes "rekor.sigstore.dev - 1193050959916656506"

-- The first log whose key is not said to be an Ed25519 key.
abbrev pub is_supported : TransparencyLog → Bool
is_supported log = not (contains_str log.public_key.key_details (codes "ED25519"))

-- `digest` is SHA-256.
unfoldable pub public_good_origin_policy :
    (Bytes → Bytes) → TrustStore → Result CheckpointOriginPolicy Failure
unfolding find_first contains_str allow_origin
public_good_origin_policy digest trust_store = do
  log ←
      ok_or_message (find_first is_supported trust_store.tlogs)
        (codes "trusted root has no supported Rekor v1 log key")
  builder ←
      from_library
        (allow_origin digest (record { bindings = [] }) log public_good_checkpoint_origin)
  from_library (build_origin_policy builder)

-- What the client uses of serde_json: a lenient parser, and two ways to look into a value.
pub record JsonView : Type 0 where
  pub from_slice : Bytes → Result Value Text
  pub pointer : Value → Text → Option Value
  pub get : Value → Text → Option Value

-- `Value::as_str`
abbrev pub as_str : Value → Option Text
as_str (string s) = some s
as_str _ = none

abbrev pub is_not_null : Value → Bool
is_not_null null = false
is_not_null _ = true

-- `.is_some_and(test)`
abbrev pub is_some_and : Option Value → (Value → Bool) → Bool
is_some_and none test = false
is_some_and (some v) test = test v

-- `found == Some(text)`
abbrev pub is_text : Option Text → Text → Bool
is_text none text = false
is_text (some s) text = str_eq s text

module _ (json : JsonView) (debug_str : Text → Text) where
  open json use {from_slice, pointer, get}

  abbrev pub check_media_type : Option Text → Result (Unit {0}) Failure
  unfolding str_eq
  check_media_type none = ok tt
  check_media_type (some media_type) = refuse_if (not (str_eq media_type bundle_media_type)) (
      codes "unsupported: bundle media type "
      ++ (debug_str media_type
          ++ (codes "; this crate accepts " ++ (debug_str bundle_media_type ++ codes " only"))))

  unfoldable pub check_shape : Value → Result (Unit {0}) Failure
  unfolding str_eq
  check_shape value = do
    refuse_if (is_some_and (pointer value (codes "/verificationMaterial/publicKey")) is_not_null) (
        codes
          "unsupported: this bundle uses managed-key verification, which this crate does not implement")
    let tlog_entry = pointer value (codes "/verificationMaterial/tlogEntries/0")
    let kind =
        and_then (and_then tlog_entry (λ entry. pointer entry (codes "/kindVersion/kind"))) as_str
    let version =
        and_then (and_then tlog_entry (λ entry. pointer entry (codes "/kindVersion/version")))
          as_str
    let has_integrated_time =
        is_some (and_then tlog_entry (λ entry. get entry (codes "integratedTime")))
    refuse_if (is_text version (codes "0.0.2") && not has_integrated_time) (
        codes
          "unsupported: this bundle uses Rekor v2/TSA verification, but this crate implements Rekor v1 only")
    refuse_if (is_text kind (codes "hashedrekord")) (
        codes
          "unsupported: this bundle uses a hashedrekord entry, but this crate models DSSE entries only")
    check_media_type (and_then (get value (codes "mediaType")) as_str)

  -- Bytes that are no JSON are left to `Bundle::from_json`.
  unfoldable pub reject_unsupported_bundle_shape : Bytes → Result (Unit {0}) Failure
  unfolding check_shape
  reject_unsupported_bundle_shape bytes = elim (from_slice bytes) [
    | ok value ↦ check_shape value
    | err e ↦ ok tt
  ]
