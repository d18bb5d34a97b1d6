-- ===== src/Trust/Raw/Tests.antt =====
-- A trusted root that converts, and the bounds at it.
use attestation_verify.Prelude.{◌≤◌, ◌≡◌, refl, [], ◌∷◌, none, Result, ok}
use attestation_verify.Prelude.Int.{pos, ◌-ℤ◌, ◌+ℤ◌, ◌*ℤ◌}
use attestation_verify.Prelude.Text.{Text, codes}
use attestation_verify.StrictJson.Tree.{Value}
use attestation_verify.StrictJson.Accepts.{value_of}
use attestation_verify.StrictJson.Accepts.Decides.{IsReadFrom}
use attestation_verify.Limits.{max_input_bytes}
use attestation_verify.Samples.{toy_crates, toy_reader}
use attestation_verify.Time.Calendar.{days_from_shifted, div_ℤ}
use attestation_verify.Trust.{TrustStore}
use attestation_verify.Trust.Raw.{
  RawTrustedRoot, RawValidFor, trusted_root_media_type, store_from_json,
}
use attestation_verify.Trust.Raw.Bounds.{Keeps, store_from_json_bounds}

abbrev since : RawValidFor
since = record { start = codes "1970-01-01T00:00:07Z"; end = none }

abbrev root : RawTrustedRoot
root = record {
  media_type = trusted_root_media_type;
  tlogs =
      record {
        base_url = [];
        hash_algorithm = [];
        public_key = record { raw_bytes = b'k' ∷ []; key_details = []; valid_for = since };
        log_id = record { key_id = b'i' ∷ [] };
        checkpoint_key_id = none;
      }
      ∷ [];
  ctlogs = [];
  certificate_authorities =
      record {
        subject = record { organization = []; common_name = [] };
        uri = [];
        cert_chain = record { certificates = record { raw_bytes = b'c' ∷ [] } ∷ [] };
        valid_for = since;
      }
      ∷ [];
  timestamp_authorities = [];
}

abbrev root_of : Value → Result RawTrustedRoot Text
root_of v = ok root

abbrev store : TrustStore
store = record {
  media_type = trusted_root_media_type;
  tlogs =
      record {
        base_url = [];
        hash_algorithm = [];
        public_key = record {
          raw_bytes = b'k' ∷ [];
          key_details = [];
          valid_for = record { start = pos 7; end = none };
        };
        log_id_key_id = b'i' ∷ [];
        checkpoint_key_id = none;
      }
      ∷ [];
  ctlogs = [];
  certificate_authorities =
      record {
        subject = record { organization = []; common_name = [] };
        uri = [];
        certificates = record { raw_bytes = b'c' ∷ [] } ∷ [];
        valid_for = record { start = pos 7; end = none };
      }
      ∷ [];
  timestamp_authorities = [];
  fingerprint = toy_crates.hex_encode (toy_crates.digest []);
  source = codes "external";
}

read : store_from_json toy_crates toy_reader root_of [] ≡ ok store
unfolding store_from_json codes ◌-ℤ◌ ◌+ℤ◌ ◌*ℤ◌ days_from_shifted div_ℤ
read = refl

store_from_json_bounds_example :
    (raw : RawTrustedRoot) × (root_of (value_of (toy_reader.source [])) ≡ ok raw)
    × IsReadFrom toy_reader []
    × (0 ≤ max_input_bytes)
    × (store.fingerprint ≡ toy_crates.hex_encode (toy_crates.digest []))
    × Keeps toy_crates raw store
store_from_json_bounds_example = store_from_json_bounds toy_crates toy_reader root_of [] store read
