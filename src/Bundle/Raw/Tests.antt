-- ===== src/Bundle/Raw/Tests.antt =====
-- Documents that convert, and the bounds at them. A line's bundle is read by a stand-in.
use attestation_verify.Prelude.{◌≤◌, ◌≡◌, refl, [], ◌∷◌, some, none, Result, ok, err, length}
use attestation_verify.Prelude.Text.{Bytes, Text, codes, split}
use attestation_verify.Errors.{parse, empty_container}
use attestation_verify.StrictJson.Tree.{Value, null}
use attestation_verify.StrictJson.Accepts.{value_of}
use attestation_verify.StrictJson.Accepts.Decides.{IsReadFrom}
use attestation_verify.Limits.{max_input_bytes, max_tlog_entries, max_bundles_per_set}
use attestation_verify.Samples.{toy_crates, toy_reader}
use attestation_verify.Bundle.{Bundle}
use attestation_verify.Bundle.Raw.{RawBundle, RawTlogEntry, bundle_media_type, from_json}
use attestation_verify.Bundle.Set.{
  RawGithubResponse, BundleSet, from_json_lines, from_github_response,
}
use attestation_verify.Bundle.Raw.Bounds.{from_json_bounds}
use attestation_verify.Bundle.Set.Lines.{AreRead, from_json_lines_bounds}
use attestation_verify.Bundle.Set.Carried.{Carry, from_github_response_bounds}

abbrev raw_entry : RawTlogEntry
raw_entry = record {
  log_index = b'7' ∷ [];
  log_id = record { key_id = [] };
  kind_version = record { kind = []; version = [] };
  integrated_time = b'9' ∷ [];
  inclusion_promise = none;
  inclusion_proof = none;
  canonicalized_body = [];
}

abbrev raw : RawBundle
raw = record {
  media_type = bundle_media_type;
  verification_material = record {
    certificate = record { raw_bytes = [] };
    tlog_entries = raw_entry ∷ [];
    timestamp_verification_data = record { rfc3161_timestamps = [] };
  };
  dsse_envelope = record {
    payload = [];
    payload_type = [];
    signatures = record { sig = []; keyid = none } ∷ [];
  };
}

abbrev bundle_of : Value → Result RawBundle Text
bundle_of v = ok raw

abbrev bundle : Bundle
bundle = record {
  media_type = bundle_media_type;
  verification_material = record {
    certificate = record { raw_bytes = [] };
    tlog_entries =
        record {
          log_index = 7;
          log_id_key_id = [];
          kind = [];
          version = [];
          integrated_time = 9;
          inclusion_promise = none;
          inclusion_proof = none;
          canonicalized_body = [];
        }
        ∷ [];
    timestamp_verification_data = record { rfc3161_timestamps = [] };
  };
  dsse_envelope = record {
    payload = [];
    payload_type = [];
    signature = record { sig = []; keyid = none };
  };
}

read : from_json toy_crates toy_reader bundle_of [] ≡ ok bundle
unfolding from_json codes
read = refl

abbrev two_lines : Bytes
two_lines = b'a' ∷ b'\r' ∷ b'\n' ∷ b' ' ∷ b'\n' ∷ b'b' ∷ []

abbrev set : BundleSet
set = record { bundles = bundle ∷ bundle ∷ []; entries = [] }

read_set : from_json_lines toy_crates toy_reader bundle_of two_lines ≡ ok set
unfolding from_json_lines codes
read_set = refl

abbrev response : RawGithubResponse
response = record {
  attestations =
      record { initiator = []; repository_id = some 5; bundle_url = none; bundle = none }
      ∷ record { initiator = []; repository_id = none; bundle_url = none; bundle = some null }
      ∷ record { initiator = []; repository_id = none; bundle_url = none; bundle = some null }
      ∷ [];
}

abbrev response_of : Value → Result RawGithubResponse Text
response_of v = ok response

abbrev response_set : BundleSet
response_set = record {
  bundles = bundle ∷ bundle ∷ [];
  entries =
      record { initiator = []; repository_id = some 5; bundle_url = none; bundle = none }
      ∷ record { initiator = []; repository_id = none; bundle_url = none; bundle = some bundle }
      ∷ record { initiator = []; repository_id = none; bundle_url = none; bundle = some bundle }
      ∷ [];
}

read_github : from_github_response toy_crates toy_reader response_of bundle_of [] ≡ ok response_set
unfolding from_github_response codes
read_github = refl

refusal :
    from_json_lines toy_crates toy_reader bundle_of (b'\n' ∷ [])
    ≡ err (parse (empty_container (codes "BundleSet: no bundle lines in JSONL input")))
unfolding from_json_lines
refusal = refl

from_json_bounds_example :
    (r : RawBundle) × (bundle_of (value_of (toy_reader.source [])) ≡ ok r)
    × IsReadFrom toy_reader []
    × (0 ≤ max_input_bytes)
    × (bundle.media_type ≡ bundle_media_type)
    × (1 ≡ length r.verification_material.tlog_entries)
    × (1 ≤ max_tlog_entries)
from_json_bounds_example = from_json_bounds toy_crates toy_reader bundle_of [] bundle read

from_json_lines_bounds_example :
    (6 ≤ max_input_bytes)
    × (1 ≤ 2)
    × (2 ≤ max_bundles_per_set)
    × (set.entries ≡ [])
    × AreRead toy_crates toy_reader bundle_of (split two_lines b'\n') set.bundles
from_json_lines_bounds_example =
    from_json_lines_bounds toy_crates toy_reader bundle_of two_lines set read_set

from_github_response_bounds_example :
    (r : RawGithubResponse) × (response_of (value_of (toy_reader.source [])) ≡ ok r)
    × IsReadFrom toy_reader []
    × (0 ≤ max_input_bytes)
    × (1 ≤ 2)
    × (2 ≤ 3)
    × (3 ≤ max_bundles_per_set)
    × Carry toy_crates bundle_of r.attestations response_set.entries response_set.bundles
from_github_response_bounds_example =
    from_github_response_bounds toy_crates toy_reader response_of bundle_of [] response_set
      read_github
