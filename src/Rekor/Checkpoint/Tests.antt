-- ===== src/Rekor/Checkpoint/Tests.antt =====
-- Runs of the checkpoint's parser, and the theorems at a concrete input.
use attestation_verify.Prelude.{◌≡◌, ◌↔◌, refl, [], ◌∷◌, ◌++◌, ok, err, some, true, false}
use attestation_verify.Prelude.Text.{Bytes, Text, codes}
use attestation_verify.Samples.{toy_crates, toy_ecdsa, toy_key, sample_log}
use attestation_verify.Rekor.Checkpoint.{
  ParsedCheckpoint, checkpoint_signature_prefix, malformed, parse_checkpoint, checkpoint_key_hint,
  checkpoint_key_name_matches, verify_checkpoint, verify_checkpoint_self_anchored,
}
use attestation_verify.Rekor.Checkpoint.Parsed.{IsCheckpoint, parse_checkpoint-IsCheckpoint}
use attestation_verify.Rekor.Checkpoint.Verified.{IsSignedBy, verify_checkpoint_iff}

abbrev note : Text
note = b'o' ∷ b'\n' ∷ b'3' ∷ b'\n' ∷ b'r' ∷ b'\n' ∷ []

abbrev envelope : Text
envelope =
    note
    ++ (b'\n' ∷ (checkpoint_signature_prefix ++ (b'n' ∷ b' ' ∷ 1 ∷ 2 ∷ 3 ∷ 0 ∷ b'o' ∷ b'\n' ∷ [])))

abbrev parsed : ParsedCheckpoint
parsed = record {
  origin = b'o' ∷ [];
  tree_size = 3;
  root_hash = b'r' ∷ [];
  note_body = note;
  signatures =
      record { name = b'n' ∷ []; key_hint = 1 ∷ 2 ∷ 3 ∷ 0 ∷ []; signature = b'o' ∷ [] } ∷ [];
}

parses : parse_checkpoint toy_crates envelope ≡ ok parsed
unfolding parse_checkpoint
parses = refl

runs :
    (parse_checkpoint toy_crates note
      ≡ err (malformed "missing blank line separating body from signatures"))
    × (parse_checkpoint toy_crates (b'o' ∷ b'\n' ∷ b'-' ∷ b'\n' ∷ b'\n' ∷ [])
        ≡ err (malformed "treeSize line is not a valid unsigned integer"))
    × (parse_checkpoint toy_crates (note ++ (b'\n' ∷ []))
        ≡ err (malformed "no signature lines found"))
    × (checkpoint_key_name_matches sample_log (b'u' ∷ []) ≡ true)
    × (checkpoint_key_name_matches sample_log (b'v' ∷ []) ≡ false)
    × (verify_checkpoint_self_anchored toy_crates toy_ecdsa envelope sample_log toy_key ≡ ok tt)
unfolding parse_checkpoint checkpoint_key_name_matches verify_checkpoint codes toy_ecdsa
runs = (refl, refl, refl, refl, refl, refl)

parse_checkpoint-IsCheckpoint_example : IsCheckpoint toy_crates envelope parsed
parse_checkpoint-IsCheckpoint_example =
    parse_checkpoint-IsCheckpoint toy_crates envelope parsed parses

verify_checkpoint_iff_example :
    (verify_checkpoint toy_crates toy_ecdsa envelope 3 (b'r' ∷ []) sample_log toy_key ≡ ok parsed)
    ↔ ((parse_checkpoint toy_crates envelope ≡ ok parsed)
        × (parsed.tree_size ≡ 3)
        × (parsed.root_hash ≡ b'r' ∷ [])
        × (hint : Bytes) × (checkpoint_key_hint toy_crates sample_log ≡ some hint)
        × IsSignedBy toy_crates toy_ecdsa parsed hint toy_key)
verify_checkpoint_iff_example =
    verify_checkpoint_iff toy_crates toy_ecdsa envelope 3 (b'r' ∷ []) sample_log toy_key parsed
