-- ===== src/Rekor/Merkle/Tests.antt =====
-- Runs of the inclusion proof, and the theorems at concrete inputs.
use attestation_verify.Prelude.{◌≡◌, ◌⊎◌, refl, none, some, List, [], ◌∷◌, get_elem?, arith, ok}
use attestation_verify.Prelude.Text.{Bytes}
use attestation_verify.Samples.{short_digest, length-short_digest}
use attestation_verify.Bundle.{Checkpoint}
use attestation_verify.Rekor.Merkle.{
  rfc6962_leaf_hash, rfc6962_node_hash, climb, recompute_root, verify_inclusion_proof,
}
use attestation_verify.Rekor.Merkle.Tree.{single, cut}
use attestation_verify.Rekor.Merkle.Sound.{Collision}
use attestation_verify.Rekor.Merkle.Inclusion.{
  IsLog, log_proof, verify_inclusion_proof_sound, verify_inclusion_proof_complete,
}

abbrev leaf : Bytes → Bytes
leaf = rfc6962_leaf_hash short_digest

abbrev node : Bytes → Bytes → Bytes
node = rfc6962_node_hash short_digest

abbrev three_entries : List Bytes
three_entries = (7 ∷ []) ∷ (8 ∷ []) ∷ (9 ∷ []) ∷ []

abbrev three_root : Bytes
three_root = node (node (leaf (7 ∷ [])) (leaf (8 ∷ []))) (leaf (9 ∷ []))

three-IsLog : IsLog short_digest three_entries three_root
three-IsLog =
    cut 1 (leaf (7 ∷ []) ∷ leaf (8 ∷ []) ∷ []) (leaf (9 ∷ []) ∷ []) refl refl (omega arith)
      (omega arith)
      (cut 0 (leaf (7 ∷ []) ∷ []) (leaf (8 ∷ []) ∷ []) refl refl (omega arith) (omega arith)
        (single _) (single _))
      (single _)

abbrev no_checkpoint : Checkpoint
no_checkpoint = record { envelope = [] }

-- The unpaired last leaf has one sibling, the node of the first two.
last_leaf_path :
    recompute_root short_digest (leaf (9 ∷ [])) 2 3 (node (leaf (7 ∷ [])) (leaf (8 ∷ [])) ∷ [])
    ≡ some three_root
unfolding recompute_root climb
last_leaf_path = refl

too_short : recompute_root short_digest (leaf (7 ∷ [])) 0 3 (leaf (8 ∷ []) ∷ []) ≡ none
unfolding recompute_root climb
too_short = refl

index_out_of_range : recompute_root short_digest (leaf (7 ∷ [])) 3 3 [] ≡ none
unfolding recompute_root
index_out_of_range = refl

verify_inclusion_proof_complete_example :
    verify_inclusion_proof short_digest
      (8 ∷ [])
      (log_proof short_digest three_entries 1 three_root no_checkpoint)
    ≡ ok tt
verify_inclusion_proof_complete_example =
    verify_inclusion_proof_complete short_digest length-short_digest (8 ∷ []) three_entries 1
      three_root no_checkpoint three-IsLog refl

verify_inclusion_proof_sound_example :
    (get_elem? three_entries 1 ≡ some (8 ∷ [])) ⊎ Collision short_digest
verify_inclusion_proof_sound_example =
    verify_inclusion_proof_sound short_digest length-short_digest (8 ∷ [])
      (log_proof short_digest three_entries 1 three_root no_checkpoint) three_entries three-IsLog
      refl
      (verify_inclusion_proof_complete short_digest length-short_digest (8 ∷ []) three_entries 1
        three_root no_checkpoint three-IsLog refl)
