-- ===== src/Rekor/Merkle.antt =====
-- src/rekor.rs, "3. Merkle inclusion proof (RFC 6962)". SHA-256 is a parameter: `digest` is its
-- function on byte strings.
pub mod Tree
pub mod Levels
pub mod Complete
pub mod Sound
pub mod Inclusion
mod Tests
use attestation_verify.Prelude.{
  ℕ, zero, suc, ◌+◌, ◌-◌, ◌/◌, ◌%◌, Bool, true, false, Option, none, some, List, [], ◌∷◌, ◌++◌, ltb,
  leb, ◌==◌, if◌then◌else◌, and_then, Result, ok, err, ◌>>=◌, ◌>>◌, traverse, ok_or, map_err,
  length,
}
use attestation_verify.Prelude.Text.{Bytes, str_eq}
use attestation_verify.Errors.{Error, transparency, inclusion_proof_invalid}
use attestation_verify.Bundle.{InclusionProof}

abbrev pub leaf_hash_prefix : ℕ
leaf_hash_prefix = 0x00

abbrev pub node_hash_prefix : ℕ
node_hash_prefix = 0x01

module _ (digest : Bytes → Bytes) where
  unfoldable pub rfc6962_leaf_hash : Bytes → Bytes
  rfc6962_leaf_hash canonicalized_body = digest (leaf_hash_prefix ∷ canonicalized_body)

  unfoldable pub rfc6962_node_hash : Bytes → Bytes → Bytes
  rfc6962_node_hash left right = digest (node_hash_prefix ∷ (left ++ right))

  -- `remaining.next()?`, and the hash of the new node
  abbrev pub take_left : List Bytes → Bytes → (Bytes → List Bytes → Option Bytes) → Option Bytes
  take_left [] node_hash k = none
  take_left (h ∷ remaining) node_hash k = k (rfc6962_node_hash h node_hash) remaining

  abbrev pub take_right : List Bytes → Bytes → (Bytes → List Bytes → Option Bytes) → Option Bytes
  take_right [] node_hash k = none
  take_right (h ∷ remaining) node_hash k = k (rfc6962_node_hash node_hash h) remaining

  -- the check behind the loop: no hash may be left over
  abbrev pub finish_root : List Bytes → Bytes → Option Bytes
  finish_root [] node_hash = some node_hash
  finish_root (h ∷ remaining) node_hash = none

  -- The loop `while last_node > 0`, on fuel that bounds `last_node`.
  unfoldable pub climb : ℕ → ℕ → ℕ → Bytes → List Bytes → Option Bytes
  climb zero node_index last_node node_hash remaining = finish_root remaining node_hash
  climb (suc fuel) node_index last_node node_hash remaining = elim (last_node == 0) [
    | true ↦ finish_root remaining node_hash
    | false ↦ elim (node_index % 2 == 1) [
      | true ↦ take_left remaining node_hash (climb fuel (node_index / 2) (last_node / 2))
      | false ↦ elim (ltb node_index last_node) [
        | true ↦ take_right remaining node_hash (climb fuel (node_index / 2) (last_node / 2))
        | false ↦ climb fuel (node_index / 2) (last_node / 2) node_hash remaining
      ]
    ]
  ]

  unfoldable pub recompute_root : Bytes → ℕ → ℕ → List Bytes → Option Bytes
  unfolding climb
  recompute_root leaf_hash leaf_index tree_size hashes =
      if leb tree_size leaf_index
      then none
      else climb (tree_size - 1) leaf_index (tree_size - 1) leaf_hash hashes

-- `<[u8; 32]>::try_from(slice)`
abbrev pub try_into_32 : Bytes → Result Bytes Error
try_into_32 b = if length b == 32 then ok b else err (transparency inclusion_proof_invalid)

module _ (digest : Bytes → Bytes) where
  unfoldable pub verify_inclusion_proof : Bytes → InclusionProof → Result (Unit {0}) Error
  unfolding traverse str_eq rfc6962_leaf_hash recompute_root
  verify_inclusion_proof canonicalized_body proof = do
    root_hash ← try_into_32 proof.root_hash
    hashes ← traverse try_into_32 proof.hashes
    let leaf_hash = rfc6962_leaf_hash digest canonicalized_body
    computed ←
        ok_or (recompute_root digest leaf_hash proof.log_index proof.tree_size hashes)
          (transparency inclusion_proof_invalid)
    if str_eq computed root_hash then ok tt else err (transparency inclusion_proof_invalid)
