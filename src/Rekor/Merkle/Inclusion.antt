-- ===== src/Rekor/Merkle/Inclusion.antt =====
-- `verify_inclusion_proof` against the log that it stands for: a list of entry bodies.
use attestation_verify.Prelude.{
  ℕ, zero, suc, ◌+◌, ◌-◌, ◌/◌, ◌%◌, ◌==◌, ◌≡◌, ◌⊎◌, inl, inr, refl, ap, sym, ◌∙◌, true, false, some,
  List, [], ◌∷◌, length, get_elem?, All, All-append, subst, arith, ok, traverse, ok_or, bind-eq-ok,
  map, some_inj, ok_or-eq-ok,
}
use attestation_verify.Prelude.Text.{Bytes}
use attestation_verify.Prelude.Text.Laws.{str_eq→eq, str_eq_refl}
use attestation_verify.Errors.{transparency, inclusion_proof_invalid}
use attestation_verify.Bundle.{Checkpoint, InclusionProof}
use attestation_verify.Rekor.Merkle.{
  rfc6962_leaf_hash, recompute_root, try_into_32, verify_inclusion_proof,
}
use attestation_verify.Rekor.Merkle.Tree.{IsMth, single, cut}
use attestation_verify.Rekor.Merkle.Sound.{
  Is32, Collision, node-Is32, pair_up-All, no-Collision, recompute_root_sound,
}
use attestation_verify.Rekor.Merkle.Complete.{
  to_list, siblings, audit_path, recompute_root-audit_path,
}

try_into_32-eq-ok : (b c : Bytes) → try_into_32 b ≡ ok c → (c ≡ b) × Is32 b
try_into_32-eq-ok b c e = ground arith

traverse-eq-ok :
    (hs : List Bytes) {rs : List Bytes} → traverse try_into_32 hs ≡ ok rs → (rs ≡ hs) × All Is32 hs
unfolding traverse
traverse-eq-ok [] e = (cc, tt)
traverse-eq-ok (h ∷ hs) {rs} e =
    let (c, ec, e1) = bind-eq-ok (try_into_32 h) _ e in
    let (cs, ecs, e2) = bind-eq-ok (traverse try_into_32 hs) _ e1 in
    let (p, q) = try_into_32-eq-ok h c ec in let (ps, qs) = traverse-eq-ok hs ecs in (cc, (q, qs))

try_into_32_ok : (b : Bytes) → Is32 b → try_into_32 b ≡ ok b
try_into_32_ok b h = ground arith

to_list-All : (level : List Bytes) (i : ℕ) → All Is32 level → All Is32 (to_list (get_elem? level i))
to_list-All [] i h = tt
to_list-All (x ∷ level) zero h = (h.0, tt)
to_list-All (x ∷ level) (suc i) h = to_list-All level i h.1

siblings-All : (level : List Bytes) (i : ℕ) → All Is32 level → All Is32 (siblings level i)
unfolding siblings
siblings-All level i h =
    elim (i % 2 == 1)
      as (λ b. All Is32 (elim b [
        | true ↦ to_list (get_elem? level (i - 1))
        | false ↦ to_list (get_elem? level (i + 1))
      ])) [ true ↦ to_list-All level (i - 1) h | false ↦ to_list-All level (i + 1) h ]

module _ (digest : Bytes → Bytes) where
  -- The tree of a log that holds these entry bodies, in order.
  abbrev pub IsLog : List Bytes → Bytes → Type 0
  IsLog entries root = IsMth digest (map (rfc6962_leaf_hash digest) entries) root

  length-leaves :
      (entries : List Bytes) → length (map (rfc6962_leaf_hash digest) entries) ≡ length entries
  length-leaves [] = refl
  length-leaves (x ∷ entries) = ap suc (length-leaves entries)

  get-leaves :
      (entries : List Bytes) (i : ℕ) {h : Bytes}
      → get_elem? (map (rfc6962_leaf_hash digest) entries) i ≡ some h
      → (b : Bytes) × (get_elem? entries i ≡ some b) × (rfc6962_leaf_hash digest b ≡ h)
  get-leaves [] i e = absurd (cc e)
  get-leaves (x ∷ entries) zero e = (x, refl, some_inj e)
  get-leaves (x ∷ entries) (suc i) e = get-leaves entries i e

  get_map :
      (entries : List Bytes) (i : ℕ) {b : Bytes}
      → get_elem? entries i ≡ some b
      → get_elem? (map (rfc6962_leaf_hash digest) entries) i ≡ some (rfc6962_leaf_hash digest b)
  get_map [] i e = absurd (cc e)
  get_map (x ∷ entries) zero e = ap some (ap (rfc6962_leaf_hash digest) (some_inj e))
  get_map (x ∷ entries) (suc i) e = get_map entries i e

  -- What an accepting run has checked.
  accepted :
      (body : Bytes) (proof : InclusionProof)
      → verify_inclusion_proof digest body proof ≡ ok tt
      → All Is32 proof.hashes
        × (recompute_root digest
              (rfc6962_leaf_hash digest body)
              proof.log_index
              proof.tree_size
              proof.hashes
            ≡ some proof.root_hash)
  unfolding verify_inclusion_proof
  accepted body proof e =
      let (r, er, e1) = bind-eq-ok (try_into_32 proof.root_hash) _ e in
      let (hs, ehs, e2) = bind-eq-ok (traverse try_into_32 proof.hashes) _ e1 in
      let (c, ec, e3) =
        bind-eq-ok
          (ok_or
            (recompute_root digest (rfc6962_leaf_hash digest body) proof.log_index proof.tree_size
              hs)
            (transparency inclusion_proof_invalid))
          _ e2 in
      let (r_is, _) = try_into_32-eq-ok proof.root_hash r er in
      let (hs_is, hs_32) = traverse-eq-ok proof.hashes ehs in
      let same : c ≡ r = str_eq→eq c r (ground arith) in
      let found =
        ok_or-eq-ok
          (recompute_root digest (rfc6962_leaf_hash digest body) proof.log_index proof.tree_size hs)
          _ ec in
      (hs_32, rw (← hs_is) (found ∙ ap some (same ∙ r_is)))

  leaves-Is32 :
      ((b : Bytes) → Is32 (digest b))
      → (entries : List Bytes) → All Is32 (map (rfc6962_leaf_hash digest) entries)
  unfolding rfc6962_leaf_hash
  leaves-Is32 d [] = tt
  leaves-Is32 d (x ∷ entries) = (d _, leaves-Is32 d entries)

  -- If a proof is accepted against the root and the size of a log, the log holds that body at that
  -- index, unless two byte strings with one digest are at hand. `digest` has 32 bytes.
  pub verify_inclusion_proof_sound :
      (digest-Is32 : (b : Bytes) → Is32 (digest b))
      → (body : Bytes) (proof : InclusionProof) (entries : List Bytes)
      → IsLog entries proof.root_hash
      → length entries ≡ proof.tree_size
      → verify_inclusion_proof digest body proof ≡ ok tt
      → (get_elem? entries proof.log_index ≡ some body) ⊎ Collision digest
  unfolding rfc6962_leaf_hash
  verify_inclusion_proof_sound d body proof entries log size e =
      let leaves = map (rfc6962_leaf_hash digest) entries in
      let (hs_32, found) = accepted body proof e in
      let at_size : proof.tree_size ≡ length leaves = sym (length-leaves entries ∙ size) in
      elim (recompute_root_sound digest d (rfc6962_leaf_hash digest body) proof.log_index
        proof.hashes leaves (d _) hs_32 (leaves-Is32 d entries) log (rw at_size at found)) [
          | inr x ↦ inr x
          | inl here ↦
              let (b, eb, same) = get-leaves entries proof.log_index here in
              elim (no-Collision digest (0 ∷ b) (0 ∷ body) same) [
                | inr x ↦ inr x
                | inl p ↦ inl (cc (eb, p))
              ]
        ]

  -- The proof that a log gives for its entry.
  abbrev pub log_proof : List Bytes → ℕ → Bytes → Checkpoint → InclusionProof
  log_proof entries i root checkpoint = record {
    log_index = i;
    root_hash = root;
    tree_size = length entries;
    hashes = audit_path digest (length entries) (map (rfc6962_leaf_hash digest) entries) i;
    checkpoint = checkpoint;
  }

  audit_path-Is32 :
      (d : (b : Bytes) → Is32 (digest b))
      → (k : ℕ) (level : List Bytes) (i : ℕ) → All Is32 level
      → All Is32 (audit_path digest k level i)
  unfolding audit_path
  audit_path-Is32 d zero level i h = tt
  audit_path-Is32 d (suc k) level i h =
      All-append Is32 (siblings level i) _ (siblings-All level i h)
        (audit_path-Is32 d k _ (i / 2) (pair_up-All digest d level h))

  traverse-All : (hs : List Bytes) → All Is32 hs → traverse try_into_32 hs ≡ ok hs
  unfolding traverse
  traverse-All [] h = refl
  traverse-All (x ∷ hs) h = rw (try_into_32_ok x h.0) (rw (traverse-All hs h.1))

  root-Is32 :
      (d : (b : Bytes) → Is32 (digest b)) {leaves : List Bytes} {root : Bytes}
      → All Is32 leaves
      → IsMth digest leaves root
      → Is32 root
  root-Is32 d h (single leaf) = h.0
  root-Is32 d h (cut k xs ys e hx hy hk l r) = node-Is32 digest d _ _

  -- Every entry of a log has a proof that is accepted against the log's root and size.
  pub verify_inclusion_proof_complete :
      (digest-Is32 : (b : Bytes) → Is32 (digest b))
      → (body : Bytes) (entries : List Bytes) (i : ℕ) (root : Bytes) (checkpoint : Checkpoint)
      → IsLog entries root
      → get_elem? entries i ≡ some body
      → verify_inclusion_proof digest body (log_proof entries i root checkpoint) ≡ ok tt
  unfolding verify_inclusion_proof
  verify_inclusion_proof_complete d body entries i root checkpoint log at =
      let leaves = map (rfc6962_leaf_hash digest) entries in
      let path = audit_path digest (length entries) leaves i in
      let found : recompute_root digest (rfc6962_leaf_hash digest body) i (length entries) path
          ≡ some root =
        subst
          (λ (n : ℕ).
            recompute_root digest (rfc6962_leaf_hash digest body) i n (audit_path digest n leaves i)
            ≡ some root)
          (length-leaves entries)
          (recompute_root-audit_path digest leaves i log (get_map entries i at)) in
      rw (try_into_32_ok root (root-Is32 d (leaves-Is32 d entries) log)) (
        rw (traverse-All path (audit_path-Is32 d (length entries) leaves i (leaves-Is32 d entries)))
          (rw found (rw (str_eq_refl root))))
