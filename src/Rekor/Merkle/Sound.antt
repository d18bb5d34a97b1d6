-- ===== src/Rekor/Merkle/Sound.antt =====
-- An accepted inclusion proof shows the entry at its index, unless two byte strings with one
-- SHA-256 digest have been found.
use native.Mathlib.Decide.{ℕ_discrete}
use attestation_verify.Prelude.{
  ℕ, zero, suc, ◌-◌, ◌/◌, ◌%◌, ◌≤◌, ◌<◌, ◌==◌, ◌≡◌, ◌≢◌, ◌⊎◌, inl, inr, ap, sym, ◌∙◌, Bool-cases,
  none, some, List, [], ◌∷◌, ◌++◌, length, append_inj, get_elem?, All, arith, ltb, leb, subst,
  some_inj, ltb→lt,
}
use attestation_verify.Prelude.Text.{Bytes}
use attestation_verify.Rekor.Merkle.{
  rfc6962_node_hash, climb, finish_root, take_left, take_right, recompute_root,
}
use attestation_verify.Rekor.Merkle.Tree.{IsMth, IsMth-reduce, pair_up, reduce, reduce_single}
use attestation_verify.Rekor.Merkle.Levels.{
  double, double-eq, get_some, le-pow, pair_up-pair, pair_up_promotes, length-pair_up_half,
}

-- Two different inputs with one digest.
pub record Collision (digest : Bytes → Bytes) : Type 0 where
  pub first : Bytes
  pub second : Bytes
  pub differ : first ≢ second
  pub same_digest : digest first ≡ digest second

dec_bytes : Discrete Bytes
dec_bytes = hlevel ℕ_discrete

module _ (digest : Bytes → Bytes) where
  -- Equal digests come from equal inputs, or are a collision.
  pub no-Collision : (a b : Bytes) → digest a ≡ digest b → (a ≡ b) ⊎ Collision digest
  no-Collision a b e = elim (dec_bytes a b) [
    | yes p ↦ inl p
    | no p ↦ inr (record { first = a; second = b; differ = p; same_digest = e })
  ]

abbrev pub Is32 : Bytes → Type 0
Is32 b = length b ≡ 32

All-get : (xs : List Bytes) (i : ℕ) (a : Bytes) → All Is32 xs → get_elem? xs i ≡ some a → Is32 a
All-get [] i a h e = cc
All-get (x ∷ xs) zero a h e = subst Is32 (some_inj e) h.0
All-get (x ∷ xs) (suc i) a h e = All-get xs i a h.1 e

none-ne-some : {A : Type 0} {a : A} → none ≢ some a
none-ne-some e = cc

module _ (digest : Bytes → Bytes) (digest-Is32 : (b : Bytes) → Is32 (digest b)) where
  pub pair_up-All : (level : List Bytes) → All Is32 level → All Is32 (pair_up digest level)
  unfolding pair_up rfc6962_node_hash
  pair_up-All [] h = h
  pair_up-All (x ∷ []) h = h
  pair_up-All (x ∷ y ∷ level) h = (digest-Is32 _, pair_up-All level h.1.1)

  pub node-Is32 : (l r : Bytes) → Is32 (rfc6962_node_hash digest l r)
  unfolding rfc6962_node_hash
  node-Is32 l r = digest-Is32 _

  -- A node's hash fixes both children, unless there is a collision.
  node_inj :
      (a b c d : Bytes)
      → Is32 a
      → Is32 c
      → rfc6962_node_hash digest a b ≡ rfc6962_node_hash digest c d
      → ((a ≡ c) × (b ≡ d)) ⊎ Collision digest
  unfolding rfc6962_node_hash
  node_inj a b c d ha hc e = elim (no-Collision digest (1 ∷ (a ++ b)) (1 ∷ (c ++ d)) e) [
    | inl p ↦ inl (append_inj a c (omega arith) cc)
    | inr x ↦ inr x
  ]

  -- What the loop shows with `fuel` rounds left: `level` is the tree's level that it has reached.
  abbrev Climbs : ℕ → Type 0
  Climbs fuel =
      (i last : ℕ) (hash : Bytes) (hashes level : List Bytes) (root : Bytes) (k : ℕ)
      → i ≤ last
      → last ≤ fuel
      → length level ≡ suc last
      → Is32 hash
      → All Is32 hashes
      → All Is32 level
      → reduce digest k level ≡ root ∷ []
      → climb digest fuel i last hash hashes ≡ some root
      → (get_elem? level i ≡ some hash) ⊎ Collision digest

  climb_root :
      (i : ℕ) (hash : Bytes) (hashes level : List Bytes) (root : Bytes) (k : ℕ)
      → i ≤ 0
      → length level ≡ 1
      → reduce digest k level ≡ root ∷ []
      → finish_root digest hashes hash ≡ some root
      → (get_elem? level i ≡ some hash) ⊎ Collision digest
  climb_root i hash [] [] root k le len red e = absurd (omega arith)
  climb_root (suc i) hash [] (x ∷ []) root k le len red e = absurd (omega arith)
  climb_root zero hash [] (x ∷ []) root k le len red e = inl (cc (red, reduce_single digest k x, e))
  climb_root i hash [] (x ∷ y ∷ level) root k le len red e = absurd (omega arith)
  climb_root i hash (h ∷ hashes) level root k le len red e = cc

  -- The children of node `q` on the level above a level with both of them.
  children :
      (q : ℕ) (level : List Bytes)
      → suc (double q) < length level
      → (a : Bytes) × (b : Bytes) × (get_elem? level (double q) ≡ some a)
        × (get_elem? level (suc (double q)) ≡ some b)
        × (get_elem? (pair_up digest level) q ≡ some (rfc6962_node_hash digest a b))
  children q level h =
      let (a, ea) = get_some level (double q) (omega arith) in
      let (b, eb) = get_some level (suc (double q)) h in
      (a, b, ea, eb, pair_up-pair digest q level a b ea eb)

  -- The node above is the hash of two values, so they are its children.
  same_children :
      (q : ℕ) (level : List Bytes) (l r : Bytes)
      → suc (double q) < length level
      → All Is32 level
      → Is32 l
      → (get_elem? (pair_up digest level) q ≡ some (rfc6962_node_hash digest l r))
        ⊎ Collision digest
      → ((get_elem? level (double q) ≡ some l) × (get_elem? level (suc (double q)) ≡ some r))
        ⊎ Collision digest
  same_children q level l r h ls hl (inr x) = inr x
  same_children q level l r h ls hl (inl up) =
      let (a, b, ea, eb, above) = children q level h in
      let same : rfc6962_node_hash digest a b ≡ rfc6962_node_hash digest l r =
        some_inj (sym above ∙ up) in
      elim (node_inj a b l r (All-get level (double q) a ls ea) hl same) [
        | inl (p, p') ↦ inl (cc, cc)
        | inr x ↦ inr x
      ]

  module _ (fuel : ℕ) (ih : Climbs fuel) where
    -- One level up; the reduction of the level has a round left.
    climb_up :
        (i last : ℕ) (hash : Bytes) (hashes level : List Bytes) (root : Bytes) (k : ℕ)
        → i ≤ last
        → last ≤ suc fuel
        → 0 < last
        → length level ≡ suc last
        → Is32 hash
        → All Is32 hashes
        → All Is32 level
        → reduce digest k level ≡ root ∷ []
        → climb digest fuel (i / 2) (last / 2) hash hashes ≡ some root
        → (get_elem? (pair_up digest level) (i / 2) ≡ some hash) ⊎ Collision digest
    unfolding reduce
    climb_up i last hash hashes level root zero le lf pos len h hs ls red e =
        absurd (omega (arith, ap length red))
    climb_up i last hash hashes level root (suc k) le lf pos len h hs ls red e =
        ih (i / 2) (last / 2) hash hashes (pair_up digest level) root k (omega arith) (omega arith)
          (length-pair_up_half digest last level len) h hs (pair_up-All level ls) red e

    climb_right :
        (i last : ℕ) (hash : Bytes) (hashes level : List Bytes) (root : Bytes) (k : ℕ)
        → i ≤ last
        → last ≤ suc fuel
        → 0 < last
        → length level ≡ suc last
        → Is32 hash
        → All Is32 hashes
        → All Is32 level
        → reduce digest k level ≡ root ∷ []
        → i % 2 ≡ 1
        → take_left digest hashes hash (climb digest fuel (i / 2) (last / 2)) ≡ some root
        → (get_elem? level i ≡ some hash) ⊎ Collision digest
    climb_right i last hash [] level root k le lf pos len h hs ls red odd e = cc
    climb_right i last hash (s ∷ hashes) level root k le lf pos len h hs ls red odd e =
        let at : i ≡ suc (double (i / 2)) = omega (arith, double-eq (i / 2)) in
        let above =
          climb_up i last (rfc6962_node_hash digest s hash) hashes level root k le lf pos len
            (node-Is32 s hash) hs.1 ls red e in
        elim (same_children (i / 2) level s hash (omega arith) ls hs.0 above) [
          | inl (_, here) ↦ inl (subst (λ (j : ℕ). get_elem? level j ≡ some hash) (sym at) here)
          | inr x ↦ inr x
        ]

    climb_left :
        (i last : ℕ) (hash : Bytes) (hashes level : List Bytes) (root : Bytes) (k : ℕ)
        → i < last
        → last ≤ suc fuel
        → length level ≡ suc last
        → Is32 hash
        → All Is32 hashes
        → All Is32 level
        → reduce digest k level ≡ root ∷ []
        → i % 2 ≢ 1
        → take_right digest hashes hash (climb digest fuel (i / 2) (last / 2)) ≡ some root
        → (get_elem? level i ≡ some hash) ⊎ Collision digest
    climb_left i last hash [] level root k lt lf len h hs ls red even e = cc
    climb_left i last hash (s ∷ hashes) level root k lt lf len h hs ls red even e =
        let at : i ≡ double (i / 2) = omega (arith, double-eq (i / 2)) in
        let above =
          climb_up i last (rfc6962_node_hash digest hash s) hashes level root k (omega arith) lf
            (omega arith) len (node-Is32 hash s) hs.1 ls red e in
        elim (same_children (i / 2) level hash s (omega arith) ls h above) [
          | inl (here, _) ↦ inl (subst (λ (j : ℕ). get_elem? level j ≡ some hash) (sym at) here)
          | inr x ↦ inr x
        ]

    climb_promoted :
        (last : ℕ) (hash : Bytes) (hashes level : List Bytes) (root : Bytes) (k : ℕ)
        → last ≤ suc fuel
        → 0 < last
        → length level ≡ suc last
        → Is32 hash
        → All Is32 hashes
        → All Is32 level
        → reduce digest k level ≡ root ∷ []
        → last % 2 ≢ 1
        → climb digest fuel (last / 2) (last / 2) hash hashes ≡ some root
        → (get_elem? level last ≡ some hash) ⊎ Collision digest
    climb_promoted last hash hashes level root k lf pos len h hs ls red even e =
        let at : last ≡ double (last / 2) = omega (arith, double-eq (last / 2)) in
        let (a, ea) = get_some level last (omega arith) in
        let promoted =
          pair_up_promotes digest (last / 2) level a
            (subst (λ (j : ℕ). get_elem? level j ≡ some a) at ea) (omega arith) in
        elim (climb_up last last hash hashes level root k (omega arith) lf pos len h hs ls red e) [
          | inl up ↦ inl (ea ∙ sym promoted ∙ up)
          | inr x ↦ inr x
        ]

  climb_sound : (fuel : ℕ) → Climbs fuel
  unfolding climb
  climb_sound zero i last hash hashes level root k le lf len h hs ls red e =
      climb_root i hash hashes level root k (omega arith) (omega arith) red e
  climb_sound (suc fuel) i last hash hashes level root k le lf len h hs ls red e =
      elim (Bool-cases (last == 0)) [
        | inl z ↦
            let at : last ≡ 0 = ground arith in
            climb_root i hash hashes level root k (omega arith) (omega arith) red
              (rw (z, climb) at e)
        | inr more ↦
            let pos : 0 < last = ground arith in
            elim (Bool-cases (i % 2 == 1)) [
              | inl odd ↦
                  climb_right fuel (climb_sound fuel) i last hash hashes level root k le lf pos len
                    h hs ls red (ground arith) (rw (more, odd, climb) at e)
              | inr even ↦
                  let ne : i % 2 ≢ 1 = ground arith in
                  elim (Bool-cases (ltb i last)) [
                    | inl lt ↦
                        climb_left fuel (climb_sound fuel) i last hash hashes level root k
                          (ltb→lt i last lt) lf len h hs ls red ne (rw (more, even, lt, climb) at e)
                    | inr ge ↦
                        let at : i ≡ last = ground arith in
                        subst (λ (j : ℕ). (get_elem? level j ≡ some hash) ⊎ Collision digest)
                          (sym at)
                          (climb_promoted fuel (climb_sound fuel) last hash hashes level root k lf
                            pos len h hs ls red (subst (λ (j : ℕ). j % 2 ≢ 1) at ne)
                            (subst
                              (λ (j : ℕ).
                                climb digest fuel (j / 2) (last / 2) hash hashes ≡ some root)
                              at (rw (more, even, ge, climb) at e)))
                  ]
            ]
      ]

  -- `recompute_root` returns the root of a tree only from the leaf at that index.
  pub recompute_root_sound :
      (leaf_hash : Bytes) (i : ℕ) (hashes leaves : List Bytes) {root : Bytes}
      → Is32 leaf_hash
      → All Is32 hashes
      → All Is32 leaves
      → IsMth digest leaves root
      → recompute_root digest leaf_hash i (length leaves) hashes ≡ some root
      → (get_elem? leaves i ≡ some leaf_hash) ⊎ Collision digest
  unfolding recompute_root
  recompute_root_sound leaf_hash i hashes leaves {root} h hs ls mth e =
      elim (Bool-cases (leb (length leaves) i)) [
        | inl out ↦ absurd (none-ne-some (rw out at e))
        | inr within ↦
            let lt : i < length leaves = ground arith in
            climb_sound (length leaves - 1) i (length leaves - 1) leaf_hash hashes leaves root
              (length leaves) (omega arith) (omega arith) (omega arith) h hs ls
              (IsMth-reduce digest mth (length leaves) (le-pow (length leaves))) (rw within at e)
      ]
