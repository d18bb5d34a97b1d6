-- ===== src/Rekor/Merkle/Complete.antt =====
-- Every entry of a tree has an audit path, and the verifier accepts it.
use attestation_verify.Prelude.{
  ℕ, zero, suc, ◌+◌, ◌-◌, ◌/◌, ◌%◌, ◌≤◌, ◌<◌, ◌==◌, ◌≡◌, inl, inr, refl, ap, true, false,
  Bool-cases, Option, none, some, List, [], ◌∷◌, ◌++◌, length, get_elem?, arith, ltb, leb, subst,
}
use attestation_verify.Prelude.Text.{Bytes}
use attestation_verify.Rekor.Merkle.{rfc6962_node_hash, climb, finish_root, recompute_root}
use attestation_verify.Rekor.Merkle.Tree.{IsMth, IsMth-reduce, pair_up, reduce, reduce_single}
use attestation_verify.Rekor.Merkle.Levels.{
  double, double-eq, pair_up-pair, pair_up_promotes, length-pair_up_half, get_some, get_none,
  get_lt, le-pow,
}

abbrev pub to_list : Option Bytes → List Bytes
to_list none = []
to_list (some b) = b ∷ []

-- What the proof holds for one level: the sibling of node `i`, if it has one.
unfoldable pub siblings : List Bytes → ℕ → List Bytes
siblings level i = elim (i % 2 == 1) [
  | true ↦ to_list (get_elem? level (i - 1))
  | false ↦ to_list (get_elem? level (i + 1))
]

siblings_odd :
    (level : List Bytes) (i : ℕ) (s : Bytes)
    → (i % 2 == 1) ≡ true
    → get_elem? level (i - 1) ≡ some s
    → siblings level i ≡ s ∷ []
unfolding siblings
siblings_odd level i s odd es = rw (odd, siblings) (rw (es, siblings))

siblings_even :
    (level : List Bytes) (i : ℕ) (o : Option Bytes)
    → (i % 2 == 1) ≡ false
    → get_elem? level (i + 1) ≡ o
    → siblings level i ≡ to_list o
unfolding siblings
siblings_even level i o even es = rw (even, siblings) (rw (es, siblings))

module _ (digest : Bytes → Bytes) where
  -- The audit path of leaf `i`, from the leaves up.
  unfoldable pub audit_path : ℕ → List Bytes → ℕ → List Bytes
  audit_path zero level i = []
  audit_path (suc k) level i = siblings level i ++ audit_path k (pair_up digest level) (i / 2)

  audit_path_odd :
      (k i : ℕ) (level : List Bytes) (s : Bytes)
      → (i % 2 == 1) ≡ true
      → get_elem? level (i - 1) ≡ some s
      → audit_path (suc k) level i ≡ s ∷ audit_path k (pair_up digest level) (i / 2)
  unfolding audit_path
  audit_path_odd k i level s odd es = rw (siblings_odd level i s odd es)

  audit_path_even :
      (k i : ℕ) (level : List Bytes) (o : Option Bytes)
      → (i % 2 == 1) ≡ false
      → get_elem? level (i + 1) ≡ o
      → audit_path (suc k) level i ≡ to_list o ++ audit_path k (pair_up digest level) (i / 2)
  unfolding audit_path
  audit_path_even k i level o even es = rw (siblings_even level i o even es)

  audit_path_root : (k : ℕ) (x : Bytes) → audit_path k (x ∷ []) 0 ≡ []
  unfolding audit_path pair_up siblings
  audit_path_root zero x = refl
  audit_path_root (suc k) x = audit_path_root k x

  abbrev Accepts : ℕ → Type 0
  Accepts fuel =
      (k i last : ℕ) (hash : Bytes) (level : List Bytes) (root : Bytes)
      → i ≤ last
      → last ≤ fuel
      → length level ≡ suc last
      → get_elem? level i ≡ some hash
      → reduce digest k level ≡ root ∷ []
      → climb digest fuel i last hash (audit_path k level i) ≡ some root

  accept_root :
      (k i : ℕ) (hash : Bytes) (level : List Bytes) (root : Bytes)
      → i ≤ 0
      → length level ≡ 1
      → get_elem? level i ≡ some hash
      → reduce digest k level ≡ root ∷ []
      → finish_root digest (audit_path k level i) hash ≡ some root
  accept_root k i hash [] root le len at red = absurd (omega arith)
  accept_root k (suc i) hash (x ∷ level) root le len at red = absurd (omega arith)
  accept_root k zero hash (x ∷ []) root le len at red =
      rw audit_path_root (cc (red, reduce_single digest k x, at))
  accept_root k zero hash (x ∷ y ∷ level) root le len at red = absurd (omega arith)

  module _ (fuel : ℕ) (ih : Accepts fuel) where
    accept_up :
        (k i last : ℕ) (above : Bytes) (level : List Bytes) (root : Bytes)
        → i ≤ last
        → last ≤ suc fuel
        → 0 < last
        → length level ≡ suc last
        → get_elem? (pair_up digest level) (i / 2) ≡ some above
        → reduce digest k (pair_up digest level) ≡ root ∷ []
        → climb digest fuel (i / 2) (last / 2) above (audit_path k (pair_up digest level) (i / 2))
          ≡ some root
    accept_up k i last above level root le lf pos len at red =
        ih k (i / 2) (last / 2) above (pair_up digest level) root (omega arith) (omega arith)
          (length-pair_up_half digest last level len) at red

    accept_step :
        (k i last : ℕ) (hash : Bytes) (level : List Bytes) (root : Bytes)
        → i ≤ last
        → last ≤ suc fuel
        → 0 < last
        → length level ≡ suc last
        → get_elem? level i ≡ some hash
        → reduce digest (suc k) level ≡ root ∷ []
        → climb digest (suc fuel) i last hash (audit_path (suc k) level i) ≡ some root
    unfolding climb reduce
    accept_step k i last hash level root le lf pos len at red =
        let more : (last == 0) ≡ false = ground arith in
        elim (Bool-cases (i % 2 == 1)) [
          | inl odd ↦
              let (s, es) = get_some level (i - 1) (omega arith) in
              let here : i - 1 ≡ double (i / 2) = ground (arith, double-eq (i / 2)) in
              let next : i ≡ suc (double (i / 2)) = ground (arith, double-eq (i / 2)) in
              let above =
                pair_up-pair digest (i / 2) level s hash
                  (subst (λ (j : ℕ). get_elem? level j ≡ some s) here es)
                  (subst (λ (j : ℕ). get_elem? level j ≡ some hash) next at) in
              rw (more, odd, climb)
                (rw (audit_path_odd k i level s odd es) (
                  accept_up k i last (rfc6962_node_hash digest s hash) level root le lf pos len
                    above red))
          | inr even ↦ elim (Bool-cases (ltb i last)) [
            | inl lt ↦
                let (s, es) = get_some level (i + 1) (ground arith) in
                let here : i ≡ double (i / 2) = ground (arith, double-eq (i / 2)) in
                let next : i + 1 ≡ suc (double (i / 2)) = ground (arith, double-eq (i / 2)) in
                let above =
                  pair_up-pair digest (i / 2) level hash s
                    (subst (λ (j : ℕ). get_elem? level j ≡ some hash) here at)
                    (subst (λ (j : ℕ). get_elem? level j ≡ some s) next es) in
                rw (more, even, lt, climb)
                  (rw (audit_path_even k i level (some s) even es) (
                    accept_up k i last (rfc6962_node_hash digest hash s) level root le lf pos len
                      above red))
            | inr ge ↦
                let here : i ≡ double (i / 2) = ground (arith, double-eq (i / 2)) in
                let above =
                  pair_up_promotes digest (i / 2) level hash
                    (subst (λ (j : ℕ). get_elem? level j ≡ some hash) here at) (ground arith) in
                let es : get_elem? level (i + 1) ≡ none = get_none level (i + 1) (ground arith) in
                rw (more, even, ge, climb)
                  (rw (audit_path_even k i level none even es)
                    (accept_up k i last hash level root le lf pos len above red))
          ]
        ]

  climb_complete : (fuel : ℕ) → Accepts fuel
  unfolding climb reduce
  climb_complete zero k i last hash level root le lf len at red =
      accept_root k i hash level root (omega arith) (omega arith) at red
  climb_complete (suc fuel) zero i last hash level root le lf len at red =
      let last_is : last ≡ 0 = omega (arith, ap length red) in
      let z : (last == 0) ≡ true = ground arith in
      rw (z, climb) (accept_root zero i hash level root (omega arith) (omega arith) at red)
  climb_complete (suc fuel) (suc k) i last hash level root le lf len at red =
      elim (Bool-cases (last == 0)) [
        | inl z ↦
            let last_is : last ≡ 0 = ground arith in
            rw (z, climb) (accept_root (suc k) i hash level root (omega arith) (omega arith) at red)
        | inr more ↦
            accept_step fuel (climb_complete fuel) k i last hash level root le lf (ground arith) len
              at red
      ]

  -- The audit path of entry `i` leads to the root of the tree.
  pub recompute_root-audit_path :
      (leaves : List Bytes) (i : ℕ) {leaf_hash root : Bytes}
      → IsMth digest leaves root
      → get_elem? leaves i ≡ some leaf_hash
      → recompute_root digest leaf_hash i (length leaves) (audit_path (length leaves) leaves i)
        ≡ some root
  unfolding recompute_root
  recompute_root-audit_path leaves i {leaf_hash} {root} mth at =
      let lt : i < length leaves = get_lt leaves i at in
      let within : leb (length leaves) i ≡ false = ground arith in
      rw within (
        climb_complete (length leaves - 1) (length leaves) i (length leaves - 1) leaf_hash leaves
          root (omega arith) (omega arith) (omega arith) at
          (IsMth-reduce digest mth (length leaves) (le-pow (length leaves))))
