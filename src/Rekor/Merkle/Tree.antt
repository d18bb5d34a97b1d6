-- ===== src/Rekor/Merkle/Tree.antt =====
-- The Merkle tree of RFC 6962 over a list of leaf hashes: its head by the recursion of section 2.1,
-- and the same head level by level, which is how an audit path is climbed.
use native.Mathlib.Nat.{pow-suc, pow-le-pow_right}
use native.Mathlib.Decide.{dec_lt, le_ind}
use attestation_verify.Prelude.{
  ℕ, zero, suc, ◌+◌, ◌^◌, ◌≤◌, ◌<◌, ◌≡◌, refl, ap, List, [], ◌∷◌, ◌++◌, length, length-append,
  arith,
}
use attestation_verify.Prelude.Text.{Bytes}
use attestation_verify.Rekor.Merkle.{rfc6962_node_hash}

module _ (digest : Bytes → Bytes) where
  -- `IsMth leaves root`: the Merkle Tree Hash of RFC 6962. A list of more than one leaf is cut
  -- behind the largest power of two below its length.
  pub data IsMth : List Bytes → Bytes → Type 0 where
    single : (leaf : Bytes) → IsMth (leaf ∷ []) leaf
    cut :
        {leaves : List Bytes} (k : ℕ) (xs ys : List Bytes) {l r : Bytes}
        → leaves ≡ xs ++ ys
        → length xs ≡ 2 ^ k
        → 0 < length ys
        → length ys ≤ 2 ^ k
        → IsMth xs l
        → IsMth ys r
        → IsMth leaves (rfc6962_node_hash digest l r)

  -- One level up: neighbours are hashed together, and an unpaired last node is promoted.
  unfoldable pub pair_up : List Bytes → List Bytes
  pair_up [] = []
  pair_up (x ∷ []) = x ∷ []
  pair_up (x ∷ y ∷ rest) = rfc6962_node_hash digest x y ∷ pair_up rest

  unfoldable pub reduce : ℕ → List Bytes → List Bytes
  reduce zero level = level
  reduce (suc k) level = reduce k (pair_up level)

  pub reduce_single : (k : ℕ) (x : Bytes) → reduce k (x ∷ []) ≡ x ∷ []
  unfolding reduce pair_up
  reduce_single zero x = refl
  reduce_single (suc k) x = reduce_single k x

  pair_up-append :
      (n : ℕ) (xs ys : List Bytes)
      → length xs ≡ n + n
      → pair_up (xs ++ ys) ≡ pair_up xs ++ pair_up ys
  unfolding pair_up
  pair_up-append n [] ys h = refl
  pair_up-append n (x ∷ []) ys h = absurd (omega arith)
  pair_up-append zero (x ∷ x' ∷ xs) ys h = absurd (omega arith)
  pair_up-append (suc n) (x ∷ x' ∷ xs) ys h =
      ap (◌∷◌ (rfc6962_node_hash digest x x')) (pair_up-append n xs ys (omega arith))

  length-pair_up : (n : ℕ) (xs : List Bytes) → length xs ≡ n + n → length (pair_up xs) ≡ n
  unfolding pair_up
  length-pair_up zero [] h = refl
  length-pair_up (suc n) [] h = absurd (omega arith)
  length-pair_up n (x ∷ []) h = absurd (omega arith)
  length-pair_up zero (x ∷ x' ∷ xs) h = absurd (omega arith)
  length-pair_up (suc n) (x ∷ x' ∷ xs) h = ap suc (length-pair_up n xs (omega arith))

  -- A full left part is reduced apart from the rest.
  reduce-append :
      (k : ℕ) (xs ys : List Bytes)
      → length xs ≡ 2 ^ k
      → reduce k (xs ++ ys) ≡ reduce k xs ++ reduce k ys
  unfolding reduce
  reduce-append zero xs ys h = refl
  reduce-append (suc k) xs ys h =
      let even : length xs ≡ 2 ^ k + 2 ^ k = omega (arith, pow-suc 2 k) in
      rw (pair_up-append (2 ^ k) xs ys even)
        (reduce-append k (pair_up xs) (pair_up ys) (length-pair_up (2 ^ k) xs even))

  reduce_last : (k : ℕ) (xs : List Bytes) → reduce (suc k) xs ≡ pair_up (reduce k xs)
  unfolding reduce
  reduce_last zero xs = refl
  reduce_last (suc k) xs = reduce_last k (pair_up xs)

  reduce_more :
      (k m : ℕ) (xs : List Bytes) (x : Bytes) → k ≤ m → reduce k xs ≡ x ∷ [] → reduce m xs ≡ x ∷ []
  unfolding pair_up
  reduce_more k m xs x h e =
      le_ind (λ n. reduce n xs ≡ x ∷ []) e (λ n _ ih. rw (reduce_last, ih)) m h

deeper : (j k : ℕ) → 2 ^ j < 2 ^ k → j < k
deeper j k h = elim (dec_lt j k) [
  | yes p ↦ p
  | no p ↦
      let back = pow-le-pow_right {n = 2} (omega arith) {i = k} {j = j} (omega arith) in
      absurd (omega arith)
]

module _ (digest : Bytes → Bytes) where
  IsMth-pos : {leaves : List Bytes} {root : Bytes} → IsMth digest leaves root → 0 < length leaves
  IsMth-pos (single leaf) = omega arith
  IsMth-pos (cut k xs ys e hx hy hk l r) = omega (arith, ap length e, length-append xs ys)

  -- The recursion of RFC 6962 gives the node that is left when the levels are reduced.
  pub IsMth-reduce :
      {leaves : List Bytes} {root : Bytes}
      → IsMth digest leaves root
      → (k : ℕ) → length leaves ≤ 2 ^ k
      → reduce digest k leaves ≡ root ∷ []
  unfolding pair_up
  IsMth-reduce (single leaf) k h = reduce_single digest k leaf
  IsMth-reduce (cut j xs ys {l = a} {r = b} e hx hy hj l r) k h =
      let joined : reduce digest j (xs ++ ys) ≡ a ∷ b ∷ [] =
        rw (reduce-append digest j xs ys hx, IsMth-reduce l j (omega arith), IsMth-reduce r j hj) in
      let top : reduce digest (suc j) (xs ++ ys) ≡ rfc6962_node_hash digest a b ∷ [] =
        rw (reduce_last, joined) in
      let larger : 2 ^ j < 2 ^ k = omega (arith, ap length e, length-append xs ys) in
      rw e (reduce_more digest (suc j) k (xs ++ ys) _ (deeper j k larger) top)
