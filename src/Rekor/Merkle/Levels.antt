-- ===== src/Rekor/Merkle/Levels.antt =====
-- The levels of a tree: where the nodes of a level stand on the level above.
use native.Mathlib.Nat.{pow-suc, one-le-pow}
use attestation_verify.Prelude.{
  ℕ, zero, suc, ◌+◌, ◌-◌, ◌^◌, ◌/◌, ◌≤◌, ◌<◌, ◌≡◌, refl, none, some, List, [], ◌∷◌, length,
  get_elem?, arith,
}
use attestation_verify.Prelude.Text.{Bytes}
use attestation_verify.Rekor.Merkle.{rfc6962_node_hash}
use attestation_verify.Rekor.Merkle.Tree.{pair_up}

pub get_none {ℓ} : {A : Type ℓ} (xs : List A) (i : ℕ) → length xs ≤ i → get_elem? xs i ≡ none
get_none [] i h = refl
get_none (x ∷ xs) zero h = absurd (omega arith)
get_none (x ∷ xs) (suc i) h = get_none xs i (omega arith)

pub get_lt {ℓ} :
    {A : Type ℓ} (xs : List A) (i : ℕ) {a : A} → get_elem? xs i ≡ some a → i < length xs
get_lt [] i h = cc
get_lt (x ∷ xs) zero h = omega arith
get_lt (x ∷ xs) (suc i) h = omega (arith, get_lt xs i h)

-- i doubled
unfoldable pub double : ℕ → ℕ
double zero = zero
double (suc i) = suc (suc (double i))

pub double-eq : (i : ℕ) → double i ≡ i + i
unfolding double
double-eq zero = omega arith
double-eq (suc i) = omega (arith, double-eq i)

pub get_some {ℓ} :
    {A : Type ℓ} (xs : List A) (i : ℕ) → i < length xs → (a : A) × (get_elem? xs i ≡ some a)
get_some [] i h = absurd (omega arith)
get_some (x ∷ xs) zero h = (x, refl)
get_some (x ∷ xs) (suc i) h = get_some xs i (omega arith)

pub le-pow : (n : ℕ) → n ≤ 2 ^ n
le-pow zero = omega arith
le-pow (suc n) = omega (arith, pow-suc 2 n, le-pow n, one-le-pow n 2 (omega arith))

module _ (digest : Bytes → Bytes) where
  pub pair_up-pair :
      (i : ℕ) (level : List Bytes) (a b : Bytes)
      → get_elem? level (double i) ≡ some a
      → get_elem? level (suc (double i)) ≡ some b
      → get_elem? (pair_up digest level) i ≡ some (rfc6962_node_hash digest a b)
  unfolding pair_up double
  pair_up-pair i [] a b h k = cc
  pair_up-pair zero (x ∷ []) a b h k = cc
  pair_up-pair (suc i) (x ∷ []) a b h k = cc
  pair_up-pair zero (x ∷ y ∷ level) a b h k = cc
  pair_up-pair (suc i) (x ∷ y ∷ level) a b h k = pair_up-pair i level a b h k

  -- The unpaired last node is promoted.
  pub pair_up_promotes :
      (i : ℕ) (level : List Bytes) (a : Bytes)
      → get_elem? level (double i) ≡ some a
      → length level ≡ suc (double i)
      → get_elem? (pair_up digest level) i ≡ some a
  unfolding pair_up double
  pair_up_promotes i [] a h k = cc
  pair_up_promotes zero (x ∷ []) a h k = h
  pair_up_promotes (suc i) (x ∷ []) a h k = cc
  pair_up_promotes zero (x ∷ y ∷ level) a h k = absurd (omega arith)
  pair_up_promotes (suc i) (x ∷ y ∷ level) a h k = pair_up_promotes i level a h (omega arith)

  pub length-pair_up_half :
      (last : ℕ) (level : List Bytes)
      → length level ≡ suc last
      → length (pair_up digest level) ≡ suc (last / 2)
  unfolding pair_up
  length-pair_up_half last [] h = absurd (omega arith)
  length-pair_up_half last (x ∷ []) h = omega arith
  length-pair_up_half last (x ∷ y ∷ []) h = omega arith
  length-pair_up_half last (x ∷ y ∷ z ∷ level) h =
      omega (arith, length-pair_up_half (last - 2) (z ∷ level) (omega arith))
