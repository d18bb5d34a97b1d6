-- ===== src/Prelude/Lists.antt =====
-- Lists measured and indexed by native numbers, under the library's names.
use Prim.Native.Nat.{ℕ, zero, suc, ◌+◌, ◌-◌, min}
use mathlib.Core.Path.{◌≡◌, refl, sym, ap, ap₂, ◌∙◌}
use mathlib.Core.Logic.{inl, inr, ◌↔◌}
use mathlib.Core.Bool.{false≢true, ◌||◌}
use attestation_verify.Prelude.Tests.{Bool-cases}
use attestation_verify.Prelude.Options.{some_inj}
use mathlib.Core.Bool.{Bool, true, false}
use mathlib.Core.List.{List, [], ◌∷◌, ◌++◌}
use mathlib.Core.Option.{Option, none, some}
use native.Mathlib.Omega.{arith}

module _ {ℓ} {A : Type ℓ} where
  abbrev pub length : List A → ℕ
  length [] = 0
  length (x ∷ xs) = suc (length xs)

  abbrev pub get_elem? : List A → ℕ → Option A
  get_elem? [] i = none
  get_elem? (x ∷ xs) zero = some x
  get_elem? (x ∷ xs) (suc i) = get_elem? xs i

  abbrev pub take : ℕ → List A → List A
  take zero xs = []
  take (suc n) [] = []
  take (suc n) (x ∷ xs) = x ∷ take n xs

  abbrev pub drop : ℕ → List A → List A
  drop zero xs = xs
  drop (suc n) [] = []
  drop (suc n) (x ∷ xs) = drop n xs

  abbrev pub is_empty : List A → Bool
  is_empty [] = true
  is_empty (x ∷ xs) = false

  -- `.iter().find(p)`
  unfoldable pub find_first : (A → Bool) → List A → Option A
  find_first p [] = none
  find_first p (x ∷ xs) = elim (p x) [ true ↦ some x | false ↦ find_first p xs ]

  -- `.iter().any(p)`
  unfoldable pub any : (A → Bool) → List A → Bool
  any p [] = false
  any p (x ∷ xs) = elim (p x) [ true ↦ true | false ↦ any p xs ]

  -- `.filter(p)`
  unfoldable pub keep : (A → Bool) → List A → List A
  keep p [] = []
  keep p (x ∷ xs) = let rest = keep p xs in elim (p x) [ true ↦ x ∷ rest | false ↦ rest ]

  pub length-append : (xs ys : List A) → length (xs ++ ys) ≡ length xs + length ys
  length-append [] ys = omega arith
  length-append (x ∷ xs) ys = omega (arith, length-append xs ys)

module _ {ℓ} {A : Type ℓ} where
  pub length-take : (n : ℕ) (xs : List A) → length (take n xs) ≡ min n (length xs)
  length-take zero xs = omega arith
  length-take (suc n) [] = omega arith
  length-take (suc n) (x ∷ xs) = omega (arith, length-take n xs)

  pub length-drop : (n : ℕ) (xs : List A) → length (drop n xs) ≡ length xs - n
  length-drop zero xs = omega arith
  length-drop (suc n) [] = omega arith
  length-drop (suc n) (x ∷ xs) = omega (arith, length-drop n xs)

  pub take-append-drop : (n : ℕ) (xs : List A) → take n xs ++ drop n xs ≡ xs
  take-append-drop zero xs = refl
  take-append-drop (suc n) [] = refl
  take-append-drop (suc n) (x ∷ xs) = rw (take-append-drop n xs)

  pub take-append_left : (xs ys : List A) (n : ℕ) → length xs ≡ n → take n (xs ++ ys) ≡ xs
  take-append_left [] ys zero h = refl
  take-append_left [] ys (suc n) h = absurd (omega arith)
  take-append_left (x ∷ xs) ys zero h = absurd (omega arith)
  take-append_left (x ∷ xs) ys (suc n) h = ap (◌∷◌ x) (take-append_left xs ys n (omega arith))

  pub drop-append_left : (xs ys : List A) (n : ℕ) → length xs ≡ n → drop n (xs ++ ys) ≡ ys
  drop-append_left [] ys zero h = refl
  drop-append_left [] ys (suc n) h = absurd (omega arith)
  drop-append_left (x ∷ xs) ys zero h = absurd (omega arith)
  drop-append_left (x ∷ xs) ys (suc n) h = drop-append_left xs ys n (omega arith)

  -- Two splits of one list at the same place agree.
  pub append_inj :
      (xs xs' : List A) {ys ys' : List A}
      → length xs ≡ length xs'
      → xs ++ ys ≡ xs' ++ ys'
      → (xs ≡ xs') × (ys ≡ ys')
  append_inj [] [] h e = (refl, e)
  append_inj [] (x' ∷ xs') h e = absurd (omega arith)
  append_inj (x ∷ xs) [] h e = absurd (omega arith)
  append_inj (x ∷ xs) (x' ∷ xs') {ys} {ys'} h e =
      let tails : xs ++ ys ≡ xs' ++ ys' = cc in
      let (p, q) = append_inj xs xs' (omega arith) tails in (ap₂ ◌∷◌ (cc) p, q)

abbrev pub All {ℓ κ} : {A : Type ℓ} → (A → Type κ) → List A → Type κ
All P [] = Unit
All P (x ∷ xs) = P x × All P xs

pub All-append {ℓ κ} :
    {A : Type ℓ} (P : A → Type κ) (xs ys : List A) → All P xs → All P ys → All P (xs ++ ys)
All-append P [] ys hx hy = hy
All-append P (x ∷ xs) ys hx hy = (hx.0, All-append P xs ys hx.1 hy)

pub cons_head {ℓ} : {A : Type ℓ} {x y : A} {xs ys : List A} → x ∷ xs ≡ y ∷ ys → x ≡ y
cons_head e = cc

pub cons_tail {ℓ} : {A : Type ℓ} {x y : A} {xs ys : List A} → x ∷ xs ≡ y ∷ ys → xs ≡ ys
cons_tail e = cc

-- An element of which `p` holds.
abbrev pub Exists {ℓ κ} : {A : Type ℓ} → (A → Type κ) → List A → Type (ℓ ⊔ κ)
Exists {A} P xs = (a : A) × (i : ℕ) × (get_elem? xs i ≡ some a) × P a

module _ {ℓ} {A : Type ℓ} where
  any_cons_by :
      (p : A → Bool) (x : A) (xs : List A) (b : Bool) → p x ≡ b → any p (x ∷ xs) ≡ (b || any p xs)
  unfolding any
  any_cons_by p x xs true e = rw (e, any) refl
  any_cons_by p x xs false e = rw (e, any) refl

  pub any_cons : (p : A → Bool) (x : A) (xs : List A) → any p (x ∷ xs) ≡ (p x || any p xs)
  any_cons p x xs = any_cons_by p x xs (p x) refl

  any_none : (p : A → Bool) → ¬ (any p [] ≡ true)
  unfolding any
  any_none p h = cc

  any_split :
      (p : A → Bool) (x : A) (xs : List A)
      → (any p xs ≡ true → Exists (λ (a : A). p a ≡ true) xs)
      → (b : Bool) → p x ≡ b
      → (p x || any p xs) ≡ true
      → Exists (λ (a : A). p a ≡ true) (x ∷ xs)
  any_split p x xs ih true e h = (x, zero, refl, e)
  any_split p x xs ih false e h =
      let (a, i, found, holds) = ih (rw e at h) in (a, suc i, found, holds)

  any_join :
      (p : A → Bool) (x : A) (xs : List A)
      → (Exists (λ (a : A). p a ≡ true) xs → any p xs ≡ true)
      → (a : A) (i : ℕ) → get_elem? (x ∷ xs) i ≡ some a
      → p a ≡ true
      → (p x || any p xs) ≡ true
  any_join p x xs ih a zero found h = let here : x ≡ a = some_inj found in rw (ap p here ∙ h) refl
  any_join p x xs ih a (suc i) found h = elim (Bool-cases (p x)) [
    | inl here ↦ rw here refl
    | inr away ↦ rw away (ih (a, i, found, h))
  ]

  -- `any` finds what there is.
  pub any_iff : (p : A → Bool) (xs : List A) → (any p xs ≡ true) ↔ Exists (λ (a : A). p a ≡ true) xs
  any_iff p [] = (λ h. absurd (any_none p h), λ (a, i, found, h). absurd (cc found))
  any_iff p (x ∷ xs) =
      let ih = any_iff p xs in
      let step = any_cons p x xs in
      (
        (λ h. any_split p x xs ih.0 (p x) refl (sym step ∙ h)),
        λ (a, i, found, h). step ∙ any_join p x xs ih.1 a i found h,
      )

-- What `find_first` returns stands in the list, and passes the test.
pub find_first_sound {ℓ} :
    {A : Type ℓ} (p : A → Bool) (xs : List A) {a : A}
    → find_first p xs ≡ some a
    → Exists (λ (x : A). (x ≡ a) × (p x ≡ true)) xs
unfolding find_first
find_first_sound p [] e = absurd (cc e)
find_first_sound p (x ∷ xs) e = elim (Bool-cases (p x)) [
  | inl here ↦ (x, zero, refl, (some_inj (rw (here, find_first) at e), here))
  | inr away ↦
      let (y, i, found, same) = find_first_sound p xs (rw (away, find_first) at e) in
      (y, suc i, found, same)
]

-- It returns something where there is something.
pub find_first_complete {ℓ} :
    {A : Type ℓ} (p : A → Bool) (xs : List A) (x : A) (i : ℕ)
    → get_elem? xs i ≡ some x
    → p x ≡ true
    → (a : A) × (find_first p xs ≡ some a)
unfolding find_first
find_first_complete p [] x i at h = absurd (cc at)
find_first_complete p (y ∷ ys) x i at h = elim (Bool-cases (p y)) [
  | inl here ↦ (y, rw (here, find_first) refl)
  | inr away ↦
      rw (away, find_first) (find_first_later p y ys x i away at h (find_first_complete p ys))
]
  where
    find_first_later :
        {A : Type ℓ} (p : A → Bool) (y : A) (ys : List A) (x : A) (i : ℕ)
        → p y ≡ false
        → get_elem? (y ∷ ys) i ≡ some x
        → p x ≡ true
        → ((x : A) (i : ℕ)
            → get_elem? ys i ≡ some x
            → p x ≡ true
            → (a : A) × (find_first p ys ≡ some a))
        → (a : A) × (find_first p ys ≡ some a)
    find_first_later p y ys x zero away at h ih =
        absurd (false≢true (sym away ∙ ap p (some_inj at) ∙ h))
    find_first_later p y ys x (suc i) away at h ih = ih x i at h

-- It returns exactly the first element that passes the test.
pub find_first-eq-some {ℓ} :
    {A : Type ℓ} (p : A → Bool) (xs : List A) {a : A}
    → find_first p xs ≡ some a
    → (front : List A) × (back : List A) × (xs ≡ front ++ (a ∷ back))
      × All (λ (x : A). p x ≡ false) front
      × (p a ≡ true)
unfolding find_first
find_first-eq-some p [] e = absurd (cc e)
find_first-eq-some p (x ∷ xs) e = elim (Bool-cases (p x)) [
  | inl here ↦
      let same = some_inj (rw (here, find_first) at e) in
      ([], xs, ap (λ y. y ∷ xs) same, tt, ap p (sym same) ∙ here)
  | inr away ↦
      let (front, back, parts, passed_over, holds) =
        find_first-eq-some p xs (rw (away, find_first) at e) in
      (x ∷ front, back, ap (λ ys. x ∷ ys) parts, (away, passed_over), holds)
]

pub find_first-append {ℓ} :
    {A : Type ℓ} (p : A → Bool) (front back : List A) (a : A)
    → All (λ (x : A). p x ≡ false) front
    → p a ≡ true
    → find_first p (front ++ (a ∷ back)) ≡ some a
unfolding find_first
find_first-append p [] back a away here = rw (here, find_first) refl
find_first-append p (x ∷ front) back a (first, away) here =
    rw (first, find_first) (find_first-append p front back a away here)

pub find_first-eq-none {ℓ} :
    {A : Type ℓ} (p : A → Bool) (xs : List A)
    → (find_first p xs ≡ none) ↔ All (λ (x : A). p x ≡ false) xs
unfolding find_first
find_first-eq-none p [] = (λ e. tt, λ h. refl)
find_first-eq-none p (x ∷ xs) = (
  (λ e. elim (Bool-cases (p x)) [
    | inl here ↦ absurd (cc (rw (here, find_first) at e))
    | inr away ↦ (away, (find_first-eq-none p xs).0 (rw (away, find_first) at e))
  ]),
  λ (away, rest). rw (away, find_first) ((find_first-eq-none p xs).1 rest),
)

pub All-map {ℓ κ ι} :
    {A : Type ℓ} {P : A → Type κ} {Q : A → Type ι}
    → ((x : A) → P x → Q x)
    → (xs : List A) → All P xs
    → All Q xs
All-map f [] h = tt
All-map f (x ∷ xs) (first, rest) = (f x first, All-map f xs rest)
