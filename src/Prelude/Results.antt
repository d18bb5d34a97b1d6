-- ===== src/Prelude/Results.antt =====
-- `Result`, the `?` operator as the bind of a do block, and `collect` into a result.
use mathlib.Core.Path.{◌≡◌, refl}
use mathlib.Core.Option.{Option, none, some}
use mathlib.Core.Bool.{Bool, true, false}
use mathlib.Core.List.{List, [], ◌∷◌}
use mathlib.Core.Logic.{◌⊎◌, inl, inr}
use attestation_verify.Prelude.Tests.{if◌then◌else◌}

pub data Result {ℓ κ} (A : Type ℓ) (E : Type κ) : Type (ℓ ⊔ κ) where
  ok : A → Result A E
  err : E → Result A E

infixl 5 ◌>>=◌ ◌>>◌
abbrev pub ◌>>=◌ {ℓ κ ι} :
    {A : Type ℓ} {B : Type κ} {E : Type ι} → Result A E → (A → Result B E) → Result B E
ok a >>= f = f a
err e >>= f = err e

abbrev pub ◌>>◌ {κ ι} : {B : Type κ} {E : Type ι} → Result (Unit {0}) E → Result B E → Result B E
m >> k = m >>= λ _. k

abbrev pub map_err {ℓ κ ι} :
    {A : Type ℓ} {E : Type κ} {F : Type ι} → Result A E → (E → F) → Result A F
map_err (ok a) f = ok a
map_err (err e) f = err (f e)

abbrev pub ok_or {ℓ κ} : {A : Type ℓ} {E : Type κ} → Option A → E → Result A E
ok_or (some a) e = ok a
ok_or none e = err e

abbrev pub map_ok {ℓ κ ι} :
    {A : Type ℓ} {B : Type κ} {E : Type ι} → Result A E → (A → B) → Result B E
map_ok (ok a) f = ok (f a)
map_ok (err e) f = err e

-- `.iter().map(f).collect::<Result<Vec<_>, _>>()`: stops at the first error.
unfoldable pub traverse {ℓ κ ι} :
    {A : Type ℓ} {B : Type κ} {E : Type ι} → (A → Result B E) → List A → Result (List B) E
traverse f [] = ok []
traverse f (x ∷ xs) = f x >>= λ y. traverse f xs >>= λ ys. ok (y ∷ ys)

-- `.map(f).transpose()`
abbrev pub transpose {ℓ κ ι} :
    {A : Type ℓ} {B : Type κ} {E : Type ι} → Option A → (A → Result B E) → Result (Option B) E
transpose none f = ok none
transpose (some a) f = f a >>= λ b. ok (some b)

pub bind-eq-ok {ℓ κ ι} :
    {A : Type ℓ} {B : Type κ} {E : Type ι} (m : Result A E) (f : A → Result B E) {b : B}
    → (m >>= f) ≡ ok b
    → (a : A) × (m ≡ ok a) × (f a ≡ ok b)
bind-eq-ok (ok a) f h = (a, refl, h)
bind-eq-ok (err e) f h = cc

pub Result-cases {ℓ κ} :
    {A : Type ℓ} {E : Type κ} (r : Result A E) → ((a : A) × (r ≡ ok a)) ⊎ ((e : E) × (r ≡ err e))
Result-cases (ok a) = inl (a, refl)
Result-cases (err e) = inr (e, refl)

pub ok_or-eq-ok {ℓ κ} :
    {A : Type ℓ} {E : Type κ} (o : Option A) (e : E) {a : A} → ok_or o e ≡ ok a → o ≡ some a
ok_or-eq-ok (some b) e h = cc
ok_or-eq-ok none e h = cc

pub map_err-eq-ok {ℓ κ ι} :
    {A : Type ℓ} {E : Type κ} {F : Type ι} (r : Result A E) (f : E → F) {a : A}
    → map_err r f ≡ ok a
    → r ≡ ok a
map_err-eq-ok (ok b) f h = cc
map_err-eq-ok (err e) f h = cc

-- The same, handing on what the step returned.
pub passed {ℓ κ ι υ} :
    {A : Type ℓ} {B : Type κ} {E : Type ι} {C : Type υ} (m : Result A E) (f : A → Result B E)
    {b : B}
    → (m >>= f) ≡ ok b
    → ((a : A) → m ≡ ok a → f a ≡ ok b → C)
    → C
passed (ok a) f h k = k a refl h
passed (err e) f h k = absurd (cc h)

-- A guard that let the code go on did not hold.
pub refused_not {ℓ κ ι} :
    {B : Type ℓ} {E : Type κ} {C : Type ι} (test : Bool) (e : E) (k : Result B E) {b : B}
    → ((if test then err e else ok tt) >> k) ≡ ok b
    → (test ≡ false → k ≡ ok b → C)
    → C
refused_not true e k h next = absurd (cc h)
refused_not false e k h next = next refl h

-- A demand that let the code go on was met.
pub demand_met {ℓ κ ι} :
    {B : Type ℓ} {E : Type κ} {C : Type ι} (test : Bool) (e : E) (k : Result B E) {b : B}
    → ((if test then ok tt else err e) >> k) ≡ ok b
    → (test ≡ true → k ≡ ok b → C)
    → C
demand_met true e k h next = next refl h
demand_met false e k h next = absurd (cc h)

pub ok_inj {ℓ κ} : {A : Type ℓ} {E : Type κ} {a b : A} → ◌≡◌ {A = Result A E} (ok a) (ok b) → a ≡ b
ok_inj e = cc

pub err_inj {ℓ κ} :
    {A : Type ℓ} {E : Type κ} {a b : E} → ◌≡◌ {A = Result A E} (err a) (err b) → a ≡ b
err_inj e = cc

-- The same for the last step.
pub last_met {ℓ} :
    {E : Type ℓ} (test : Bool) (e : E)
    → ◌≡◌ {A = Result (Unit {0}) E} (if test then ok tt else err e) (ok tt)
    → test ≡ true
last_met true e h = refl
last_met false e h = cc

-- The same for a last guard, which let the code end well.
pub last_refused_not {ℓ} :
    {E : Type ℓ} (test : Bool) (e : E)
    → ◌≡◌ {A = Result (Unit {0}) E} (if test then err e else ok tt) (ok tt)
    → test ≡ false
last_refused_not true e h = absurd (cc h)
last_refused_not false e h = refl
