-- ===== src/Prelude/BigEndian.antt =====
-- `from_be_bytes` and `to_be_bytes` of unsigned integers of any width.
use Prim.Native.Nat.{ℕ, zero, suc, ◌+◌, ◌*◌, ◌/◌, ◌%◌, ◌<◌}
use mathlib.Core.Path.{◌≡◌, refl, sym, ap, ap₂, subst, ◌∙◌}
use mathlib.Core.List.{[], ◌∷◌, ◌++◌, append-nil}
use native.Mathlib.Omega.{arith}
use attestation_verify.Prelude.Lists.{length, All}
use attestation_verify.Prelude.Text.{Bytes}

abbrev pub be_value_from : ℕ → Bytes → ℕ
be_value_from n [] = n
be_value_from n (b ∷ s) = be_value_from (n * 256 + b) s

-- `uN::from_be_bytes`
abbrev pub from_be_bytes : Bytes → ℕ
from_be_bytes s = be_value_from 0 s

unfoldable pub be_onto : ℕ → ℕ → Bytes → Bytes
be_onto zero n out = out
be_onto (suc w) n out = be_onto w (n / 256) ((n % 256) ∷ out)

-- `n.to_be_bytes()` in `w` bytes
abbrev pub to_be_bytes : ℕ → ℕ → Bytes
to_be_bytes w n = be_onto w n []

-- The number has no more than `w` bytes.
abbrev pub Fits : ℕ → ℕ → Type 0
Fits zero n = n ≡ 0
Fits (suc w) n = Fits w (n / 256)

abbrev pub IsByte : ℕ → Type 0
IsByte b = b < 256

be_value-be_onto :
    (w n : ℕ) (out : Bytes) → Fits w n → be_value_from 0 (be_onto w n out) ≡ be_value_from n out
unfolding be_onto
be_value-be_onto zero n out h = ap (λ (m : ℕ). be_value_from m out) (sym h)
be_value-be_onto (suc w) n out h =
    be_value-be_onto w (n / 256) ((n % 256) ∷ out) h
    ∙ ap (λ (m : ℕ). be_value_from m out) (omega arith)

pub from_be_bytes-to_be_bytes : (w n : ℕ) → Fits w n → from_be_bytes (to_be_bytes w n) ≡ n
from_be_bytes-to_be_bytes w n h = be_value-be_onto w n [] h

pub to_be_bytes_inj : (w m n : ℕ) → Fits w m → Fits w n → to_be_bytes w m ≡ to_be_bytes w n → m ≡ n
to_be_bytes_inj w m n h h' e =
    sym (from_be_bytes-to_be_bytes w m h) ∙ ap from_be_bytes e ∙ from_be_bytes-to_be_bytes w n h'

length-be_onto : (w n : ℕ) (out : Bytes) → length (be_onto w n out) ≡ w + length out
unfolding be_onto
length-be_onto zero n out = omega arith
length-be_onto (suc w) n out = omega (arith, length-be_onto w (n / 256) ((n % 256) ∷ out))

pub length-to_be_bytes : (w n : ℕ) → length (to_be_bytes w n) ≡ w
length-to_be_bytes w n = omega (arith, length-be_onto w n [])

-- Bytes, read as a number behind `n`, are written back behind what `n` writes.
be_onto-be_value :
    (k w n : ℕ) (s out : Bytes)
    → k ≡ w + length s
    → All IsByte s
    → be_onto k (be_value_from n s) out ≡ be_onto w n (s ++ out)
unfolding be_onto
be_onto-be_value k w n [] out size h =
    let same : k ≡ w = omega arith in ap (λ (j : ℕ). be_onto j n out) same
be_onto-be_value k w n (b ∷ s) out size (first, rest) =
    let high : (n * 256 + b) / 256 ≡ n = omega arith in
    let low : (n * 256 + b) % 256 ≡ b = omega arith in
    be_onto-be_value k (suc w) (n * 256 + b) s out (omega arith) rest
    ∙ ap₂ (λ (m c : ℕ). be_onto w m (c ∷ (s ++ out))) high low

Fits-be_value :
    (k w n : ℕ) (s : Bytes)
    → k ≡ w + length s
    → All IsByte s
    → Fits w n
    → Fits k (be_value_from n s)
Fits-be_value k w n [] size h fits =
    let same : w ≡ k = omega arith in subst (λ (j : ℕ). Fits j n) same fits
Fits-be_value k w n (b ∷ s) size (first, rest) fits =
    let high : n ≡ (n * 256 + b) / 256 = omega arith in
    Fits-be_value k (suc w) (n * 256 + b) s (omega arith) rest (subst (Fits w) high fits)

-- Bytes are the encoding, in their number of bytes, of the number that they are read as.
pub to_be_bytes-from_be_bytes :
    (w : ℕ) (s : Bytes)
    → All IsByte s
    → length s ≡ w
    → (to_be_bytes w (from_be_bytes s) ≡ s) × Fits w (from_be_bytes s)
unfolding be_onto
to_be_bytes-from_be_bytes w s h size = (
  be_onto-be_value w 0 0 s [] (omega arith) h ∙ append-nil s,
  Fits-be_value w 0 0 s (omega arith) h refl,
)
