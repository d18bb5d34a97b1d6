-- ===== src/ParseUtil/Accepts.antt =====
-- What the decoder of integers accepts.
use attestation_verify.Prelude.{ℕ, ◌≡◌, ◌↔◌, ◌⊎◌, inl, inr, sym, ap, ◌∷◌, ok, ok_or-eq-ok}
use attestation_verify.Prelude.Text.{Text}
use attestation_verify.Prelude.Decimal.Laws.{
  IsU64, value, parse_u64_sound, parse_u64_plus, parse_u64_digits,
}
use attestation_verify.ParseUtil.{strict_stringified_u64}

-- A stringified integer is accepted exactly when it is a nonempty run of digits of a number below
-- 2 ^ 64, alone or behind one "+", and the number is what the digits spell.
pub strict_stringified_u64_iff :
    (field s : Text) (n : ℕ)
    → (strict_stringified_u64 field s ≡ ok n)
      ↔ ((t : Text) × ((s ≡ t) ⊎ (s ≡ b'+' ∷ t)) × IsU64 t × (n ≡ value t))
unfolding strict_stringified_u64
strict_stringified_u64_iff field s n = (
  (λ e. parse_u64_sound s (ok_or-eq-ok _ _ e)),
  λ (t, e, u, v). elim e [
    | inl bare ↦ rw bare (rw (parse_u64_digits t u) (ap ok (sym v)))
    | inr plus ↦ rw plus (rw (parse_u64_plus t u) (ap ok (sym v)))
  ],
)
