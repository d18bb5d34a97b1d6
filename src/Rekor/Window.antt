-- ===== src/Rekor/Window.antt =====
-- src/rekor.rs, "5. Time window".
mod Tests
use attestation_verify.Prelude.{
  unnegated, ℕ, ◌≤◌, ◌≡◌, ◌↔◌, ◌∙◌, refl, Bool, true, false, ◌&&◌, not, Option, some, none,
  is_none_or, Result, ok, err, ◌>>=◌, ok_or, ok_or-eq-ok, if◌then◌else◌, passed, refused_not, leb,
  ltb, leb→le, le→leb, ltb→lt, lt→ltb, Bool-cases, and_true, true_and, arith, some_inj, inl, inr,
  subst, ◌>>◌,
}
use attestation_verify.Prelude.Int.{ℤ, pos, leb_ℤ, ltb_ℤ, ◌≤ℤ◌, ◌<ℤ◌, i64_max, i64_try_from}
use attestation_verify.Errors.{
  Error, timestamp, integrated_time_outside_log_key_validity,
  integrated_time_outside_certificate_validity,
}
use attestation_verify.Trust.{ValidityPeriod}

-- `start` counts, `end` does not, and no end is no bound.
abbrev pub within_window : ValidityPeriod → ℤ → Bool
within_window w t = leb_ℤ w.start t && is_none_or w.end (λ (end : ℤ). ltb_ℤ t end)

abbrev pub outside_log_key : Error
outside_log_key = timestamp integrated_time_outside_log_key_validity

unfoldable pub check_time_window : ℕ → ValidityPeriod → ℤ → ℤ → Result (Unit {0}) Error
check_time_window integrated_time log_key_valid_for leaf_not_before leaf_not_after = do
  t ← ok_or (i64_try_from integrated_time) outside_log_key
  if not (within_window log_key_valid_for t) then err outside_log_key else ok tt
  if not (leb_ℤ leaf_not_before t && leb_ℤ t leaf_not_after)
      then err (timestamp integrated_time_outside_certificate_validity)
      else ok tt

abbrev pub IsBefore : ℤ → Option ℤ → Type 0
IsBefore t none = Unit
IsBefore t (some end) = t <ℤ end

abbrev pub IsWithin : ValidityPeriod → ℤ → Type 0
IsWithin w t = (w.start ≤ℤ t) × IsBefore t w.end

IsBefore-iff :
    (t : ℤ) (end : Option ℤ) → (is_none_or end (λ (e : ℤ). ltb_ℤ t e) ≡ true) ↔ IsBefore t end
IsBefore-iff t none = (λ h. tt, λ h. refl)
IsBefore-iff t (some end) = (λ h. ltb→lt _ _ h, λ h. lt→ltb _ _ h)

pub within_window_iff : (w : ValidityPeriod) (t : ℤ) → (within_window w t ≡ true) ↔ IsWithin w t
within_window_iff w t = (
  (λ h. let (a, b) = and_true _ _ h in (leb→le _ _ a, (IsBefore-iff t w.end).0 b)),
  λ (a, b). true_and (le→leb _ _ a) ((IsBefore-iff t w.end).1 b),
)

-- A time passes exactly when it is in the log key's window, whose end is not in it, and in the
-- certificate's window, whose ends are, and is no number that i64 cannot hold.
pub check_time_window_iff :
    (n : ℕ) (w : ValidityPeriod) (from to : ℤ)
    → (check_time_window n w from to ≡ ok tt)
      ↔ ((n ≤ i64_max) × IsWithin w (pos n) × (from ≤ℤ pos n) × (pos n ≤ℤ to))
unfolding check_time_window
check_time_window_iff n w from to = elim (Bool-cases (leb n i64_max)) [
  | inl fits ↦ rw fits (
    (λ h. refused_not (not (within_window w (pos n))) _ _ h (λ inside h.
        elim (Bool-cases (leb_ℤ from (pos n) && leb_ℤ (pos n) to)) [
          | inl valid ↦
              let (a, b) = and_true _ _ valid in
              (
                leb→le _ _ fits,
                (within_window_iff w (pos n)).0 (unnegated _ inside),
                leb→le _ _ a,
                leb→le _ _ b,
              )
          | inr outside ↦ absurd (cc (rw outside at h))
        ])),
    λ (fits, inside, a, b).
        rw ((within_window_iff w (pos n)).1 inside) (rw (le→leb _ _ a) (rw (le→leb _ _ b) refl)),
  )
  | inr large ↦
      rw large ((λ h. absurd (cc h)), λ (fits, inside, a, b). absurd (cc (le→leb _ _ fits)))
]
