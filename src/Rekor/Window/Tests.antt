-- ===== src/Rekor/Window/Tests.antt =====
-- Runs of the time window, and its theorem at a concrete input.
use attestation_verify.Prelude.{◌≡◌, ◌↔◌, ◌≤◌, refl, some, ok, err}
use attestation_verify.Prelude.Int.{pos, negsuc, ◌≤ℤ◌, i64_max}
use attestation_verify.Errors.{timestamp, integrated_time_outside_certificate_validity}
use attestation_verify.Trust.{ValidityPeriod}
use attestation_verify.Rekor.Window.{
  check_time_window, check_time_window_iff, IsWithin, outside_log_key,
}

abbrev window : ValidityPeriod
window = record { start = pos 5; end = some (pos 10) }

runs :
    (check_time_window 5 window (negsuc 0) (pos 20) ≡ ok tt)
    × (check_time_window 9 window (pos 0) (pos 9) ≡ ok tt)
    × (check_time_window 10 window (pos 0) (pos 20) ≡ err outside_log_key)
    × (check_time_window 9223372036854775808 window (pos 0) (pos 20) ≡ err outside_log_key)
    × (check_time_window 9 window (pos 0) (pos 8)
        ≡ err (timestamp integrated_time_outside_certificate_validity))
unfolding check_time_window
runs = (refl, refl, refl, refl, refl)

check_time_window_iff_example :
    (check_time_window 7 window (pos 0) (pos 20) ≡ ok tt)
    ↔ ((7 ≤ i64_max) × IsWithin window (pos 7) × (pos 0 ≤ℤ pos 7) × (pos 7 ≤ℤ pos 20))
check_time_window_iff_example = check_time_window_iff 7 window (pos 0) (pos 20)
