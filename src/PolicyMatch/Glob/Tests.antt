-- ===== src/PolicyMatch/Glob/Tests.antt =====
-- Runs of `glob_match`, as in the unit tests of the source, and the theorem at a concrete input.
use attestation_verify.Prelude.{◌≡◌, ◌↔◌, refl, Bool, true, false, some, none}
use attestation_verify.Prelude.Text.{codes}
use attestation_verify.PolicyMatch.Glob.{glob_match, glob_loop, glob_fuel}
use attestation_verify.PolicyMatch.Glob.Decides.{Matches, glob_match_iff}

runs :
    (glob_match (codes "refs/tags/v*") (codes "refs/tags/v1.2.3") ≡ true)
    × (glob_match (codes "refs/*/v*-rc") (codes "refs/tags/v1-rc-rc") ≡ true)
    × (glob_match (codes "refs/tags/v*") (codes "refs/heads/v1") ≡ false)
    × (glob_match (codes "*") (codes "") ≡ true)
    × (glob_match (codes "") (codes "a") ≡ false)
unfolding glob_match codes
runs = (refl, refl, refl, refl, refl)

glob_match_iff_example :
    ((b : Bool) × (glob_loop
          (glob_fuel (codes "a*b") (codes "aab"))
          (codes "a*b")
          (codes "aab")
          none
        ≡ some b))
    × ((glob_match (codes "a*b") (codes "aab") ≡ true) ↔ Matches (codes "a*b") (codes "aab"))
glob_match_iff_example = glob_match_iff (codes "a*b") (codes "aab")
