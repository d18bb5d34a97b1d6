-- ===== src/PolicyMatch/Glob.antt =====
-- `glob_match` of src/policy_match.rs. A position in the pattern or the text is the suffix that
-- starts there; `star` holds the pattern behind the last `*` and the text that it was tried at.
pub mod Decides
mod Tests
use attestation_verify.Prelude.{
  ℕ, zero, suc, ◌+◌, ◌*◌, Bool, true, false, Option, none, some, [], ◌∷◌, length, ◌==◌,
  if◌then◌else◌,
}
use attestation_verify.Prelude.Text.{Text}

abbrev pub Star : Type 0
Star = Option (Text × Text)

-- the last two branches of the loop: the last `*` takes one more byte, or there is none
abbrev pub backtrack : Star → (Text → Text → Star → Option Bool) → Option Bool
backtrack none next = some false
backtrack (some (star_p, [])) next = some false
backtrack (some (star_p, _ ∷ star_t)) next = next star_p star_t (some (star_p, star_t))

-- `while p.get(pi) == Some(&b'*')` and `pi == p.len()`
unfoldable pub only_stars : Text → Bool
only_stars [] = true
only_stars (x ∷ p) = elim (x == b'*') [ true ↦ only_stars p | false ↦ false ]

-- The main loop; `none` is a model loop that ran out of fuel.
unfoldable pub glob_loop : ℕ → Text → Text → Star → Option Bool
glob_loop zero p t star = none
glob_loop (suc fuel) p [] star = some (only_stars p)
glob_loop (suc fuel) [] (c ∷ t) star = backtrack star (glob_loop fuel)
glob_loop (suc fuel) (x ∷ p) (c ∷ t) star = elim (x == b'*') [
  | true ↦ glob_loop fuel p (c ∷ t) (some (p, c ∷ t))
  | false ↦ elim (x == c) [
    | true ↦ glob_loop fuel p t star
    | false ↦ backtrack star (glob_loop fuel)
  ]
]

-- Enough fuel: between two backtracks the pattern gets shorter, and each costs a byte of the text.
abbrev pub glob_fuel : Text → Text → ℕ
glob_fuel pattern text = (length text + 1) * (length pattern + 1)

unfoldable pub glob_match : Text → Text → Bool
unfolding glob_loop only_stars
glob_match pattern text = elim (glob_loop (glob_fuel pattern text) pattern text none) [
  | none ↦ false
  | some answer ↦ answer
]
