-- ===== src/Prelude/Text/Whitespace.antt =====
-- `char::is_whitespace` on UTF-8, and `trim` with it.
use Prim.Native.Nat.{ℕ, zero, suc}
use mathlib.Core.Bool.{Bool, ◌&&◌, ◌||◌}
use mathlib.Core.List.{[], ◌∷◌}
use attestation_verify.Prelude.Tests.{leb, ◌==◌, if◌then◌else◌}
use attestation_verify.Prelude.Text.{Text}

is_whitespace_1 : ℕ → Bool
is_whitespace_1 a = (leb 9 a && leb a 13) || a == b' '

-- U+0085 and U+00A0
is_whitespace_2 : ℕ → ℕ → Bool
is_whitespace_2 a b = a == 0xC2 && (b == 0x85 || b == 0xA0)

-- U+1680, U+2000 to U+200A, U+2028, U+2029, U+202F, U+205F and U+3000
is_whitespace_3 : ℕ → ℕ → ℕ → Bool
is_whitespace_3 a b c =
    (a == 0xE1 && b == 0x9A && c == 0x80)
    || (a == 0xE2 && b == 0x80 && (leb 0x80 c && leb c 0x8A || c == 0xA8 || c == 0xA9 || c == 0xAF))
    || (a == 0xE2 && b == 0x81 && c == 0x9F)
    || (a == 0xE3 && b == 0x80 && c == 0x80)

-- How many bytes of white space the text begins with: 0, or those of one character.
whitespace_width : Text → ℕ
unfolding is_whitespace_1 is_whitespace_2 is_whitespace_3
whitespace_width [] = 0
whitespace_width (a ∷ []) = if is_whitespace_1 a then 1 else 0
whitespace_width (a ∷ b ∷ []) =
    if is_whitespace_1 a then 1 else if is_whitespace_2 a b then 2 else 0
whitespace_width (a ∷ b ∷ c ∷ s) =
    if is_whitespace_1 a
    then 1
    else if is_whitespace_2 a b
    then 2
    else if is_whitespace_3 a b c
    then 3
    else 0

-- The text without its white space, where `skip` bytes are still of the last such character.
without_whitespace_from : ℕ → Text → Text
without_whitespace_from skip [] = []
without_whitespace_from (suc skip) (a ∷ s) = without_whitespace_from skip s
without_whitespace_from zero (a ∷ s) = elim (whitespace_width (a ∷ s)) [
  | zero ↦ a ∷ without_whitespace_from zero s
  | suc n ↦ without_whitespace_from n s
]

-- `s.chars().filter(|c| !c.is_whitespace()).collect()`
unfoldable pub without_whitespace : Text → Text
unfolding without_whitespace_from whitespace_width
without_whitespace s = without_whitespace_from 0 s

trim_start_from : ℕ → Text → Text
trim_start_from skip [] = []
trim_start_from (suc skip) (a ∷ s) = trim_start_from skip s
trim_start_from zero (a ∷ s) = elim (whitespace_width (a ∷ s)) [
  | zero ↦ a ∷ s
  | suc n ↦ trim_start_from n s
]

-- What is left when the white space at the end is taken away: nothing, once all of it is white space.
trim_end : Text → Text
trim_end [] = []
trim_end (a ∷ s) = elim (trim_start_from 0 (a ∷ s)) [ [] ↦ [] | b ∷ t ↦ a ∷ trim_end s ]

-- `s.trim()`
unfoldable pub trim : Text → Text
unfolding trim_start_from trim_end whitespace_width
trim s = trim_end (trim_start_from 0 s)
