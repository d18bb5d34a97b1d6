-- ===== src/Prelude/Text/Utf8.antt =====
-- Which bytes are UTF-8: what `String::from_utf8` accepts.
use Prim.Native.Nat.{ℕ, zero, suc}
use mathlib.Core.Bool.{Bool, true, false, ◌&&◌}
use mathlib.Core.List.{[], ◌∷◌}
use attestation_verify.Prelude.Tests.{leb, ltb, ◌==◌, if◌then◌else◌}
use attestation_verify.Prelude.Text.{Bytes}

-- What may come next: the start of a character, or a continuation byte in a range, and how many more
-- after it.
pub record Expected : Type 0 where
  pub low : ℕ
  pub high : ℕ
  pub more : ℕ

pub data Utf8State : Type 0 where
  between : Utf8State
  within : Expected → Utf8State
  malformed : Utf8State

first_byte : ℕ → Utf8State
first_byte b =
    if ltb b 0x80
    then between
    else if leb 0xC2 b && leb b 0xDF
    then within (record { low = 0x80; high = 0xBF; more = 0 })
    else if b == 0xE0
    then within (record { low = 0xA0; high = 0xBF; more = 1 })
    else if b == 0xED
    then within (record { low = 0x80; high = 0x9F; more = 1 })
    else if leb 0xE1 b && leb b 0xEF
    then within (record { low = 0x80; high = 0xBF; more = 1 })
    else if b == 0xF0
    then within (record { low = 0x90; high = 0xBF; more = 2 })
    else if leb 0xF1 b && leb b 0xF3
    then within (record { low = 0x80; high = 0xBF; more = 2 })
    else if b == 0xF4
    then within (record { low = 0x80; high = 0x8F; more = 2 })
    else malformed

after : ℕ → Utf8State
after more = elim more [
  | zero ↦ between
  | suc n ↦ within (record { low = 0x80; high = 0xBF; more = n })
]

next_byte : Utf8State → ℕ → Utf8State
unfolding first_byte after
next_byte between b = first_byte b
next_byte (within e) b = if leb e.low b && leb b e.high then after e.more else malformed
next_byte malformed b = malformed

run : Utf8State → Bytes → Utf8State
run state [] = state
run state (b ∷ s) = run (next_byte state b) s

is_between : Utf8State → Bool
is_between between = true
is_between (within e) = false
is_between malformed = false

unfoldable pub is_utf8 : Bytes → Bool
unfolding run next_byte is_between
is_utf8 s = is_between (run between s)
