-- ===== src/Prelude/Text.antt =====
-- Byte strings, and what the code uses of Rust's `str`, `[u8]` and `char`. A `&str` is its UTF-8
-- bytes; every separator that the code searches for is ASCII, so bytes and characters agree on it.
pub mod Laws
pub mod Pieces
pub mod Whitespace
pub mod Utf8
use Prim.Native.Nat.{ℕ, zero, suc, ◌+◌, ◌-◌, ◌≤◌, ◌<◌}
use Prim.Native.Char.{code}
use Prim.Native.String.{String}
use mathlib.Core.Path.{◌≡◌, refl, ap, ap₂}
use mathlib.Core.Logic.{◌↔◌}
use mathlib.Core.Bool.{Bool, true, false, ◌&&◌, ◌||◌}
use mathlib.Core.Option.{Option, none, some}
use mathlib.Core.List.{List, [], ◌∷◌, ◌++◌, reverse}
use native.Mathlib.Omega.{arith}
use attestation_verify.Prelude.Tests.{leb, ltb, ◌==◌, if◌then◌else◌}
use attestation_verify.Prelude.Lists.{length}

abbrev pub Bytes : Type 0
Bytes = List ℕ

abbrev pub Text : Type 0
Text = List ℕ

-- A literal of the source. It is shut, so that a proof sees a name and not forty bytes.
unfoldable pub codes : String → Text
codes String.[] = []
codes (String.◌∷◌ c s) = code c ∷ codes s

-- `==` on strings and byte slices.
unfoldable pub str_eq : Text → Text → Bool
str_eq [] [] = true
str_eq (x ∷ xs) (y ∷ ys) = x == y && str_eq xs ys
str_eq _ _ = false

abbrev pub is_digit : ℕ → Bool
is_digit c = leb b'0' c && leb c b'9'

abbrev pub to_ascii_lowercase : ℕ → ℕ
to_ascii_lowercase c = if leb b'A' c && leb c b'Z' then c + 32 else c

unfoldable pub eq_ignore_ascii_case : Text → Text → Bool
eq_ignore_ascii_case [] [] = true
eq_ignore_ascii_case (x ∷ xs) (y ∷ ys) =
    to_ascii_lowercase x == to_ascii_lowercase y && eq_ignore_ascii_case xs ys
eq_ignore_ascii_case _ _ = false

-- `s.strip_prefix(p)`
unfoldable pub strip_prefix : Text → Text → Option Text
strip_prefix s [] = some s
strip_prefix [] (y ∷ p) = none
strip_prefix (x ∷ s) (y ∷ p) = elim (x == y) [ true ↦ strip_prefix s p | false ↦ none ]

-- `s.starts_with(p)`
unfoldable pub starts_with : Text → Text → Bool
starts_with s [] = true
starts_with [] (y ∷ p) = false
starts_with (x ∷ s) (y ∷ p) = x == y && starts_with s p

-- `s.contains(c)` of an ASCII character
unfoldable pub contains : Text → ℕ → Bool
contains [] c = false
contains (x ∷ s) c = x == c || contains s c

-- `s.contains(p)` of a string
unfoldable pub contains_str : Text → Text → Bool
unfolding starts_with
contains_str [] p = starts_with [] p
contains_str (x ∷ s) p = starts_with (x ∷ s) p || contains_str s p

-- `u8::is_ascii_hexdigit`
abbrev pub is_ascii_hexdigit : ℕ → Bool
is_ascii_hexdigit c = is_digit c || ((leb b'A' c && leb c b'F') || (leb b'a' c && leb c b'f'))

abbrev cons_first : ℕ → Option (Text × Text) → Option (Text × Text)
cons_first x none = none
cons_first x (some (a, b)) = some (x ∷ a, b)

-- `s.split_once(c)` of an ASCII character
unfoldable pub split_once : Text → ℕ → Option (Text × Text)
split_once [] c = none
split_once (x ∷ s) c = if x == c then some ([], s) else cons_first x (split_once s c)

-- `s.split(c)`, with the bytes read since the last separator.
split_from : Text → Text → ℕ → List Text
split_from cur [] c = cur ∷ []
split_from cur (x ∷ s) c = elim (x == c) [
  | true ↦ cur ∷ split_from [] s c
  | false ↦ split_from (cur ++ x ∷ []) s c
]

unfoldable pub split : Text → ℕ → List Text
unfolding split_from
split s c = split_from [] s c

-- `line.strip_suffix('\r')`, or the line itself
unfoldable pub chomp_cr : Text → Text
chomp_cr [] = []
chomp_cr (x ∷ []) = if x == b'\r' then [] else x ∷ []
chomp_cr (x ∷ y ∷ s) = x ∷ chomp_cr (y ∷ s)

-- `s.lines()`: a line ends with "\n" or "\r\n", and an empty piece at the end is no line. A last
-- line with no "\n" keeps its "\r".
lines_from : Text → Text → List Text
lines_from [] [] = []
lines_from (x ∷ cur) [] = (x ∷ cur) ∷ []
lines_from cur (c ∷ s) = elim (c == b'\n') [
  | true ↦ chomp_cr cur ∷ lines_from [] s
  | false ↦ lines_from (cur ++ c ∷ []) s
]

unfoldable pub lines : Text → List Text
unfolding lines_from chomp_cr
lines s = lines_from [] s

-- `s.find("\n\n")`
unfoldable pub find_blank_line : Text → Option ℕ
find_blank_line [] = none
find_blank_line (x ∷ []) = none
find_blank_line (x ∷ y ∷ s) =
    let later = find_blank_line (y ∷ s) in
    if x == b'\n' && y == b'\n' then some 0 else elim later [ none ↦ none | some i ↦ some (suc i) ]

-- `s.strip_suffix(p)`
unfoldable pub strip_suffix : Text → Text → Option Text
unfolding str_eq
strip_suffix [] p = if str_eq [] p then some [] else none
strip_suffix (x ∷ s) p =
    let rest = strip_suffix s p in
    if str_eq (x ∷ s) p then some [] else elim rest [ none ↦ none | some a ↦ some (x ∷ a) ]

-- `u8::is_ascii_whitespace`: tab, line feed, form feed, carriage return and space.
abbrev pub is_ascii_whitespace : ℕ → Bool
is_ascii_whitespace c = c == 9 || c == 10 || c == 12 || c == 13 || c == b' '

trim_ascii_start : Bytes → Bytes
trim_ascii_start [] = []
trim_ascii_start (x ∷ s) =
    let rest = trim_ascii_start s in if is_ascii_whitespace x then rest else x ∷ s

trim_ascii_end : Bytes → Bytes
trim_ascii_end [] = []
trim_ascii_end (x ∷ s) = elim (trim_ascii_end s) [
  | [] ↦ if is_ascii_whitespace x then [] else x ∷ []
  | y ∷ t ↦ x ∷ y ∷ t
]

-- `bytes.trim_ascii()`
unfoldable pub trim_ascii : Bytes → Bytes
unfolding trim_ascii_start trim_ascii_end
trim_ascii s = trim_ascii_end (trim_ascii_start s)
