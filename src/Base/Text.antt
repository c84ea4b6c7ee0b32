-- ===== src/Base/Text.antt =====
-- Go strings. A string is the sequence that `range` yields over it: a code point for each valid
-- encoding, and 0x110000 + b for a byte b that stands in no valid encoding. Every Go string is one
-- such sequence, and the operations below cut only at code points.
pub mod Laws
use Prim.Native.Char.{code}
use Prim.Native.Nat.{ℕ, zero, suc, ◌+◌, ◌-◌, ◌≤◌, ◌<◌}
use Prim.Native.String.{String}
use mathlib.Core.Path.{◌≡◌, refl}
use mathlib.Core.Bool.{Bool, true, false, not, ◌&&◌, ◌||◌}
use mathlib.Core.Option.{Option, none, some}
use mathlib.Core.List.{List, [], ◌∷◌, ◌++◌, map}
use gopnique.Base.Tests.{ltb, leb, ◌==◌, if◌then◌else◌}
use gopnique.Base.Lists.{length, is_empty, all}

abbrev pub Text : Type 0
Text = List ℕ

-- the code points of a literal
abbrev pub codes : String → Text
codes String.[] = []
codes (String.◌∷◌ c s) = code c ∷ codes s

unfoldable pub text_eq : Text → Text → Bool
text_eq [] [] = true
text_eq [] (d ∷ t) = false
text_eq (c ∷ s) [] = false
text_eq (c ∷ s) (d ∷ t) = c == d && text_eq s t

-- `unicode.IsSpace`
unfoldable pub is_space : ℕ → Bool
is_space c =
    leb 9 c && leb c 13
    || c == 32
    || c == 0x85
    || c == 0xa0
    || c == 0x1680
    || leb 0x2000 c && leb c 0x200a
    || c == 0x2028
    || c == 0x2029
    || c == 0x202f
    || c == 0x205f
    || c == 0x3000

-- `unicode.IsControl`
unfoldable pub is_control : ℕ → Bool
is_control c = leb c 0x1f || leb 0x7f c && leb c 0x9f

unfoldable pub trim_left : Text → Text
trim_left [] = []
trim_left (c ∷ s) = let rest = trim_left s in if is_space c then rest else c ∷ s

unfoldable pub trim_right : Text → Text
trim_right [] = []
trim_right (c ∷ s) = let rest = trim_right s in if is_empty rest && is_space c then [] else c ∷ rest

-- `strings.TrimSpace`
unfoldable pub trim_space : Text → Text
trim_space s = trim_right (trim_left s)

-- `utf8.ValidString`, `utf8.RuneCountInString` is `length`
unfoldable pub valid_utf8 : Text → Bool
valid_utf8 s = all (λ c. ltb c 0x110000) s

abbrev rune_len : ℕ → ℕ
rune_len c =
    if ltb c 0x80
    then 1
    else if ltb c 0x800
    then 2
    else if ltb c 0x10000
    then 3
    else if ltb c 0x110000
    then 4
    else 1

-- `len`: the number of bytes
unfoldable pub byte_len : Text → ℕ
byte_len [] = 0
byte_len (c ∷ s) = rune_len c + byte_len s

-- `strings.ReplaceAll(s, c, "")`
unfoldable pub remove_all : ℕ → Text → Text
remove_all c [] = []
remove_all c (d ∷ s) = let rest = remove_all c s in if d == c then rest else d ∷ rest

-- `strings.ToLower`. The letters beyond ASCII go by Unicode's table, which is a parameter; a byte
-- in no valid encoding comes out as U+FFFD.
unfoldable pub to_lower : (ℕ → ℕ) → Text → Text
to_lower lower = map λ c.
    if leb b'A' c && leb c b'Z'
    then c + 32
    else if ltb c 0x80
    then c
    else if ltb c 0x110000
    then lower c
    else 0xfffd

abbrev cons_first : ℕ → List Text → List Text
cons_first c [] = (c ∷ []) ∷ []
cons_first c (p ∷ ps) = (c ∷ p) ∷ ps

-- a cut at each character that passes the test; there is always one part
unfoldable pub split_by : (ℕ → Bool) → Text → List Text
split_by p [] = [] ∷ []
split_by p (c ∷ s) = let rest = split_by p s in if p c then [] ∷ rest else cons_first c rest

-- `strings.Split` by one character
unfoldable pub split : ℕ → Text → List Text
split sep = split_by (λ c. c == sep)

abbrev keep_nonempty : List Text → List Text
keep_nonempty [] = []
keep_nonempty (p ∷ ps) = let rest = keep_nonempty ps in if is_empty p then rest else p ∷ rest

-- `strings.Fields`
unfoldable pub fields : Text → List Text
fields s = keep_nonempty (split_by is_space s)

-- `strings.Cut` at one character: the text before and behind its first occurrence
unfoldable pub cut : ℕ → Text → Option (Text × Text)
cut sep [] = none
cut sep (c ∷ s) = elim (c == sep) [
  | true ↦ some ([], s)
  | false ↦ elim (cut sep s) [ none ↦ none | some (before, after) ↦ some (c ∷ before, after) ]
]

-- `strings.Join` with one character
unfoldable pub join : ℕ → List Text → Text
join sep [] = []
join sep (p ∷ []) = p
join sep (p ∷ q ∷ ps) = p ++ sep ∷ join sep (q ∷ ps)

unfoldable pub has_prefix : Text → Text → Bool
has_prefix [] s = true
has_prefix (c ∷ p) [] = false
has_prefix (c ∷ p) (d ∷ s) = c == d && has_prefix p s

-- `strings.ContainsAny`
unfoldable pub contains_any : Text → Text → Bool
contains_any chars [] = false
contains_any chars (c ∷ s) = not (all (λ d. not (c == d)) chars) || contains_any chars s

-- `strings.HasSuffix` by one character
unfoldable pub ends_with : ℕ → Text → Bool
ends_with c [] = false
ends_with c (d ∷ []) = d == c
ends_with c (d ∷ e ∷ s) = ends_with c (e ∷ s)
