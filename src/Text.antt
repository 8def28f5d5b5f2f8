-- ===== src/Text.antt =====
-- JavaScript strings as lists of UTF-16 code units, and the string methods that the scripts call:
-- trim, split, join, startsWith, includes, indexOf, slice, toLowerCase.
pub mod Laws
use Prim.Native.Char.{code}
use Prim.Native.String.{String}
use message_pusher.Base.{
  ℕ, zero, suc, ◌+◌, Bool, true, false, not, ◌&&◌, ◌||◌, List, [], ◌∷◌, ◌++◌, Option, none, some,
  if◌then◌else◌, eqb, leb, is_empty, length, drop,
}

abbrev pub Text : Type 0
Text = List ℕ

-- A literal; no literal of the model lies outside the basic multilingual plane.
abbrev pub txt : String → Text
txt String.[] = []
txt (String.◌∷◌ c s) = code c ∷ txt s

-- `a === b`
infix 50 ◌==◌
unfoldable pub ◌==◌ : Text → Text → Bool
[] == [] = true
[] == (_ ∷ _) = false
(_ ∷ _) == [] = false
(a ∷ s) == (b ∷ t) = eqb a b && s == t

-- `list.includes(s)`
unfoldable pub includes : List Text → Text → Bool
unfolding ◌==◌
includes [] s = false
includes (x ∷ xs) s = x == s || includes xs s

abbrev pub in_range : ℕ → ℕ → ℕ → Bool
in_range lo hi c = leb lo c && leb c hi

-- The white space and line terminators of `trim` and of `\s`.
unfoldable pub is_space : ℕ → Bool
is_space c =
    in_range 9 13 c
    || eqb c 32
    || eqb c 160
    || eqb c 0x1680
    || in_range 0x2000 0x200a c
    || eqb c 0x2028
    || eqb c 0x2029
    || eqb c 0x202f
    || eqb c 0x205f
    || eqb c 0x3000
    || eqb c 0xfeff

-- `s.replace(/^[…]+/, '')` for a class of units
unfoldable pub drop_while : (ℕ → Bool) → Text → Text
drop_while p [] = []
drop_while p (c ∷ s) = if p c then drop_while p s else c ∷ s

-- `s.replace(/[…]+$/, '')` for a class of units
unfoldable pub drop_end_while : (ℕ → Bool) → Text → Text
drop_end_while p [] = []
drop_end_while p (c ∷ s) =
    let rest = drop_end_while p s in if p c && is_empty rest then [] else c ∷ rest

unfoldable pub trim : Text → Text
unfolding drop_while drop_end_while is_space
trim s = drop_end_while is_space (drop_while is_space s)

-- Put a unit before the first piece.
abbrev pub cons_head : ℕ → List Text → List Text
cons_head c [] = (c ∷ []) ∷ []
cons_head c (w ∷ ws) = (c ∷ w) ∷ ws

-- `s.split(c)` at every unit of a class
unfoldable pub split_on : (ℕ → Bool) → Text → List Text
split_on p [] = [] ∷ []
split_on p (c ∷ s) = let rest = split_on p s in if p c then [] ∷ rest else cons_head c rest

-- `s.split(/[…]+/)`: one cut for each run of separators; `inside` says that a run has begun
unfoldable pub split_runs : (ℕ → Bool) → Bool → Text → List Text
split_runs p inside [] = [] ∷ []
split_runs p inside (c ∷ s) = elim (p c) [
  | true ↦ let rest = split_runs p true s in if inside then rest else [] ∷ rest
  | false ↦ cons_head c (split_runs p false s)
]

-- `parts.join(sep)`
unfoldable pub join : Text → List Text → Text
join sep [] = []
join sep (x ∷ []) = x
join sep (x ∷ y ∷ xs) = x ++ sep ++ join sep (y ∷ xs)

unfoldable pub starts_with : Text → Text → Bool
starts_with s [] = true
starts_with [] (_ ∷ _) = false
starts_with (a ∷ s) (b ∷ t) = eqb a b && starts_with s t

-- `s.replace(/^…/, '')` for a fixed text
unfoldable pub strip_prefix : Text → Text → Text
unfolding starts_with
strip_prefix p s = if starts_with s p then drop (length p) s else s

-- `s.includes(c)` for one unit
unfoldable pub has_unit : ℕ → Text → Bool
has_unit u [] = false
has_unit u (c ∷ s) = eqb c u || has_unit u s

-- `s.indexOf(c)` for one unit; `none` is -1
unfoldable pub index_of : ℕ → Text → Option ℕ
index_of u [] = none
index_of u (c ∷ s) =
    if eqb c u then some 0 else elim (index_of u s) [ none ↦ none | some i ↦ some (suc i) ]

-- `s.toLowerCase()`. ASCII letters and the Kelvin sign become ASCII letters; every other unit stays
-- outside ASCII, and is left as it is.
unfoldable pub lower_unit : ℕ → ℕ
lower_unit c = if in_range b'A' b'Z' c then c + 32 else if eqb c 0x212a then b'k' else c

unfoldable pub to_lower : Text → Text
unfolding lower_unit
to_lower [] = []
to_lower (c ∷ s) = lower_unit c ∷ to_lower s

-- Character classes.
abbrev pub is_digit : ℕ → Bool
is_digit = in_range b'0' b'9'

abbrev pub is_lower : ℕ → Bool
is_lower = in_range b'a' b'z'

abbrev pub is_upper : ℕ → Bool
is_upper = in_range b'A' b'Z'

-- An environment variable that is not set is `none`, an object is its lookup.
abbrev pub Env : Type 0
Env = Text → Option Text

-- `s.endsWith(t)`
unfoldable pub ends_with : Text → Text → Bool
unfolding ◌==◌
ends_with [] t = is_empty t
ends_with (c ∷ s) t = (c ∷ s) == t || ends_with s t

-- A unit that `.` does not match in a regular expression.
abbrev pub is_line_end : ℕ → Bool
is_line_end c = eqb c 10 || eqb c 13 || eqb c 8232 || eqb c 8233

-- The longest beginning of a class of units.
unfoldable pub take_while : (ℕ → Bool) → Text → Text
take_while p [] = []
take_while p (c ∷ s) = if p c then c ∷ take_while p s else []

-- `a || b` on texts.
abbrev pub or_text : Text → Text → Text
or_text a b = if is_empty a then b else a
