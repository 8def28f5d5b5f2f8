-- ===== src/Meta/Expressions.antt =====
-- .forgejo/scripts/meta.mjs, lines 56-80 and 155-171: the `{{…}}` expressions of rules and labels.
pub mod Dedupe
use message_pusher.Base.{
  ℕ, zero, suc, ◌+◌, ◌-◌, Bool, true, false, not, ◌&&◌, ◌||◌, List, [], ◌∷◌, ◌++◌, Option, none,
  some, eqb, is_empty, filter, length, drop, if◌then◌else◌,
}
use message_pusher.Text.{Text, txt, includes, trim, is_space, starts_with, split_on}
use message_pusher.Result.{Result, ok, err, unsupported_expressions}

-- `[^}]*`
unfoldable pub take_content : Text → Text
take_content [] = []
take_content (c ∷ s) = let rest = take_content s in if eqb c b'}' then [] else c ∷ rest

-- `/\{\{\s*([^}]*?)\s*\}\}/` at the head of a text: the captured token, and the length of the match.
unfoldable pub match_token : Text → Option (Text × ℕ)
match_token s =
    let content = take_content (drop 2 s) in
    if starts_with s (txt "{{") && starts_with (drop (length content) (drop 2 s)) (txt "}}")
    then some (trim content, length content + 4)
    else none

-- The tokens of all matches from left to right; `skip` units belong to the last match.
unfoldable pub tokens : ℕ → Text → List Text
tokens skip [] = []
tokens (suc skip) (c ∷ s) = tokens skip s
tokens zero (c ∷ s) = elim (match_token (c ∷ s)) [
  | none ↦ tokens zero s
  | some (token, size) ↦ token ∷ tokens (size - 1) s
]

-- `[...new Set(list)]`, and `filter((x, i, all) => all.indexOf(x) === i)`: first occurrences.
unfoldable pub dedupe_from : List Text → List Text → List Text
dedupe_from seen [] = []
dedupe_from seen (x ∷ xs) = elim (includes seen x) [
  | true ↦ dedupe_from seen xs
  | false ↦ x ∷ dedupe_from (x ∷ seen) xs
]

unfoldable pub dedupe : List Text → List Text
unfolding dedupe_from
dedupe xs = dedupe_from [] xs

unfoldable pub find_expressions : Text → List Text
find_expressions text = dedupe (tokens 0 text)

-- `token.split(/\s+/)[0]`
unfoldable pub first_word : Text → Text
first_word [] = []
first_word (c ∷ s) = if is_space c then [] else c ∷ first_word s

unfoldable pub unsupported : Text → List Text → List Text
unsupported text allowed =
    filter (λ token. not (includes allowed (first_word token))) (find_expressions text)

unfoldable pub assert_supported_expressions : Text → List Text → Result (Unit {0})
assert_supported_expressions text allowed =
    if is_empty (unsupported text allowed)
    then ok tt
    else err (unsupported_expressions (unsupported text allowed))

-- `text.replace(/\{\{\s*(k₁|k₂|…)\s*\}\}/g, …)`: `values` answers for the keys k₁, k₂, … alone.
abbrev pub match_key : (Text → Option Text) → Text → Option (Text × ℕ)
match_key values s = elim (match_token s) [
  | none ↦ none
  | some (token, size) ↦ elim (values token) [ none ↦ none | some v ↦ some (v, size) ]
]

unfoldable pub render : (Text → Option Text) → ℕ → Text → Text
render values skip [] = []
render values (suc skip) (c ∷ s) = render values skip s
render values zero (c ∷ s) = elim (match_key values (c ∷ s)) [
  | none ↦ c ∷ render values zero s
  | some (v, size) ↦ v ++ render values (size - 1) s
]

-- Does the expression occur?
unfoldable pub has_key : (Text → Option Text) → Text → Bool
has_key values [] = false
has_key values (c ∷ s) = elim (match_key values (c ∷ s)) [ none ↦ has_key values s | some _ ↦ true ]

abbrev pub general_expressions : List Text
general_expressions = txt "branch" ∷ txt "tag" ∷ txt "sha" ∷ []

abbrev pub semver_expressions : List Text
semver_expressions = txt "raw" ∷ txt "version" ∷ txt "major" ∷ txt "minor" ∷ txt "patch" ∷ []
