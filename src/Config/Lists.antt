-- ===== src/Config/Lists.antt =====
-- .forgejo/scripts/config.mjs, lines 60-160: lists, KEY=VALUE pairs, platforms and switches.
use message_pusher.Base.{
  ℕ, suc, Bool, false, not, ◌&&◌, ◌||◌, List, [], ◌∷◌, map, Option, none, some, eqb, is_empty,
  filter, all, take, drop, if◌then◌else◌,
}
use message_pusher.Text.{
  Text, txt, includes, trim, split_on, split_runs, starts_with, index_of, to_lower, is_lower,
  is_digit,
}
use message_pusher.Result.{Result, ok, err, traverse, key_value_expected, bad_platform}

-- `String(value ?? '').trim()`
unfoldable pub read_optional : Option Text → Text
read_optional none = []
read_optional (some s) = trim s

-- `String(raw ?? '')`
abbrev pub or_empty : Option Text → Text
or_empty none = []
or_empty (some s) = s

-- `item !== '' && !item.startsWith('#')`
abbrev pub is_item : Text → Bool
is_item item = not (is_empty item) && not (starts_with item (txt "#"))

abbrev pub is_list_separator : ℕ → Bool
is_list_separator c = eqb c 10 || eqb c b',' || eqb c b';'

unfoldable pub split_list : Option Text → List Text
split_list raw = filter is_item (map trim (split_runs is_list_separator false (or_empty raw)))

unfoldable pub split_lines : Option Text → List Text
split_lines raw = filter is_item (map trim (split_on (λ c. eqb c 10) (or_empty raw)))

pub record KeyValue : Type 0 where
  pub key : Text
  pub value : Text

-- The text before the first `=`, trimmed, and the text after it; `index <= 0` is an error.
unfoldable pub parse_key_value : Text → Result KeyValue
parse_key_value line = elim (index_of b'=' line) [
  | none ↦ err (key_value_expected line)
  | some i ↦
      if eqb i 0
      then err (key_value_expected line)
      else ok (record { key = trim (take i line); value = drop (suc i) line })
]

unfoldable pub parse_key_values : Option Text → Result (List KeyValue)
parse_key_values raw = traverse parse_key_value (split_lines raw)

abbrev pub is_nonempty : Text → Bool
is_nonempty s = not (is_empty s)

unfoldable pub parse_variant_build_args : Text → Result (List KeyValue)
parse_variant_build_args raw =
    traverse parse_key_value (filter is_nonempty (map trim (split_on (λ c. eqb c b';') raw)))

-- `[a-z0-9]+`
unfoldable pub is_platform_part : Text → Bool
is_platform_part s = is_nonempty s && all (λ c. is_lower c || is_digit c) s

-- Two or three parts between slashes.
abbrev pub are_platform_parts : List Text → Bool
are_platform_parts (os ∷ arch ∷ []) = is_platform_part os && is_platform_part arch
are_platform_parts (os ∷ arch ∷ variant ∷ []) =
    is_platform_part os && is_platform_part arch && is_platform_part variant
are_platform_parts _ = false

unfoldable pub is_platform : Text → Bool
is_platform s = are_platform_parts (split_on (λ c. eqb c b'/') s)

unfoldable pub check_platform : Text → Result Text
check_platform item = if is_platform item then ok item else err (bad_platform item)

unfoldable pub parse_platforms : Text → Result (List Text)
parse_platforms raw =
    traverse check_platform (filter is_nonempty (map trim (split_on (λ c. eqb c b',') raw)))

-- The variant's own platforms win over those of `DOCKER_PLATFORMS`.
unfoldable pub platforms_for : List Text → List Text → List Text
platforms_for own global = if is_empty own then global else own

abbrev pub truthy_words : List Text
truthy_words = txt "1" ∷ txt "true" ∷ txt "yes" ∷ txt "on" ∷ []

unfoldable pub is_truthy : Option Text → Bool
is_truthy value = includes truthy_words (to_lower (read_optional value))
