-- ===== src/Meta/RuleTag.antt =====
-- .forgejo/scripts/meta.mjs, lines 155-249: the tag that one rule contributes.
use message_pusher.Base.{
  ℕ, zero, suc, ◌+◌, ◌-◌, ◌*◌, Bool, true, false, not, ◌&&◌, ◌||◌, List, [], ◌∷◌, ◌++◌, Option,
  none, some, eqb, is_empty, take, drop, if◌then◌else◌,
}
use message_pusher.Text.{
  Text, txt, ◌==◌, split_on, starts_with, strip_prefix, has_unit, is_digit, drop_while, is_space,
}
use message_pusher.Result.{Result, ok, err, ◌>>=◌, bad_event, no_pattern}
use message_pusher.Runtime.{Runtime}
use message_pusher.Meta.Expressions.{render, has_key}
use message_pusher.Meta.Rules.{Rule, RuleType, semver, ref, sha, raw, match, Attrs, attr}

pub record Ctx : Type 0 where
  pub branch : Text
  pub tag : Text
  pub sha : Text
  pub full_sha : Text
  pub ref : Text
  pub is_tag_event : Bool
  pub is_branch_event : Bool
  pub is_pr_event : Bool
  pub is_prerelease : Bool

-- `attrs.key ?? ''`
abbrev pub attr_or_empty : Attrs → Text → Text
attr_or_empty attrs key = elim (attr attrs key) [ none ↦ [] | some v ↦ v ]

-- `a || b` on texts
abbrev pub or_else : Text → Text → Text
or_else a b = if is_empty a then b else a

-- The values of the general expressions.
unfoldable pub general_value : Ctx → Text → Option Text
general_value ctx key =
    if key == txt "branch"
    then some ctx.branch
    else if key == txt "tag"
    then some ctx.tag
    else if key == txt "sha"
    then some ctx.sha
    else none

unfoldable pub render_expression : Ctx → Text → Text
render_expression ctx template = render (general_value ctx) 0 template

abbrev pub is_dot : ℕ → Bool
is_dot c = eqb c b'.'

abbrev pub is_dash : ℕ → Bool
is_dash c = eqb c b'-'

-- Piece `i` of a split text, or the empty text.
abbrev pub piece : ℕ → List Text → Text
piece i [] = []
piece zero (x ∷ xs) = x
piece (suc i) (x ∷ xs) = piece i xs

-- `String(version).split('-')[0].split('.')`
unfoldable pub version_numbers : Text → List Text
version_numbers version = split_on is_dot (piece 0 (split_on is_dash version))

-- The values of the expressions in a semver pattern.
unfoldable pub semver_value : Text → Text → Text → Option Text
semver_value version whole key =
    let numbers = version_numbers version in
    if key == txt "raw"
    then some whole
    else if key == txt "version"
    then some version
    else if key == txt "major"
    then some (piece 0 numbers)
    else if key == txt "minor"
    then some (piece 1 numbers)
    else if key == txt "patch"
    then some (piece 2 numbers)
    else none

-- The expressions that a pre-release extends.
unfoldable pub whole_value : Text → Option Text
whole_value key = if key == txt "version" || key == txt "raw" then some [] else none

unfoldable pub expand_semver_pattern : Text → Text → Text → Bool → Text
expand_semver_pattern pattern version whole is_prerelease =
    let text = or_else pattern (txt "{{version}}") in
    if is_prerelease && not (has_key whole_value text)
    then []
    else render (semver_value version whole) 0 text

-- `ref.replace(/^refs\/(heads|tags)\//, '')`
unfoldable pub short_ref : Text → Text
short_ref git_ref =
    if starts_with git_ref (txt "refs/heads/")
    then drop 11 git_ref
    else if starts_with git_ref (txt "refs/tags/")
    then drop 10 git_ref
    else git_ref

-- `/^\d+/`: what follows the digits, if there is one.
unfoldable pub after_digits : Text → Option Text
after_digits [] = none
after_digits (c ∷ s) = if is_digit c then some (drop_while is_digit s) else none

-- `/^\./` behind it
abbrev pub after_dot : Option Text → Option Text
after_dot none = none
after_dot (some []) = none
after_dot (some (c ∷ s)) = if eqb c b'.' then some s else none

abbrev pub then_digits : Option Text → Option Text
then_digits none = none
then_digits (some s) = after_digits s

abbrev pub is_some : Option Text → Bool
is_some none = false
is_some (some _) = true

-- `/^\d+\.\d+\.\d+/.test(version)`
unfoldable pub has_three_numbers : Text → Bool
has_three_numbers version =
    is_some (then_digits (after_dot (then_digits (after_dot (after_digits version)))))

-- `/^\d*/`
unfoldable pub take_digits : Text → Text
take_digits [] = []
take_digits (c ∷ s) = if is_digit c then c ∷ take_digits s else []

-- `/^refs\/pull\/(\d+)\//.exec(ref)?.[1] || ''`
unfoldable pub pull_number : Text → Text
pull_number git_ref =
    let rest = drop 10 git_ref in
    let number : Text = elim (after_digits rest) [
      | none ↦ []
      | some s ↦ if starts_with s (txt "/") then take_digits rest else []
    ] in
    if starts_with git_ref (txt "refs/pull/") then number else []

unfoldable pub raw_tag : Attrs → Ctx → Text
raw_tag attrs ctx = render_expression ctx (attr_or_empty attrs (txt "value"))

-- The prefix of a rule, or its default.
abbrev pub prefix_or : Attrs → Ctx → Text → Text
prefix_or attrs ctx default = elim (attr attrs (txt "prefix")) [
  | none ↦ default
  | some p ↦ render_expression ctx p
]

unfoldable pub sha_tag : Attrs → Ctx → Text
sha_tag attrs ctx =
    let base =
      if attr_or_empty attrs (txt "format") == txt "long"
      then or_else ctx.full_sha ctx.sha
      else take 7 ctx.sha in
    prefix_or attrs ctx (txt "sha-") ++ base

-- A ref between the rule's prefix and suffix.
abbrev pub framed : Attrs → Ctx → Text → Text
framed attrs ctx name =
    render_expression ctx (attr_or_empty attrs (txt "prefix"))
    ++ (name ++ render_expression ctx (attr_or_empty attrs (txt "suffix")))

abbrev pub event_of : Attrs → Text
event_of attrs = or_else (attr_or_empty attrs (txt "event")) (txt "branch")

unfoldable pub ref_tag : Attrs → Ctx → Result Text
ref_tag attrs ctx =
    let event = event_of attrs in
    let number = pull_number ctx.ref in
    if event == txt "pr"
    then (if not ctx.is_pr_event || is_empty number
        then ok []
        else ok (prefix_or attrs ctx (txt "pr-") ++ number))
    else if event == txt "tag"
    then (if ctx.is_tag_event then ok (framed attrs ctx ctx.tag) else ok [])
    else if event == txt "branch"
    then (if ctx.is_branch_event then ok (framed attrs ctx (short_ref ctx.ref)) else ok [])
    else err (bad_event event)

-- `parseInt(text, 10)` as an index into a match: `none` for what is no index.
abbrev pub digits_value : ℕ → Text → ℕ
digits_value n [] = n
digits_value n (c ∷ s) =
    let more = digits_value (n * 10 + (c - b'0')) s in if is_digit c then more else n

abbrev pub unsigned : Text → Option ℕ
unsigned [] = none
unsigned (c ∷ s) = if is_digit c then some (digits_value 0 (c ∷ s)) else none

abbrev pub zero_only : Option ℕ → Option ℕ
zero_only none = none
zero_only (some zero) = some zero
zero_only (some (suc _)) = none

abbrev pub signed : Text → Option ℕ
signed [] = none
signed (c ∷ s) =
    if eqb c b'-'
    then zero_only (unsigned s)
    else if eqb c b'+'
    then unsigned s
    else unsigned (c ∷ s)

unfoldable pub parse_index : Text → Option ℕ
parse_index text = signed (drop_while is_space text)

-- `matched[group] ?? ''`
abbrev pub group_at : List (Option Text) → Option ℕ → Text
group_at groups none = []
group_at [] (some i) = []
group_at (g ∷ gs) (some zero) = elim g [ none ↦ [] | some t ↦ t ]
group_at (g ∷ gs) (some (suc i)) = group_at gs (some i)

-- `match[1] ?? fallback`
abbrev pub first_group : List (Option Text) → Text → Text
first_group (_ ∷ some t ∷ _) fallback = t
first_group _ fallback = fallback

-- The value that `match` and `semver` rules look at.
abbrev pub value_or_tag : Attrs → Ctx → Text
value_or_tag attrs ctx = or_else (render_expression ctx (attr_or_empty attrs (txt "value"))) ctx.tag

module _ (runtime : Runtime) where
  unfoldable pub match_tag : Attrs → Ctx → Result Text
  match_tag attrs ctx =
      let pattern = attr_or_empty attrs (txt "pattern") in
      if is_empty pattern then err no_pattern else do
        matched ← runtime.exec_regex pattern (value_or_tag attrs ctx)
        ok (elim matched [
          | none ↦ []
          | some groups ↦
              group_at groups (parse_index (or_else (attr_or_empty attrs (txt "group")) (txt "0")))
        ])

  -- The version that a semver rule reads; `none` if its `match` does not match.
  unfoldable pub semver_version : Attrs → Text → Result (Option Text)
  semver_version attrs value =
      let pattern = attr_or_empty attrs (txt "match") in
      if is_empty pattern then ok (some value) else do
        matched ← runtime.exec_regex pattern value
        ok (elim matched [ none ↦ none | some groups ↦ some (first_group groups value) ])

  unfoldable pub semver_tag : Attrs → Ctx → Result Text
  semver_tag attrs ctx = do
    let value = value_or_tag attrs ctx
    found ← semver_version attrs (strip_prefix (txt "v") value)
    ok (elim found [
      | none ↦ []
      | some version ↦
          if has_three_numbers version
          then expand_semver_pattern (attr_or_empty attrs (txt "pattern")) version value
              (has_unit b'-' version)
          else []
    ])

  abbrev pub tag_of_type : RuleType → Attrs → Ctx → Result Text
  tag_of_type raw attrs ctx = ok (raw_tag attrs ctx)
  tag_of_type sha attrs ctx = ok (sha_tag attrs ctx)
  tag_of_type ref attrs ctx = ref_tag attrs ctx
  tag_of_type match attrs ctx = match_tag attrs ctx
  tag_of_type semver attrs ctx = semver_tag attrs ctx

  unfoldable pub rule_tag_name : Rule → Ctx → Result Text
  rule_tag_name rule ctx = tag_of_type rule.type_ rule.attrs ctx
