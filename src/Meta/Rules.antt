-- ===== src/Meta/Rules.antt =====
-- .forgejo/scripts/meta.mjs, lines 82-153: the rules of DOCKER_META_TAGS and DOCKER_META_FLAVOR.
use message_pusher.Base.{
  ℕ, suc, Bool, true, false, not, ◌||◌, List, [], ◌∷◌, map, Option, none, some, eqb, is_empty,
  filter, take, drop, if◌then◌else◌,
}
use message_pusher.Text.{
  Text, txt, ◌==◌, includes, trim, split_on, split_runs, starts_with, index_of,
}
use message_pusher.Result.{
  Result, ok, err, guard, traverse, ◌>>=◌, ◌>>◌, key_value_expected, no_tag_rules, unsupported_type,
  unknown_type, bad_enable, bad_latest, bad_flavor_flag, unknown_flavor,
}
use message_pusher.Config.Lists.{is_item}

pub data RuleType : Type 0 where
  semver ref sha raw match : RuleType

-- The attributes of a rule: the pair that was assigned last stands first.
abbrev pub Attrs : Type 0
Attrs = List (Text × Text)

-- `attrs[key]`
unfoldable pub attr : Attrs → Text → Option Text
attr [] key = none
attr ((k, v) ∷ rest) key = if k == key then some v else attr rest key

pub record Rule : Type 0 where
  pub type_ : RuleType
  pub attrs : Attrs
  pub line : Text

-- `attrs.type || 'raw'` and the two checks of the type
unfoldable pub rule_type : Option Text → Result RuleType
rule_type none = ok raw
rule_type (some t) =
    if is_empty t || t == txt "raw"
    then ok raw
    else if t == txt "semver"
    then ok semver
    else if t == txt "ref"
    then ok ref
    else if t == txt "sha"
    then ok sha
    else if t == txt "match"
    then ok match
    else if includes (txt "schedule" ∷ txt "pep440" ∷ txt "edge" ∷ []) t
    then err (unsupported_type t)
    else err (unknown_type t)

-- The first segment of a rule.
unfoldable pub first_attrs : Text → Attrs
first_attrs first =
    if starts_with first (txt "type=")
    then (txt "type", trim (drop 5 first)) ∷ []
    else elim (index_of b'=' first) [
      | some i ↦ (trim (take i first), trim (drop (suc i) first)) ∷ []
      | none ↦ (txt "value", first) ∷ (txt "type", txt "raw") ∷ []
    ]

-- The other segments.
unfoldable pub more_attrs : Attrs → List Text → Result Attrs
more_attrs attrs [] = ok attrs
more_attrs attrs (part ∷ parts) = elim (index_of b'=' part) [
  | none ↦ err (key_value_expected part)
  | some i ↦
      let rest = more_attrs ((trim (take i part), trim (drop (suc i) part)) ∷ attrs) parts in
      if eqb i 0 then err (key_value_expected part) else rest
]

abbrev pub is_enable_value : Option Text → Bool
is_enable_value none = true
is_enable_value (some v) = includes ([] ∷ txt "true" ∷ txt "false" ∷ []) v

abbrev pub head_and_tail : List Text → Text × List Text
head_and_tail [] = ([], [])
head_and_tail (x ∷ xs) = (x, xs)

unfoldable pub parse_rule : Text → Result Rule
parse_rule line = do
  let parts = head_and_tail (split_on (λ c. eqb c b',') line)
  attrs ← more_attrs (first_attrs (trim parts.0)) parts.1
  type_ ← rule_type (attr attrs (txt "type"))
  guard (is_enable_value (attr attrs (txt "enable"))) (bad_enable line)
  ok (record { type_ = type_; attrs = attrs; line = line })

abbrev pub is_rule_separator : ℕ → Bool
is_rule_separator c = eqb c 10 || eqb c b';'

-- The lines of a rule text that say something.
unfoldable pub rule_lines : Text → List Text
rule_lines text = filter is_item (map trim (split_runs is_rule_separator false text))

unfoldable pub parse_tag_rules : Text → Result (List Rule)
parse_tag_rules text = do
  guard (not (is_empty (rule_lines text))) no_tag_rules
  traverse parse_rule (rule_lines text)

pub data Latest : Type 0 where
  auto always never : Latest

pub record Flavor : Type 0 where
  pub latest : Latest
  pub prefix : Text
  pub suffix : Text
  pub onlatest : Bool

abbrev pub initial_flavor : Flavor
initial_flavor = record { latest = auto; prefix = []; suffix = []; onlatest = false }

-- `[key, value]` of an item at its first `=`; without one the value is empty.
unfoldable pub key_and_value : Text → Text × Text
key_and_value item = elim (index_of b'=' item) [
  | none ↦ (trim item, [])
  | some i ↦ (trim (take i item), trim (drop (suc i) item))
]

unfoldable pub parse_latest : Text → Result Latest
parse_latest value =
    if value == txt "auto"
    then ok auto
    else if value == txt "true"
    then ok always
    else if value == txt "false"
    then ok never
    else err (bad_latest value)

-- The flags behind `prefix=…,` and `suffix=…,`; only `onlatest` is one.
unfoldable pub parse_flags : Bool → List Text → Result Bool
parse_flags onlatest [] = ok onlatest
parse_flags onlatest (flag ∷ flags) =
    let (key, value) = key_and_value flag in
    let rest = parse_flags (value == txt "true") flags in
    if key == txt "onlatest" then rest else err (bad_flavor_flag key)

-- One item of DOCKER_META_FLAVOR.
unfoldable pub flavor_item : Flavor → Text → Result Flavor
flavor_item flavor item =
    let (key, value) = key_and_value item in
    let parts = head_and_tail (split_on (λ c. eqb c b',') value) in
    let latest : Result Flavor = (do l ← parse_latest value; ok (record flavor { latest = l })) in
    let prefix : Result Flavor = (do
      on ← parse_flags flavor.onlatest parts.1
      ok (record flavor { prefix = trim parts.0; onlatest = on })) in
    let suffix : Result Flavor = (do
      on ← parse_flags flavor.onlatest parts.1
      ok (record flavor { suffix = trim parts.0; onlatest = on })) in
    if key == txt "latest"
    then latest
    else if key == txt "prefix"
    then prefix
    else if key == txt "suffix"
    then suffix
    else if key == txt "onlatest"
    then ok (record flavor { onlatest = value == txt "true" })
    else err (unknown_flavor key)

unfoldable pub flavor_items : Flavor → List Text → Result Flavor
flavor_items flavor [] = ok flavor
flavor_items flavor (item ∷ items) = do next ← flavor_item flavor item; flavor_items next items

unfoldable pub parse_flavor : Text → Result Flavor
parse_flavor text = flavor_items initial_flavor (rule_lines text)
