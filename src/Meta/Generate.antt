-- ===== src/Meta/Generate.antt =====
-- .forgejo/scripts/meta.mjs, lines 251-290 (`generateTags`): the tag set before variant suffixes.
pub mod Laws
pub mod Sorted
use message_pusher.Base.{
  ℕ, Bool, true, false, not, ◌&&◌, ◌||◌, List, [], ◌∷◌, ◌++◌, map, Option, none, some, is_empty,
  if◌then◌else◌,
}
use message_pusher.Text.{Text, txt, ◌==◌}
use message_pusher.Result.{Result, ok, err, ◌>>=◌}
use message_pusher.Config.Tags.{sanitize_tag_name}
use message_pusher.Runtime.{Runtime}
use message_pusher.Meta.Rules.{
  Rule, RuleType, semver, ref, sha, raw, match, Attrs, attr, Flavor, Latest, auto, always, never,
}
use message_pusher.Meta.RuleTag.{Ctx, framed, event_of, rule_tag_name}

-- The table PRIORITY, for the supported types.
abbrev pub priority_of : RuleType → ℕ
priority_of semver = 900
priority_of match = 800
priority_of ref = 600
priority_of raw = 200
priority_of sha = 100

module _ (runtime : Runtime) where
  pub record BaseTag : Type 0 where
    pub name : Text
    pub priority : runtime.Number
    pub is_latest : Bool

  -- `collected.set(clean, …)`: an entry of the same name keeps its place, and is replaced unless its
  -- priority is higher.
  unfoldable pub collect : List BaseTag → BaseTag → List BaseTag
  collect [] new = new ∷ []
  collect (old ∷ tags) new =
      if old.name == new.name
      then (if runtime.num_le old.priority new.priority then new ∷ tags else old ∷ tags)
      else old ∷ collect tags new

  -- The closure `add`.
  unfoldable pub add : List BaseTag → Text → runtime.Number → Bool → Result (List BaseTag)
  add tags key priority is_latest = if is_empty key then ok tags else do
    clean ← sanitize_tag_name key
    ok (collect tags (record { name = clean; priority = priority; is_latest = is_latest }))

  abbrev pub rule_priority : Rule → runtime.Number
  rule_priority rule = elim (attr rule.attrs (txt "priority")) [
    | none ↦ runtime.number (priority_of rule.type_)
    | some text ↦ runtime.to_number text
  ]

  abbrev pub finite_or_zero : runtime.Number → runtime.Number
  finite_or_zero p = if runtime.is_finite p then p else runtime.number 0

  abbrev pub is_latest_capable : RuleType → Attrs → Bool
  is_latest_capable semver attrs = true
  is_latest_capable match attrs = true
  is_latest_capable ref attrs = event_of attrs == txt "tag"
  is_latest_capable _ attrs = false

  abbrev pub raise_latest : Option runtime.Number → runtime.Number → Option runtime.Number
  raise_latest none p = some p
  raise_latest (some q) p = some (runtime.num_max q p)

  pub record Collected : Type 0 where
    pub tags : List BaseTag
    pub latest_from : Option runtime.Number

  abbrev pub is_disabled : Attrs → Bool
  is_disabled attrs = elim (attr attrs (txt "enable")) [ none ↦ false | some v ↦ v == txt "false" ]

  -- The name that goes into the set for a rule's own name.
  abbrev pub flavored : Flavor → Attrs → Ctx → Text → Text
  flavored flavor attrs ctx name = flavor.prefix ++ (framed attrs ctx name ++ flavor.suffix)

  -- What a rule raises the priority of `latest` to.
  abbrev pub latest_after : Ctx → Collected → Rule → Option runtime.Number
  latest_after ctx c rule =
      if is_latest_capable rule.type_ rule.attrs && not ctx.is_prerelease
      then raise_latest c.latest_from (rule_priority rule)
      else c.latest_from

  -- One round of the loop over the rules, once the rule's own name is known.
  unfoldable pub add_named : Flavor → Ctx → Collected → Rule → Text → Result Collected
  add_named flavor ctx c rule name =
      let key = flavored flavor rule.attrs ctx name in
      let added : Result Collected = (do
        tags ← add c.tags key (finite_or_zero (rule_priority rule)) false
        ok (record { tags = tags; latest_from = latest_after ctx c rule })) in
      if is_empty name then ok c else added

  unfoldable pub add_rule : Flavor → Ctx → Collected → Rule → Result Collected
  add_rule flavor ctx c rule =
      let enabled : Result Collected = (do
        name ← rule_tag_name runtime rule ctx
        add_named flavor ctx c rule name) in
      if is_disabled rule.attrs then ok c else enabled

  unfoldable pub add_rules : Flavor → Ctx → Collected → List Rule → Result Collected
  add_rules flavor ctx c [] = ok c
  add_rules flavor ctx c (rule ∷ rules) = do
    next ← add_rule flavor ctx c rule
    add_rules flavor ctx next rules

  abbrev pub wants_latest : Latest → Bool
  wants_latest never = false
  wants_latest _ = true

  abbrev pub latest_name : Flavor → Text
  latest_name flavor =
      if flavor.onlatest then flavor.prefix ++ (txt "latest" ++ flavor.suffix) else txt "latest"

  unfoldable pub add_latest : Flavor → Collected → Result (List BaseTag)
  add_latest flavor c = elim c.latest_from [
    | none ↦ ok c.tags
    | some p ↦
        if wants_latest flavor.latest then add c.tags (latest_name flavor) p true else ok c.tags
  ]

  -- `b.priority - a.priority || a.name.localeCompare(b.name)` is not positive.
  abbrev pub before : BaseTag → BaseTag → Bool
  before a b =
      if runtime.num_lt b.priority a.priority
      then true
      else if runtime.num_lt a.priority b.priority
      then false
      else runtime.locale_le a.name b.name

  unfoldable pub insert_tag : BaseTag → List BaseTag → List BaseTag
  insert_tag a [] = a ∷ []
  insert_tag a (b ∷ tags) = if before a b then a ∷ b ∷ tags else b ∷ insert_tag a tags

  -- The stable sort.
  unfoldable pub sort_tags : List BaseTag → List BaseTag
  sort_tags [] = []
  sort_tags (a ∷ tags) = insert_tag a (sort_tags tags)

  unfoldable pub generate_tags : List Rule → Flavor → Ctx → Result (List BaseTag)
  generate_tags rules flavor ctx = do
    c ← add_rules flavor ctx (record { tags = []; latest_from = none }) rules
    tags ← add_latest flavor c
    ok (sort_tags tags)
