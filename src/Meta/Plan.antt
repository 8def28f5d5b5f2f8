-- ===== src/Meta/Plan.antt =====
-- .forgejo/scripts/meta.mjs, lines 292-395: the tags of each variant, labels, the build plan and its
-- check for duplicate tags.
pub mod Names
pub mod Cover
pub mod Duplicates
use Prim.Native.String.{String}
use message_pusher.Base.{
  ℕ, Bool, true, false, not, ◌&&◌, ◌||◌, List, [], ◌∷◌, ◌++◌, map, Option, none, some, is_empty,
  filter, if◌then◌else◌,
}
use message_pusher.Text.{Text, txt, Env, ◌==◌, drop_while, join}
use message_pusher.Result.{Result, ok, err, guard, traverse, ◌>>=◌, ◌>>◌, no_tags, duplicate_tags}
use message_pusher.Config.Lists.{KeyValue, read_optional, parse_key_values}
use message_pusher.Config.Variants.{Variant}
use message_pusher.Config.Tags.{sanitize_tag_name}
use message_pusher.Config.Images.{Image, is_slash}
use message_pusher.State.{State, Build, BuildImage}
use message_pusher.Runtime.{Runtime}
use message_pusher.Meta.Expressions.{
  dedupe, assert_supported_expressions, general_expressions, semver_expressions,
}
use message_pusher.Meta.Rules.{Rule, RuleType, semver, Attrs, Flavor, parse_tag_rules, parse_flavor}
use message_pusher.Meta.RuleTag.{Ctx, short_ref, attr_or_empty}
use message_pusher.Meta.Generate.{BaseTag, generate_tags}

module _ (runtime : Runtime) where
  -- The tags that are not `latest`, with the variant's suffix.
  abbrev pub suffixed : List (BaseTag runtime) → Text → List Text
  suffixed tags suffix =
      map (λ (t : BaseTag runtime). t.name ++ suffix)
        (filter (λ (t : BaseTag runtime). not t.is_latest) tags)

  -- The list of `variantTagNames` before it is sanitized: the variant's own name comes last.
  abbrev pub wanted_names : List (BaseTag runtime) → Variant → Bool → List Text
  wanted_names tags v is_tag_event =
      (if v.is_default
        then map (λ (t : BaseTag runtime). t.name) tags ++ suffixed tags v.suffix
        else suffixed tags v.suffix)
      ++ (if is_tag_event then v.name ∷ [] else [])

  unfoldable pub variant_tag_names : List (BaseTag runtime) → Variant → Bool → Result (List Text)
  variant_tag_names tags v is_tag_event = do
    names ← traverse sanitize_tag_name (wanted_names tags v is_tag_event)
    ok (dedupe names)

-- `labels[key] = value`
unfoldable pub set_label : List KeyValue → KeyValue → List KeyValue
set_label [] new = new ∷ []
set_label (old ∷ labels) new =
    if old.key == new.key then new ∷ labels else old ∷ set_label labels new

unfoldable pub set_labels : List KeyValue → List KeyValue → List KeyValue
set_labels labels [] = labels
set_labels labels (new ∷ custom) = set_labels (set_label labels new) custom

abbrev pub label : String → Text → KeyValue
label key value = record { key = txt "org.opencontainers.image." ++ txt key; value = value }

-- `buildLabels`; `now` is the ISO text of the date.
unfoldable pub build_labels : State → List KeyValue → Text → List KeyValue
build_labels state custom now =
    let source = drop_while is_slash (state.server_url ++ (txt "/" ++ state.repo)) in
    set_labels
      (label "created" now
        ∷ label "revision" state.sha
        ∷ label "version" state.version
        ∷ label "source" source
        ∷ label "url" source
        ∷ label "title" state.repo_name
        ∷ [])
      custom

abbrev pub ctx_of : State → Ctx
ctx_of state = record {
  branch = if state.is_branch_event then short_ref state.ref_ else [];
  tag = if state.is_tag_event then state.tag else [];
  sha = state.short_sha;
  full_sha = state.sha;
  ref = state.ref_;
  is_tag_event = state.is_tag_event;
  is_branch_event = state.is_branch_event;
  is_pr_event = state.is_pr_event;
  is_prerelease = state.prerelease;
}

-- `${base}:${name}`
abbrev pub image_ref : Text → Text → Text
image_ref base name = base ++ (txt ":" ++ name)

abbrev pub image_with_tags : List Text → Image → BuildImage
image_with_tags names image = record {
  base = image.base;
  registry_id = image.registry_id;
  tags = map (image_ref image.base) names;
}

-- The entry of one variant.
abbrev pub build_of : State → List KeyValue → Variant → List Text → Build
build_of state labels v names = record {
  variant = v.name;
  suffix = v.suffix;
  dockerfile = v.dockerfile;
  target = v.target;
  is_default = v.is_default;
  build_args = v.build_args;
  platforms = v.platforms;
  tag_names = names;
  labels = labels;
  images = map (image_with_tags names) state.images;
}

module _ (runtime : Runtime) where
  unfoldable pub plan_build :
      State → List (BaseTag runtime) → List KeyValue → Variant → Result Build
  plan_build state tags labels v = do
    names ← variant_tag_names runtime tags v state.is_tag_event
    ok (build_of state labels v names)

  unfoldable pub plan_builds :
      State → List Rule → Flavor → List KeyValue → Text → Result (List Build)
  plan_builds state rules flavor custom now = do
    tags ← generate_tags runtime rules flavor (ctx_of state)
    guard (not (is_empty tags)) no_tags
    traverse (plan_build state tags (build_labels state custom now)) state.variants

-- `seen`: which variant a tag name was first met in.
abbrev pub Seen : Type 0
Seen = List (Text × Text)

unfoldable pub owner : Seen → Text → Option Text
owner [] name = none
owner ((n, v) ∷ seen) name = if n == name then some v else owner seen name

-- The inner loop of `findDuplicateTags`: what is seen, and the duplicates, after one build.
unfoldable pub scan_names : Text → Seen → List Text → Seen × List Text
scan_names variant seen [] = (seen, [])
scan_names variant seen (name ∷ names) = elim (owner seen name) [
  | none ↦ scan_names variant ((name, variant) ∷ seen) names
  | some v ↦ elim (v == variant) [
    | true ↦ scan_names variant ((name, variant) ∷ seen) names
    | false ↦ let rest = scan_names variant seen names in (rest.0, name ∷ rest.1)
  ]
]

unfoldable pub scan_builds : Seen → List Build → List Text
scan_builds seen [] = []
scan_builds seen (b ∷ builds) =
    (scan_names b.variant seen b.tag_names).1
    ++ scan_builds (scan_names b.variant seen b.tag_names).0 builds

unfoldable pub find_duplicate_tags : List Build → List Text
find_duplicate_tags builds = scan_builds [] builds

-- `orDefault`
unfoldable pub or_default : Option Text → Text → Text
or_default given fallback = elim given [
  | none ↦ fallback
  | some text ↦ if is_empty (read_optional (some text)) then fallback else text
]

abbrev pub default_tags : Text
default_tags =
    txt
      "type=ref,event=tag\ntype=semver,pattern={{version}}\ntype=semver,pattern={{major}}.{{minor}}\ntype=sha"

abbrev pub default_flavor : Text
default_flavor = txt "latest=auto"

abbrev pub space : Text
space = txt " "

abbrev pub check_pattern : RuleType → Attrs → Result (Unit {0})
check_pattern semver attrs =
    assert_supported_expressions (attr_or_empty attrs (txt "pattern")) semver_expressions
check_pattern _ attrs = ok tt

-- The expressions of one rule.
unfoldable pub check_rule : Rule → Result (Unit {0})
check_rule rule = do
  check_pattern rule.type_ rule.attrs
  assert_supported_expressions
      (join space (
        attr_or_empty rule.attrs (txt "value")
        ∷ attr_or_empty rule.attrs (txt "prefix")
        ∷ attr_or_empty rule.attrs (txt "suffix")
        ∷ []))
      general_expressions

unfoldable pub check_rules : List Rule → Result (Unit {0})
check_rules [] = ok tt
check_rules (rule ∷ rules) = do check_rule rule; check_rules rules

abbrev pub value_of : KeyValue → Text
value_of kv = kv.value

unfoldable pub compute_builds :
    Runtime → State → Option Text → Option Text → Option Text → Text → Result (List Build)
compute_builds runtime state tags_raw flavor_raw labels_raw now = do
  rules ← parse_tag_rules (or_default tags_raw default_tags)
  flavor ← parse_flavor (or_default flavor_raw default_flavor)
  check_rules rules
  assert_supported_expressions (join space (flavor.prefix ∷ flavor.suffix ∷ [])) general_expressions
  custom ← parse_key_values labels_raw
  assert_supported_expressions (join space (map value_of custom)) general_expressions
  builds ← plan_builds runtime state rules flavor custom now
  guard (is_empty (find_duplicate_tags builds)) (duplicate_tags (find_duplicate_tags builds))
  ok builds
