-- ===== src/Tests/Meta.antt =====
-- Concrete plans of meta.mjs, with a runtime whose doubles are natural numbers.
use Prim.Native.Nat.{max}
use message_pusher.Base.{
  ℕ, ◌≡◌, ◌↔◌, refl, Bool, true, false, List, [], ◌∷◌, none, All, IsIn, IsDistinct, leb, ltb,
}
use message_pusher.Text.{
  Text, txt, ◌==◌, includes, trim, is_space, drop_while, drop_end_while, split_on, split_runs, join,
  starts_with, strip_prefix, has_unit, index_of, to_lower, lower_unit,
}
use message_pusher.Result.{ok, err, traverse}
use message_pusher.Runtime.{Runtime}
use message_pusher.Config.Lists.{split_lines, read_optional, parse_key_values, parse_key_value}
use message_pusher.Config.Tags.{sanitize_tag_name, collapse}
use message_pusher.Config.Tags.Laws.{IsTagName}
use message_pusher.Config.Variants.{Variant}
use message_pusher.Config.Images.{ghcr}
use message_pusher.State.{State, Build}
use message_pusher.Meta.Expressions.{
  take_content, match_token, tokens, dedupe_from, dedupe, find_expressions, first_word, unsupported,
  assert_supported_expressions, render, has_key,
}
use message_pusher.Meta.Rules.{
  Rule, ref, sha, initial_flavor, attr, rule_type, first_attrs, more_attrs, parse_rule, rule_lines,
  parse_tag_rules, key_and_value, parse_latest, parse_flags, flavor_item, flavor_items,
  parse_flavor,
}
use message_pusher.Meta.RuleTag.{
  general_value, render_expression, version_numbers, semver_value, whole_value,
  expand_semver_pattern, short_ref, after_digits, has_three_numbers, take_digits, pull_number,
  raw_tag, sha_tag, ref_tag, parse_index, match_tag, semver_version, semver_tag, rule_tag_name,
}
use message_pusher.Meta.Generate.{
  BaseTag, collect, add, add_named, add_rule, add_rules, add_latest, insert_tag, sort_tags,
  generate_tags,
}
use message_pusher.Meta.Generate.Laws.{IsTagSet, Unmarked}
use message_pusher.Meta.Generate.Sorted.{generate_tags-IsTagSet, generate_tags-prerelease}
use message_pusher.Meta.Plan.{
  ctx_of, variant_tag_names, set_label, set_labels, build_labels, plan_build, plan_builds, owner,
  scan_names, scan_builds, find_duplicate_tags, or_default, check_rule, check_rules, compute_builds,
}
use message_pusher.Meta.Plan.Duplicates.{NoSharedTag, find_duplicate_tags_iff}
use message_pusher.Meta.Plan.Names.{IsAsked, variant_tag_names_lem, compute_builds-NoSharedTag}

-- Every priority is 0 when it is read from a text, and no pattern matches.
abbrev pub toy_runtime : Runtime
toy_runtime = record {
  Number = ℕ;
  number = λ n. n;
  to_number = λ t. 0;
  is_finite = λ n. true;
  num_le = leb;
  num_lt = ltb;
  num_max = max;
  locale_le = λ a b. true;
  exec_regex = λ pattern value. ok none;
}

abbrev pub variant_of : Text → Text → Bool → Variant
variant_of name suffix is_default = record {
  name = name;
  dockerfile = txt "Dockerfile";
  target = [];
  suffix = suffix;
  is_default = is_default;
  build_args = [];
  platforms = [];
}

abbrev pub state_of : Bool → State
state_of prerelease = record {
  version = txt "1.2.3";
  tag = txt "v1.2.3";
  prerelease = prerelease;
  sha = txt "abcdef";
  short_sha = txt "abc";
  repo = txt "o/app";
  repo_name = txt "app";
  server_url = txt "https://x";
  ref_ = txt "refs/tags/v1.2.3";
  is_tag_event = true;
  is_branch_event = false;
  is_pr_event = false;
  dry_run = false;
  variants = variant_of (txt "alpine") (txt "-alpine") false ∷ variant_of (txt "slim") [] true ∷ [];
  registries = [];
  images = record { base = txt "o/app"; registry_id = ghcr; preview = false } ∷ [];
  options = record {
    context = txt ".";
    platforms = [];
    build_args = [];
    dry_run = false;
    push = true;
  };
  builds = [];
}

abbrev tag_of : Text → ℕ → Bool → BaseTag toy_runtime
tag_of name priority is_latest = record { name = name; priority = priority; is_latest = is_latest }

abbrev two_tags : List (BaseTag toy_runtime)
two_tags = tag_of (txt "1.2.3") 900 false ∷ tag_of (txt "latest") 900 true ∷ []

abbrev alpine_names : List Text
alpine_names = txt "1.2.3-alpine" ∷ txt "alpine" ∷ []

alpine_named :
    variant_tag_names toy_runtime two_tags (variant_of (txt "alpine") (txt "-alpine") false) true
    ≡ ok alpine_names
unfolding variant_tag_names traverse sanitize_tag_name collapse trim is_space drop_while
    drop_end_while dedupe dedupe_from includes ◌==◌
alpine_named = refl

variant_tag_names_lem_example :
    IsDistinct alpine_names
    × All IsTagName alpine_names
    × ((n : Text)
        → IsIn n alpine_names ↔ (
            (w : Text) × IsAsked toy_runtime two_tags
              (variant_of (txt "alpine") (txt "-alpine") false)
              true
              w
            × (sanitize_tag_name w ≡ ok n)))
variant_tag_names_lem_example =
    variant_tag_names_lem toy_runtime two_tags (variant_of (txt "alpine") (txt "-alpine") false)
      true alpine_names alpine_named

abbrev two_rules : List Rule
two_rules =
    record { type_ = ref; attrs = (txt "event", txt "tag") ∷ []; line = [] }
    ∷ record { type_ = sha; attrs = []; line = [] }
    ∷ []

abbrev final_tags : List (BaseTag toy_runtime)
final_tags =
    tag_of (txt "v1.2.3") 600 false
    ∷ tag_of (txt "latest") 600 true
    ∷ tag_of (txt "sha-abc") 100 false
    ∷ []

abbrev early_tags : List (BaseTag toy_runtime)
early_tags = tag_of (txt "v1.2.3") 600 false ∷ tag_of (txt "sha-abc") 100 false ∷ []

final_generated :
    generate_tags toy_runtime two_rules initial_flavor (ctx_of (state_of false)) ≡ ok final_tags
unfolding general_value render_expression version_numbers semver_value whole_value
    expand_semver_pattern short_ref after_digits has_three_numbers take_digits pull_number raw_tag
    sha_tag ref_tag parse_index match_tag semver_version semver_tag rule_tag_name attr collect add
    add_named add_rule add_rules add_latest insert_tag sort_tags generate_tags take_content
    match_token tokens dedupe_from dedupe find_expressions first_word unsupported
    assert_supported_expressions render has_key ◌==◌ includes trim is_space drop_while
    drop_end_while split_on split_runs join starts_with strip_prefix has_unit index_of to_lower
    lower_unit sanitize_tag_name collapse
final_generated = refl

early_generated :
    generate_tags toy_runtime two_rules initial_flavor (ctx_of (state_of true)) ≡ ok early_tags
unfolding general_value render_expression version_numbers semver_value whole_value
    expand_semver_pattern short_ref after_digits has_three_numbers take_digits pull_number raw_tag
    sha_tag ref_tag parse_index match_tag semver_version semver_tag rule_tag_name attr collect add
    add_named add_rule add_rules add_latest insert_tag sort_tags generate_tags take_content
    match_token tokens dedupe_from dedupe find_expressions first_word unsupported
    assert_supported_expressions render has_key ◌==◌ includes trim is_space drop_while
    drop_end_while split_on split_runs join starts_with strip_prefix has_unit index_of to_lower
    lower_unit sanitize_tag_name collapse
early_generated = refl

generate_tags-IsTagSet_example : IsTagSet toy_runtime final_tags
generate_tags-IsTagSet_example =
    generate_tags-IsTagSet toy_runtime two_rules initial_flavor (ctx_of (state_of false)) final_tags
      final_generated

generate_tags-prerelease_example : All (Unmarked toy_runtime) early_tags
generate_tags-prerelease_example =
    generate_tags-prerelease toy_runtime two_rules initial_flavor (ctx_of (state_of true))
      early_tags refl early_generated

abbrev planned : List Build
planned = elim (compute_builds toy_runtime (state_of false) none none none (txt "now")) [
  | ok builds ↦ builds
  | err e ↦ []
]

default_planned :
    compute_builds toy_runtime (state_of false) none none none (txt "now") ≡ ok planned
unfolding take_content match_token tokens dedupe_from dedupe find_expressions first_word unsupported
    assert_supported_expressions render has_key attr rule_type first_attrs more_attrs parse_rule
    rule_lines parse_tag_rules key_and_value parse_latest parse_flags flavor_item flavor_items
    parse_flavor general_value render_expression version_numbers semver_value whole_value
    expand_semver_pattern short_ref after_digits has_three_numbers take_digits pull_number raw_tag
    sha_tag ref_tag parse_index match_tag semver_version semver_tag rule_tag_name collect add
    add_named add_rule add_rules add_latest insert_tag sort_tags generate_tags variant_tag_names
    set_label set_labels build_labels plan_build plan_builds owner scan_names scan_builds
    find_duplicate_tags or_default check_rule check_rules compute_builds ◌==◌ includes trim is_space
    drop_while drop_end_while split_on split_runs join starts_with strip_prefix has_unit index_of
    to_lower lower_unit traverse split_lines read_optional parse_key_values parse_key_value
    sanitize_tag_name collapse
default_planned = refl

compute_builds-NoSharedTag_example : NoSharedTag planned
compute_builds-NoSharedTag_example =
    compute_builds-NoSharedTag toy_runtime (state_of false) none none none (txt "now") planned
      default_planned

find_duplicate_tags_iff_example : (find_duplicate_tags planned ≡ []) ↔ NoSharedTag planned
find_duplicate_tags_iff_example = find_duplicate_tags_iff planned
