-- ===== src/Tests/Checked.antt =====
-- A release from a passed preflight to its final tags.
use message_pusher.Base.{◌≡◌, refl, true, List, []}
use message_pusher.Text.{
  txt, ◌==◌, includes, trim, is_space, drop_while, drop_end_while, split_on, split_runs, join,
  starts_with, strip_prefix, has_unit, index_of, to_lower, lower_unit,
}
use message_pusher.Result.{ok, traverse, err}
use message_pusher.Config.Lists.{
  split_lines, read_optional, parse_key_values, parse_key_value, is_truthy, platforms_for,
}
use message_pusher.Config.Tags.{sanitize_tag_name, collapse, staging_tag_name}
use message_pusher.State.{State, Build}
use message_pusher.Meta.Expressions.{
  take_content, match_token, tokens, dedupe_from, dedupe, find_expressions, first_word, unsupported,
  assert_supported_expressions, render, has_key,
}
use message_pusher.Meta.Rules.{
  attr, rule_type, first_attrs, more_attrs, parse_rule, rule_lines, parse_tag_rules, key_and_value,
  parse_latest, parse_flags, flavor_item, flavor_items, parse_flavor,
}
use message_pusher.Meta.RuleTag.{
  general_value, render_expression, version_numbers, semver_value, whole_value,
  expand_semver_pattern, short_ref, after_digits, has_three_numbers, take_digits, pull_number,
  raw_tag, sha_tag, ref_tag, parse_index, match_tag, semver_version, semver_tag, rule_tag_name,
}
use message_pusher.Meta.Generate.{
  collect, add, add_named, add_rule, add_rules, add_latest, insert_tag, sort_tags, generate_tags,
}
use message_pusher.Meta.Plan.{
  variant_tag_names, set_label, set_labels, build_labels, plan_build, plan_builds, owner,
  scan_names, scan_builds, find_duplicate_tags, or_default, check_rule, check_rules, compute_builds,
}
use message_pusher.Preflight.{planned}
use message_pusher.Staging.{staging_refs_for}
use message_pusher.Docker.{Session, run_docker, ref_exists, exit_status}
use message_pusher.Publish.{
  Promotion, source_of, image_promotions, promotions, publish_plan, publish_main,
}
use message_pusher.BuildPush.{
  build_push_main, build_push_run, build_all, build_staged, build_one, staging_complete,
  every_exists, needs_builder, remove_builder, buildx_argv, label_args, proxies_from, set_arg,
  set_args, has_arg, add_missing, effective_build_args, buildx_create_argv,
}
use message_pusher.Pipeline.{staged}
use message_pusher.Tests.Scripts.{full_machine, joined, unset, ready, reachable, no_errors}
use message_pusher.Tests.Meta.{toy_runtime}
use message_pusher.Tests.Toy.{toy, toy_run, toy_laws, toy_push_laws, toy_create}
use message_pusher.Pipeline.Checked.{IsReleased, published_session, with_builds, release_checked}

abbrev ready_builds : List Build
ready_builds = elim (planned toy_runtime ready unset (txt "later")) [
  | ok builds ↦ builds
  | err e ↦ []
]

abbrev ready_plan : List Promotion
ready_plan =
    elim (publish_plan (
      with_builds toy toy_laws toy_push_laws unset (txt "/tmp") (txt "pid") toy_runtime ready
        ready_builds)) [ ok plan ↦ plan | err e ↦ [] ]

abbrev fresh : Session toy
fresh = record { world = []; calls = [] }

abbrev built_state : State
built_state =
    with_builds toy toy_laws toy_push_laws unset (txt "/tmp") (txt "pid") toy_runtime ready
      ready_builds

builds_made : planned toy_runtime ready unset (txt "later") ≡ ok ready_builds
unfolding take_content match_token tokens dedupe_from dedupe find_expressions first_word unsupported
    assert_supported_expressions render has_key attr rule_type first_attrs more_attrs parse_rule
    rule_lines parse_tag_rules key_and_value parse_latest parse_flags flavor_item flavor_items
    parse_flavor general_value render_expression version_numbers semver_value whole_value
    expand_semver_pattern short_ref after_digits has_three_numbers take_digits pull_number raw_tag
    sha_tag ref_tag parse_index match_tag semver_version semver_tag rule_tag_name collect add
    add_named add_rule add_rules add_latest insert_tag sort_tags generate_tags variant_tag_names
    set_label set_labels build_labels plan_build plan_builds owner scan_names scan_builds
    find_duplicate_tags or_default check_rule check_rules compute_builds ◌==◌ includes trim is_space
    drop_while drop_end_while split_on split_runs join starts_with strip_prefix has_unit index_of
    to_lower lower_unit traverse split_lines read_optional parse_key_values parse_key_value
    sanitize_tag_name collapse
builds_made = refl

plan_made : publish_plan built_state ≡ ok ready_plan
unfolding take_content match_token tokens dedupe_from dedupe find_expressions first_word unsupported
    assert_supported_expressions render has_key attr rule_type first_attrs more_attrs parse_rule
    rule_lines parse_tag_rules key_and_value parse_latest parse_flags flavor_item flavor_items
    parse_flavor general_value render_expression version_numbers semver_value whole_value
    expand_semver_pattern short_ref after_digits has_three_numbers take_digits pull_number raw_tag
    sha_tag ref_tag parse_index match_tag semver_version semver_tag rule_tag_name collect add
    add_named add_rule add_rules add_latest insert_tag sort_tags generate_tags variant_tag_names
    set_label set_labels build_labels plan_build plan_builds owner scan_names scan_builds
    find_duplicate_tags or_default check_rule check_rules compute_builds ◌==◌ includes trim is_space
    drop_while drop_end_while split_on split_runs join starts_with strip_prefix has_unit index_of
    to_lower lower_unit traverse split_lines read_optional parse_key_values parse_key_value
    sanitize_tag_name collapse publish_plan promotions staging_refs_for staging_tag_name
    image_promotions source_of
plan_made = refl

all_built : (build_push_main toy unset true (txt "/tmp") (txt "pid") built_state fresh).code ≡ 0
unfolding take_content match_token tokens dedupe_from dedupe find_expressions first_word unsupported
    assert_supported_expressions render has_key attr rule_type first_attrs more_attrs parse_rule
    rule_lines parse_tag_rules key_and_value parse_latest parse_flags flavor_item flavor_items
    parse_flavor general_value render_expression version_numbers semver_value whole_value
    expand_semver_pattern short_ref after_digits has_three_numbers take_digits pull_number raw_tag
    sha_tag ref_tag parse_index match_tag semver_version semver_tag rule_tag_name collect add
    add_named add_rule add_rules add_latest insert_tag sort_tags generate_tags variant_tag_names
    set_label set_labels build_labels plan_build plan_builds owner scan_names scan_builds
    find_duplicate_tags or_default check_rule check_rules compute_builds ◌==◌ includes trim is_space
    drop_while drop_end_while split_on split_runs join starts_with strip_prefix has_unit index_of
    to_lower lower_unit traverse split_lines read_optional parse_key_values parse_key_value
    sanitize_tag_name collapse build_push_main build_push_run needs_builder platforms_for
    buildx_create_argv proxies_from run_docker toy_run exit_status build_all staging_refs_for
    staging_tag_name build_staged staging_complete every_exists ref_exists is_truthy build_one
    buildx_argv label_args set_arg set_args has_arg add_missing effective_build_args remove_builder
all_built = refl

release_checked_example :
    ((publish_main toy (txt "/tmp") built_state (
        staged toy toy_laws toy_push_laws unset
          (txt "/tmp")
          (txt "pid")
          built_state
          true
          fresh)).code
      ≡ 0)
    × IsReleased toy toy_laws toy_push_laws unset
        (txt "/tmp")
        (txt "pid")
        toy_runtime
        ready
        ready_builds
        (published_session toy toy_laws toy_push_laws unset
          (txt "/tmp")
          (txt "pid")
          toy_runtime
          ready
          true
          ready_builds
          fresh)
release_checked_example =
    release_checked toy toy_laws toy_push_laws unset (txt "/tmp") (txt "pid") toy_runtime ready
      full_machine joined reachable 0 true fresh ready_builds (txt "now") (txt "later") toy_create
      no_errors refl refl (λ e. cc) builds_made all_built
