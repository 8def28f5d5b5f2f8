-- ===== src/Tests/Scripts.antt =====
-- A preflight that passes, a checkout with one Action in it, and a dispatch.
use message_pusher.Base.{
  ◌≡◌, ◌≢◌, ◌⊎◌, ◌↔◌, refl, true, false, [], ◌∷◌, ◌++◌, none, some, is_empty, All, IsIn, inl, inr,
  if◌then◌else◌,
}
use message_pusher.Text.{
  Text, txt, Env, ◌==◌, includes, trim, is_space, drop_while, drop_end_while, split_on, split_runs,
  join, starts_with, ends_with, strip_prefix, has_unit, index_of, to_lower, lower_unit,
}
use message_pusher.Text.Laws.{ne_of_==}
use message_pusher.Result.{ok, traverse}
use message_pusher.Config.Lists.{split_lines, read_optional, parse_key_values, parse_key_value}
use message_pusher.Config.Tags.{sanitize_tag_name, collapse}
use message_pusher.Config.Images.{ghcr}
use message_pusher.Paths.{Paths}
use message_pusher.Machine.{Machine}
use message_pusher.State.{State}
use message_pusher.Endpoints.{DockerProbe}
use message_pusher.Meta.Expressions.{
  take_content, match_token, tokens, dedupe_from, dedupe, find_expressions, first_word, unsupported,
  assert_supported_expressions, render, has_key,
}
use message_pusher.Meta.Rules.{
  attr, rule_type, first_attrs, more_attrs, parse_rule, rule_lines, parse_tag_rules, key_and_value,
  parse_latest, parse_flags, flavor_item, flavor_items, parse_flavor,
}
use message_pusher.Meta.RuleTag.{
  general_value, render_expression, version_numbers, semver_value, whole_value,
  expand_semver_pattern, short_ref, after_digits, has_three_numbers, take_digits, pull_number,
  raw_tag, sha_tag, ref_tag, parse_index, match_tag, semver_version, semver_tag, rule_tag_name,
}
use message_pusher.Meta.Generate.{
  collect, add, add_named, add_rule, add_rules, add_latest, insert_tag, sort_tags, generate_tags,
}
use message_pusher.Meta.Plan.{
  variant_tag_names, set_label, set_labels, build_labels, plan_build, plan_builds, owner,
  scan_names, scan_builds, find_duplicate_tags, or_default, check_rule, check_rules, compute_builds,
}
use message_pusher.Preflight.{
  preflight_checks, registry_findings, docker_findings, missing_dockerfiles, planned,
  dockerfile_path, is_publish_only, enabled_of,
}
use message_pusher.Preflight.Passed.{preflight_checks_pass}
use message_pusher.Locate.{Entry, FileSystem, find_forgejo_dirs}
use message_pusher.Locate.Search.{IsNear, find_forgejo_dirs_iff}
use message_pusher.Run.{
  Process, Spawn, runs, exits, subcommands, dispatch, verify_action, action_dir, script_path,
  workspace_dir,
}
use message_pusher.Run.Complete.{dispatch_complete}
use message_pusher.Tests.Meta.{toy_runtime, state_of}
use message_pusher.Tests.Prepare.{small_machine}

-- Every file is there.
abbrev pub full_machine : Machine
full_machine = record small_machine { exists = λ w path. true }

abbrev pub joined : Paths
joined = record {
  join_path = λ a b. a ++ (txt "/" ++ b);
  resolve_path = λ a. a;
  dirname = λ a. [];
  is_absolute = λ a. starts_with a (txt "/");
}

abbrev pub unset : Env
unset name = none

abbrev pub ready : State
ready = record (state_of false) {
  registries =
      record {
        id = ghcr;
        registry = txt "ghcr.io";
        token_var = txt "GHCR_TOKEN";
        user = txt "me";
        namespace = txt "me";
        enabled = true;
      }
      ∷ [];
}

abbrev pub reachable : DockerProbe
reachable = record {
  cli = true;
  daemon = true;
  buildx = true;
  server = txt "27";
  host = [];
  socket_path = txt "/var/run/docker.sock";
  socket_present = some true;
}

pub no_errors :
    (preflight_checks full_machine joined toy_runtime ready unset reachable (txt "now") 0).1.errors
    ≡ []
unfolding preflight_checks registry_findings docker_findings missing_dockerfiles take_content
    match_token tokens dedupe_from dedupe find_expressions first_word unsupported
    assert_supported_expressions render has_key attr rule_type first_attrs more_attrs parse_rule
    rule_lines parse_tag_rules key_and_value parse_latest parse_flags flavor_item flavor_items
    parse_flavor general_value render_expression version_numbers semver_value whole_value
    expand_semver_pattern short_ref after_digits has_three_numbers take_digits pull_number raw_tag
    sha_tag ref_tag parse_index match_tag semver_version semver_tag rule_tag_name collect add
    add_named add_rule add_rules add_latest insert_tag sort_tags generate_tags variant_tag_names
    set_label set_labels build_labels plan_build plan_builds owner scan_names scan_builds
    find_duplicate_tags or_default check_rule check_rules compute_builds ◌==◌ includes trim is_space
    drop_while drop_end_while split_on split_runs join starts_with strip_prefix has_unit index_of
    to_lower lower_unit traverse split_lines read_optional parse_key_values parse_key_value
    sanitize_tag_name collapse
no_errors = refl

preflight_checks_pass_example :
    let checked =
      (preflight_checks full_machine joined toy_runtime ready unset reachable (txt "now") 0).1 in
    (planned toy_runtime ready unset (txt "now") ≡ ok checked.builds)
    × All (λ b. full_machine.exists 0 (dockerfile_path joined (txt ".") b) ≡ true) checked.builds
    × (true ≡ true)
    × (true ≡ true)
    × ((is_publish_only unset ≡ true) ⊎ (true ≡ true))
    × ((false ≡ true) ⊎ ((is_empty (enabled_of ready) ≡ false) × (is_empty ready.images ≡ false)))
preflight_checks_pass_example =
    preflight_checks_pass full_machine joined toy_runtime ready unset reachable (txt "now") 0
      no_errors

abbrev sub : Text → Entry
sub name = record { name = name; is_directory = true }

-- The Action lies in a directory `app` of the root.
abbrev checkout : FileSystem
checkout = record {
  entries = λ dir.
      if dir == txt "/w"
      then some (sub (txt "app") ∷ [])
      else if dir == txt "/w/app"
      then some (sub (txt ".forgejo") ∷ [])
      else none;
  exists = λ path. starts_with path (txt "/w/app/.forgejo/");
  cwd = txt "/w";
}

find_forgejo_dirs_iff_example :
    IsIn (txt "/w/app/.forgejo") (find_forgejo_dirs checkout joined (txt "/w") 6)
    ↔ IsNear checkout joined 6 (txt "/w") (txt "/w/app/.forgejo")
find_forgejo_dirs_iff_example =
    find_forgejo_dirs_iff checkout joined (txt "/w") 6 (txt "/w/app/.forgejo")

abbrev process : Process
process = record { here = txt "/w/.forgejo/scripts"; cwd = txt "/w" }

same_scripts :
    (file : Text)
    → script_path joined (action_dir full_machine joined process unset) file
      ≡ joined.join_path process.here file
unfolding drop_end_while ends_with ◌==◌
same_scripts file = refl

verified : (dispatch full_machine joined process (txt "verify-action") unset 6000).1 ≡ exits 0
unfolding dispatch verify_action includes ◌==◌ drop_end_while ends_with
verified = refl

meta_listed : IsIn (txt "meta") subcommands
meta_listed = inr (inr (inr (inr (inr (inr (inr (inl refl)))))))

meta_ne : txt "meta" ≢ txt "verify-action"
unfolding ◌==◌
meta_ne = ne_of_== (txt "meta") (txt "verify-action") refl

dispatch_complete_example :
    (child : Spawn) × (dispatch full_machine joined process (txt "meta") unset 6000
      ≡ (6000, runs child))
    × (full_machine.exists 6000 child.file ≡ true)
    × (child.cwd ≡ workspace_dir process unset)
dispatch_complete_example =
    dispatch_complete full_machine joined process unset 6000 (txt "meta") same_scripts verified
      meta_listed meta_ne
