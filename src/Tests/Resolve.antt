-- ===== src/Tests/Resolve.antt =====
-- A concrete release of resolve.mjs, and concrete build arguments.
use message_pusher.Base.{
  ◌≡◌, ◌⊎◌, refl, true, false, not, List, [], ◌∷◌, Option, none, some, All, IsIn, inl,
}
use message_pusher.Text.{
  Text, txt, Env, ◌==◌, includes, trim, is_space, drop_while, drop_end_while, split_on, split_runs,
  starts_with, strip_prefix, has_unit, index_of, to_lower, lower_unit,
}
use message_pusher.Result.{ok, traverse}
use message_pusher.Config.Lists.{
  KeyValue, read_optional, split_list, split_lines, parse_key_values, parse_variant_build_args,
  parse_platforms,
}
use message_pusher.Config.Variants.{
  names_of, variant_table_raw, Variant, is_variant_name, parse_row, parse_rows, settle_default,
  parse_variants, variant_selection,
}
use message_pusher.Config.Images.{
  Image, ghcr, BuildOptions, ghcr_namespace_from, registries_from, normalize_image_base,
  check_image_base, strip_image_base, first_piece, is_image_name, derived_image, images_from,
  build_options_from,
}
use message_pusher.Config.Images.Enabled.{HasCredentials}
use message_pusher.State.{State}
use message_pusher.Endpoints.{
  Fetch, OsRelease, apt, as_proxy, resolve_endpoint, env_value, expand_endpoint, endpoint_probe_url,
  probe_endpoint, release_value, go_proxy_from,
}
use message_pusher.Resolve.Mirrors.{NotRepository, with_default_build_args-NotRepository}
use message_pusher.Resolve.{
  classify_endpoints, strip_tag_prefix, tag_version_from_ref, is_unexpanded, dispatch_input,
  is_version_number, is_semver, resolve_version, release_of, resolve_release, Endpoints,
  with_default_build_args,
}
use message_pusher.Resolve.Release.{resolve_release_lem}
use message_pusher.Matrix.{Matrix, plan_matrix}
use message_pusher.Matrix.Agreement.{plan_matrix-agrees}
use message_pusher.BuildPush.{proxies_from, effective_build_args}
use message_pusher.BuildPush.Args.{
  value_in, last_value, or_value, injected_args, effective_build_args_lem,
}

abbrev table : List (Text × Text)
table =
    (txt "GITHUB_REF", txt "refs/tags/v1.2.3")
    ∷ (txt "GITHUB_REF_NAME", txt "v1.2.3")
    ∷ (txt "GITHUB_REPOSITORY", txt "Me/App")
    ∷ (txt "DOCKER_VARIANTS", txt "alpine")
    ∷ (txt "GHCR_TOKEN", txt "t")
    ∷ (txt "INPUT_VERSION", txt "${{ inputs.version }}")
    ∷ (txt "HTTP_PROXY", txt "p")
    ∷ []

abbrev env_of : List (Text × Text) → Env
env_of [] name = none
env_of ((key, value) ∷ rest) name = elim (key == name) [
  | true ↦ some value
  | false ↦ env_of rest name
]

abbrev none_given : Text → Option Text
none_given name = none

abbrev one_variant : Variant
one_variant = record {
  name = txt "alpine";
  dockerfile = txt "Dockerfile.alpine";
  target = [];
  suffix = txt "-alpine";
  is_default = true;
  build_args = [];
  platforms = [];
}

abbrev one_image : Image
one_image = record { base = txt "ghcr.io/me/app"; registry_id = ghcr; preview = false }

abbrev plain_options : BuildOptions
plain_options = record {
  context = txt ".";
  platforms = [];
  build_args = [];
  dry_run = false;
  push = true;
}

abbrev release : State
release =
    release_of (env_of table) false (txt "1.2.3", txt "v1.2.3") (one_variant ∷ []) (one_image ∷ [])
      plain_options

release_resolved : resolve_release (env_of table) none_given none_given [] ≡ ok release
unfolding resolve_release resolve_version dispatch_input is_unexpanded tag_version_from_ref
    strip_tag_prefix is_semver is_version_number parse_variants parse_rows parse_row is_variant_name
    parse_variant_build_args parse_platforms settle_default variant_selection images_from
    registries_from ghcr_namespace_from derived_image normalize_image_base check_image_base
    strip_image_base first_piece is_image_name build_options_from parse_key_values split_list
    split_lines read_optional traverse trim is_space drop_while drop_end_while split_on split_runs
    starts_with strip_prefix has_unit index_of to_lower lower_unit includes ◌==◌
release_resolved = refl

resolve_release_lem_example :
    (is_semver release.version ≡ true)
    × ((starts_with release.ref_ (txt "refs/tags/") ≡ false)
        ⊎ (read_optional (env_of table (txt "GITHUB_REF_NAME")) ≡ [])
        ⊎ (release.version
            ≡ strip_tag_prefix (read_optional (env_of table (txt "GITHUB_REF_NAME")))))
    × (release.options.push ≡ not release.dry_run)
    × ((release.dry_run ≡ true) ⊎ All (HasCredentials release.registries) release.images)
resolve_release_lem_example =
    resolve_release_lem (env_of table) none_given none_given [] release release_resolved

abbrev version_arg : Text → KeyValue
version_arg value = record { key = txt "VERSION"; value = value }

abbrev own_options : BuildOptions
own_options = record plain_options { build_args = version_arg (txt "own") ∷ [] }

abbrev no_endpoints : Endpoints
no_endpoints = record { npm_registry = none; apt_mirror = none }

own_kept :
    IsIn
      (version_arg (txt "own"))
      (with_default_build_args own_options (txt "1.2.3") (env_of table) no_endpoints).build_args
unfolding with_default_build_args go_proxy_from read_optional trim is_space drop_while
    drop_end_while ◌==◌ to_lower
own_kept = inl refl

-- The column names VERSION as well; the text of DOCKER_BUILD_ARGS is what a build gets.
effective_build_args_lem_example :
    value_in
      (effective_build_args
        (version_arg (txt "a") ∷ [])
        (with_default_build_args own_options (txt "1.2.3") (env_of table) no_endpoints).build_args
        (env_of table))
      (txt "VERSION")
    ≡ or_value (last_value own_options.build_args (txt "VERSION")) (
        or_value
          (last_value (injected_args (txt "1.2.3") (env_of table) no_endpoints) (txt "VERSION"))
          (or_value
            (last_value (version_arg (txt "a") ∷ []) (txt "VERSION"))
            (value_in (proxies_from (env_of table)) (txt "VERSION"))))
effective_build_args_lem_example =
    effective_build_args_lem (version_arg (txt "a") ∷ []) own_options (txt "1.2.3") (env_of table)
      (env_of table) no_endpoints (txt "VERSION")

abbrev one_job : Matrix
one_job = record { variant = txt "alpine" ∷ []; variants = one_variant ∷ [] }

matrix_planned : plan_matrix (env_of table) none_given none_given [] ≡ ok one_job
unfolding plan_matrix variant_table_raw dispatch_input is_unexpanded parse_variants parse_rows
    parse_row is_variant_name parse_variant_build_args parse_platforms settle_default
    variant_selection split_list split_lines read_optional traverse trim is_space drop_while
    drop_end_while split_on split_runs starts_with index_of to_lower lower_unit includes ◌==◌
matrix_planned = refl

plan_matrix-agrees_example :
    (one_job.variants ≡ release.variants) × (one_job.variant ≡ names_of release.variants)
plan_matrix-agrees_example =
    plan_matrix-agrees (env_of table) none_given none_given one_job release matrix_planned
      release_resolved

-- An endpoint that answers every probe by an error.
abbrev refusing : Fetch
refusing url = some false

abbrev proxy_env : Env
proxy_env = env_of ((txt "APT_PROXY", txt "http://p/") ∷ (txt "YUM_REPO", txt "http://y") ∷ [])

abbrev debian : OsRelease
debian = (txt "VERSION_CODENAME", txt "trixie") ∷ []

abbrev yum_arg : KeyValue
yum_arg = record { key = txt "YUM_REPO"; value = txt "http://y" }

apt_is_proxy : (resolve_endpoint apt proxy_env refusing debian).source ≡ as_proxy
unfolding resolve_endpoint env_value read_optional trim is_space drop_while drop_end_while ◌==◌
    probe_endpoint expand_endpoint endpoint_probe_url release_value
apt_is_proxy = refl

yum_injected :
    IsIn yum_arg
      (with_default_build_args own_options
        (txt "1.2.3")
        proxy_env
        (classify_endpoints proxy_env refusing debian)).build_args
unfolding with_default_build_args classify_endpoints resolve_endpoint env_value go_proxy_from
    read_optional trim is_space drop_while drop_end_while ◌==◌ probe_endpoint expand_endpoint
    endpoint_probe_url release_value to_lower lower_unit
yum_injected = inl refl

with_default_build_args-NotRepository_example :
    IsIn yum_arg (version_arg (txt "own") ∷ []) ⊎ NotRepository proxy_env yum_arg
with_default_build_args-NotRepository_example =
    with_default_build_args-NotRepository own_options (txt "1.2.3") proxy_env refusing debian
      yum_arg apt_is_proxy yum_injected
