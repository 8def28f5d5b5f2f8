-- ===== src/Tests/Prepare.antt =====
-- A machine whose daemon answers from its fifth second on, and runs of prepare.mjs on it.
use message_pusher.Base.{
  ℕ, ◌+◌, ◌≡◌, ◌≢◌, refl, Bool, true, false, List, [], ◌∷◌, Option, none, some, arith, ltb,
  if◌then◌else◌,
}
use message_pusher.Text.{
  Text, txt, Env, ◌==◌, includes, trim, is_space, drop_while, drop_end_while, split_on, split_runs,
  starts_with, has_unit, index_of, to_lower, lower_unit, join,
}
use message_pusher.Result.{ok, err, traverse, still_waiting}
use message_pusher.Config.Lists.{
  read_optional, is_truthy, platforms_for, split_list, split_lines, parse_key_values,
  parse_variant_build_args, parse_platforms,
}
use message_pusher.Config.Variants.{
  variant_table_raw, is_variant_name, parse_row, parse_rows, settle_default, parse_variants,
}
use message_pusher.Config.Images.{build_options_from}
use message_pusher.Meta.Expressions.{dedupe, dedupe_from}
use message_pusher.Machine.{Machine, ClockLaws, Command, Exit, succeeded}
use message_pusher.Endpoints.{probe_docker, probe_server, has_binary}
use message_pusher.Prepare.Arch.{
  normalize_arch, alias_of, arches_of, binfmt_handler, variant_platforms, requested_platforms,
  host_arch,
}
use message_pusher.Prepare.Daemon.{Waits, ensure_daemon}
use message_pusher.Prepare.Daemon.Waiting.{ensure_daemon_ends}
use message_pusher.Prepare.Packages.{ensure_buildx, install_packages, detect_manager, first_manager}
use message_pusher.Prepare.Packages.Buildx.{HasBuildx}
use message_pusher.Prepare.Sources.{
  configure_package_sources, apply_source, set_variable, mirror_proxies, proxy_aliases,
}
use message_pusher.Prepare.Binfmt.{ensure_binfmt, ensure_handlers}
use message_pusher.Prepare.Binfmt.Handled.{IsAccounted, ensure_handlers-IsAccounted}
use message_pusher.Prepare.Steps.{Prepared, prepare}
use message_pusher.Prepare.Steps.Ready.{DaemonAnswered, AsksFor, prepare_ready}

abbrev is_version : List Text → Bool
is_version [] = false
is_version (arg ∷ args) = arg == txt "version"

-- The world is the time; only `docker version` ever fails.
abbrev pub answer : ℕ → Command → ℕ × Exit
answer w c = (
  w,
  record {
    status = if is_version c.args then (if ltb w 5000 then some 1 else some 0) else some 0;
    stdout = txt "x86_64";
    stderr = [];
  },
)

abbrev pub small_machine : Machine
small_machine = record {
  World = ℕ;
  run = answer;
  exists = λ w path. false;
  arch = txt "x64";
  opens = λ w path. true;
  spawn = λ w args. w;
  child_exit = λ w. none;
  now = λ w. w;
  sleep = λ w ms. w + ms;
}

clock_laws : ClockLaws small_machine
clock_laws = record { sleep_lasts = λ w ms. omega arith; run_goes_on = λ w c. omega arith }

abbrev table : List (Text × Text)
table = (txt "DOCKER_VARIANTS", txt "alpine") ∷ (txt "DOCKER_PLATFORMS", txt "linux/arm64") ∷ []

abbrev env_of : List (Text × Text) → Env
env_of [] name = none
env_of ((key, value) ∷ rest) name = if key == name then some value else env_of rest name

abbrev no_number : Text → Option Waits
no_number text = none

abbrev no_file : Text → Option Text
no_file path = none

-- The daemon is started and waited for.
ensure_daemon_ends_example :
    (ensure_daemon small_machine (env_of table) no_number 0).1 ≢ err still_waiting
ensure_daemon_ends_example =
    ensure_daemon_ends small_machine clock_laws (env_of table) no_number 0 90000 45 refl

abbrev prepared : Prepared
prepared = record {
  server = txt "x86_64";
  daemon_started = false;
  buildx = txt "image";
  packages = [];
  package_sources = record { apk = []; apt = []; yum = [] };
  platforms = txt "linux/arm64" ∷ [];
  binfmt = txt "missing:arm64";
}

prepare_run : (prepare small_machine no_number no_file (env_of table) [] [] 6000).1 ≡ ok prepared
unfolding prepare ensure_daemon probe_docker probe_server has_binary succeeded
    configure_package_sources apply_source set_variable mirror_proxies ensure_buildx
    install_packages detect_manager first_manager requested_platforms variant_platforms
    platforms_for host_arch normalize_arch alias_of arches_of binfmt_handler ensure_binfmt
    ensure_handlers is_truthy dedupe dedupe_from parse_variants parse_rows parse_row is_variant_name
    variant_table_raw parse_variant_build_args parse_platforms settle_default build_options_from
    parse_key_values split_list split_lines read_optional traverse trim is_space drop_while
    drop_end_while split_on split_runs starts_with has_unit index_of to_lower lower_unit includes
    join ◌==◌
prepare_run = refl

prepare_ready_example :
    DaemonAnswered small_machine no_number no_file (env_of table) (txt "x86_64") false
    × ((wb : ℕ) × HasBuildx small_machine (mirror_proxies proxy_aliases (env_of table)) wb)
    × AsksFor small_machine no_number no_file (env_of table) [] (txt "linux/arm64" ∷ [])
prepare_ready_example =
    prepare_ready small_machine no_number no_file (env_of table) [] [] 6000 prepared prepare_run

no_skip : is_truthy (env_of table (txt "DOCKER_SKIP_BINFMT")) ≡ false
unfolding is_truthy read_optional includes to_lower ◌==◌
no_skip = refl

abbrev arm : List Text
arm = txt "linux/arm64" ∷ []

ensure_handlers-IsAccounted_example :
    let done = ensure_handlers small_machine (env_of table) (txt "amd64") arm 6000 in
    IsAccounted small_machine (env_of table) (txt "amd64") arm 6000 done.0 done.1 (txt "arm64")
ensure_handlers-IsAccounted_example =
    ensure_handlers-IsAccounted small_machine (env_of table) (txt "amd64") arm 6000 (txt "arm64")
      no_skip

arm_asked : requested_platforms (env_of table) no_file [] ≡ ok arm
unfolding requested_platforms variant_platforms platforms_for dedupe dedupe_from parse_variants
    parse_rows parse_row is_variant_name variant_table_raw parse_variant_build_args parse_platforms
    settle_default build_options_from parse_key_values split_list split_lines read_optional traverse
    trim is_space drop_while drop_end_while split_on split_runs starts_with has_unit index_of
    to_lower lower_unit includes ◌==◌
arm_asked = refl
