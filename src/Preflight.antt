-- ===== src/Preflight.antt =====
-- .forgejo/scripts/preflight.mjs: what is checked before anything is published. A finding is a value
-- here, and a text there.
pub mod Passed
use message_pusher.Base.{
  ℕ, ◌+◌, Bool, true, false, not, ◌&&◌, ◌||◌, List, [], ◌∷◌, ◌++◌, map, Option, none, some, filter,
  find?, is_empty, length, if◌then◌else◌,
}
use message_pusher.Text.{Text, txt, Env, ◌==◌}
use message_pusher.Result.{Error, Result, ok, err}
use message_pusher.Config.Lists.{read_optional, is_nonempty, platforms_for}
use message_pusher.Config.Images.{RegistryId, ghcr, same_registry, Registry, BuildOptions}
use message_pusher.Runtime.{Runtime}
use message_pusher.Paths.{Paths}
use message_pusher.Machine.{Machine}
use message_pusher.State.{State, Build, BuildImage}
use message_pusher.Meta.Expressions.{dedupe}
use message_pusher.Meta.Plan.{compute_builds}
use message_pusher.Endpoints.{DockerProbe, probe_docker}
use message_pusher.Prepare.Arch.{normalize_arch, arches_of, host_arch}
use message_pusher.Prepare.Binfmt.{handler_path}

-- `dockerUnreachableReason`
pub data Unreachable : Type 0 where
  no_socket refusing : (path : Text) → Unreachable
  host_unreachable : (host : Text) → Unreachable

unfoldable pub docker_unreachable_reason : DockerProbe → Unreachable
docker_unreachable_reason docker = elim docker.socket_present [
  | none ↦ host_unreachable docker.host
  | some there ↦ if there then refusing docker.socket_path else no_socket docker.socket_path
]

pub data Finding : Type 0 where
  half_configured : (tokens : List Text) → Finding
  no_registry no_images : Finding
  bad_plan : (error : Error) → Finding
  no_dockerfiles : (missing : List (Text × Text)) → Finding
  no_cli : Finding
  unreachable : (reason : Unreachable) → Finding
  no_plugin : Finding

pub data Warning : Type 0 where
  unpushed : Warning
  foreign : (arches : List Text) → Warning
  dry : Warning

abbrev pub enabled_of : State → List Registry
enabled_of state = filter (λ (r : Registry). r.enabled) state.registries

-- `enabled.find((entry) => entry.id === 'ghcr')?.user || ''`
abbrev pub ghcr_user : List Registry → Text
ghcr_user enabled = elim (find? (λ (r : Registry). same_registry r.id ghcr) enabled) [
  | none ↦ []
  | some r ↦ r.user
]

abbrev pub when : {A : Type 0} → Bool → A → List A
when test a = if test then a ∷ [] else []

abbrev pub half_tokens : Env → List Registry → List Text
half_tokens env enabled =
    when
      (is_nonempty (read_optional (env (txt "DOCKERHUB_TOKEN")))
        && is_empty (read_optional (env (txt "DOCKERHUB_USERNAME"))))
      (txt "DOCKERHUB_TOKEN")
    ++ when (is_nonempty (read_optional (env (txt "GHCR_TOKEN"))) && is_empty (ghcr_user enabled))
        (txt "GHCR_TOKEN")

-- The findings on credentials and images.
unfoldable pub registry_findings : Env → State → List Finding
registry_findings env state =
    let tokens = half_tokens env (enabled_of state) in
    when (not (is_empty tokens)) (half_configured tokens)
    ++ (when (is_empty (enabled_of state) && not state.dry_run) no_registry
        ++ when (is_empty state.images && not state.dry_run) no_images)

abbrev pub planned : Runtime → State → Env → Text → Result (List Build)
planned runtime state env now =
    compute_builds runtime state (env (txt "DOCKER_META_TAGS")) (env (txt "DOCKER_META_FLAVOR"))
      (env (txt "DOCKER_META_LABELS")) now

abbrev pub builds_of : Result (List Build) → List Build
builds_of (err error) = []
builds_of (ok builds) = builds

abbrev pub plan_findings : Result (List Build) → List Finding
plan_findings (err error) = bad_plan error ∷ []
plan_findings (ok builds) = []

abbrev pub is_publish_only : Env → Bool
is_publish_only env = read_optional (env (txt "DOCKER_STEP")) == txt "publish"

unfoldable pub docker_findings : Bool → DockerProbe → List Finding
docker_findings publish_only docker =
    if not docker.cli
    then no_cli ∷ []
    else if not publish_only && not docker.daemon
    then unreachable (docker_unreachable_reason docker) ∷ []
    else when (not docker.buildx) no_plugin

abbrev pub build_platforms : BuildOptions → List Build → List Text
build_platforms options [] = []
build_platforms options (b ∷ builds) =
    platforms_for b.platforms options.platforms ++ build_platforms options builds

-- `isAbsolute(build.dockerfile) ? build.dockerfile : join(context, build.dockerfile)`
abbrev pub dockerfile_path : Paths → Text → Build → Text
dockerfile_path paths context build =
    if paths.is_absolute build.dockerfile
    then build.dockerfile
    else paths.join_path context build.dockerfile

unfoldable pub missing_dockerfiles : Paths → (Text → Bool) → Text → List Build → List (Text × Text)
missing_dockerfiles paths exists context [] = []
missing_dockerfiles paths exists context (build ∷ builds) =
    let full = dockerfile_path paths context build in
    let rest = missing_dockerfiles paths exists context builds in
    if exists full then rest else (build.variant, full) ∷ rest

pub record Checked : Type 0 where
  pub errors : List Finding
  pub warnings : List Warning
  pub builds : List Build

-- `builds.reduce(… image.tags.length …)`
unfoldable pub count_images : List BuildImage → ℕ
count_images [] = 0
count_images (image ∷ images) = length image.tags + count_images images

unfoldable pub count_tags : List Build → ℕ
count_tags [] = 0
count_tags (b ∷ builds) = count_images b.images + count_tags builds

-- How the program ends: a failure with the findings, or the numbers that it writes.
pub data Preflight : Type 0 where
  refused : (errors : List Finding) → Preflight
  passed : (dockerfiles tags : ℕ) → Preflight

abbrev pub preflight_end : Checked → Preflight
preflight_end c =
    if is_empty c.errors then passed (length c.builds) (count_tags c.builds) else refused c.errors

module _ (machine : Machine) (paths : Paths) (runtime : Runtime) where
  -- `missingBinfmt` without `arch`
  unfoldable pub missing_binfmt : List Text → machine.World → machine.World × List Text
  missing_binfmt platforms w =
      let (w', found) = host_arch machine w in
      let host = normalize_arch found in
      (
        w',
        filter (λ a. not (a == host) && not (machine.exists w' (handler_path a)))
            (arches_of platforms),
      )

  abbrev pub dockerfile_findings : State → List Build → machine.World → List Finding
  dockerfile_findings state builds w =
      let missing = missing_dockerfiles paths (machine.exists w) state.options.context builds in
      when (not (is_empty missing)) (no_dockerfiles missing)

  -- The architectures that the builds need and the kernel cannot run.
  abbrev pub foreign_of : Bool → State → List Build → machine.World → machine.World × List Text
  foreign_of publish_only state builds w =
      let asked = missing_binfmt (dedupe (build_platforms state.options builds)) w in
      if is_empty builds then (w, []) else if publish_only then (w, []) else asked

  unfoldable pub preflight_checks :
      State → Env → DockerProbe → Text → machine.World → machine.World × Checked
  preflight_checks state env docker now w =
      let plan = planned runtime state env now in
      let builds = builds_of plan in
      let (w', arches) = foreign_of (is_publish_only env) state builds w in
      (
        w',
        record {
          errors =
              registry_findings env state
              ++ (plan_findings plan
                  ++ (dockerfile_findings state builds w
                      ++ docker_findings (is_publish_only env) docker));
          warnings =
              when (is_empty (enabled_of state) && state.dry_run) unpushed
              ++ when (not (is_empty arches)) (foreign arches)
              ++ when state.dry_run dry;
          builds = builds;
        },
      )

  unfoldable pub preflight : State → Env → Text → machine.World → machine.World × Preflight
  preflight state env now w =
      let (w1, docker) = probe_docker machine env w in
      let (w2, checked) = preflight_checks state env docker now w1 in (w2, preflight_end checked)
