-- ===== src/BuildPush.antt =====
-- .forgejo/scripts/build-push.mjs: one `docker buildx build` per variant, pushed to a staging tag.
pub mod Args
pub mod Staged
pub mod Run
use message_pusher.Base.{
  ℕ, Bool, true, false, not, ◌&&◌, ◌||◌, List, [], ◌∷◌, ◌++◌, map, Option, none, some, eqb, ltb,
  is_empty, length, filter, any, if◌then◌else◌,
}
use message_pusher.Text.{Text, txt, Env, ◌==◌, join}
use message_pusher.Result.{Result, ok, err, ◌>>=◌}
use message_pusher.Config.Lists.{KeyValue, read_optional, platforms_for, is_nonempty, is_truthy}
use message_pusher.Config.Images.{BuildOptions}
use message_pusher.State.{State, Build, BuildImage}
use message_pusher.Staging.{StagingRef, staging_refs_for}
use message_pusher.Docker.{Docker, Session, run_docker, ref_exists, digest_of}

-- `${key}=${value}`
abbrev pub assignment : KeyValue → Text
assignment kv = kv.key ++ (txt "=" ++ kv.value)

-- A flag before each value.
abbrev pub flag_each : Text → List Text → List Text
flag_each flag [] = []
flag_each flag (v ∷ values) = flag ∷ v ∷ flag_each flag values

unfoldable pub label_args : List KeyValue → List Text
label_args labels = flag_each (txt "--label") (map assignment labels)

abbrev pub proxy_build_args : List Text
proxy_build_args = txt "HTTP_PROXY" ∷ txt "HTTPS_PROXY" ∷ txt "NO_PROXY" ∷ txt "ALL_PROXY" ∷ []

unfoldable pub proxies_from : Env → List KeyValue
proxies_from env =
    filter (λ (kv : KeyValue). is_nonempty kv.value)
      (map (λ key. record { key = key; value = read_optional (env key) }) proxy_build_args)

unfoldable pub buildx_create_argv : Text → Option Text → Env → List Text
buildx_create_argv name image env =
    let image_text = read_optional image in
    txt "buildx"
    ∷ txt "create"
    ∷ txt "--use"
    ∷ txt "--name"
    ∷ name
    ∷ txt "--driver"
    ∷ txt "docker-container"
    ∷ ((if is_nonempty image_text
          then txt "--driver-opt" ∷ (txt "image=" ++ image_text) ∷ []
          else [])
        ++ flag_each (txt "--driver-opt")
            (map (λ kv. txt "env." ++ assignment kv) (proxies_from env)))

abbrev pub buildx_remove_argv : Text → List Text
buildx_remove_argv name = txt "buildx" ∷ txt "rm" ∷ name ∷ []

-- A `Map` from keys to arguments in insertion order: `merged.set(arg.key, arg)` and `merged.has(key)`.
unfoldable pub set_arg : List KeyValue → KeyValue → List KeyValue
set_arg [] new = new ∷ []
set_arg (old ∷ args) new = if old.key == new.key then new ∷ args else old ∷ set_arg args new

unfoldable pub has_arg : List KeyValue → Text → Bool
has_arg [] key = false
has_arg (a ∷ args) key = a.key == key || has_arg args key

unfoldable pub set_args : List KeyValue → List KeyValue → List KeyValue
set_args args [] = args
set_args args (new ∷ more) = set_args (set_arg args new) more

-- The loop over the proxies: a key that is there already is left alone.
unfoldable pub add_missing : List KeyValue → List KeyValue → List KeyValue
add_missing args [] = args
add_missing args (new ∷ more) =
    add_missing (if has_arg args new.key then args else set_arg args new) more

unfoldable pub effective_build_args : List KeyValue → List KeyValue → Env → List KeyValue
effective_build_args of_build of_options env =
    set_args (add_missing (set_args [] of_build) (proxies_from env)) of_options

-- The tags of all refs.
abbrev pub all_tags : List StagingRef → List Text
all_tags [] = []
all_tags (r ∷ refs) = r.tags ++ all_tags refs

abbrev pub optional_flag : Text → Text → List Text
optional_flag flag value = if is_empty value then [] else flag ∷ value ∷ []

-- `--push`, or the output that only fills the cache.
abbrev pub output_args : Bool → List Text
output_args push = if push then txt "--push" ∷ [] else txt "--output" ∷ txt "type=cacheonly" ∷ []

-- All of the command line that stands before the output.
abbrev pub buildx_head : Build → BuildOptions → Text → Text → List StagingRef → Env → List Text
buildx_head build options file builder images env =
    let platforms = platforms_for build.platforms options.platforms in
    txt "buildx"
    ∷ txt "build"
    ∷ (optional_flag (txt "--builder") builder
        ++ (txt "--file"
            ∷ build.dockerfile
            ∷ (optional_flag (txt "--target") build.target
                ++ (flag_each (txt "--tag") (all_tags images)
                    ++ (label_args build.labels
                        ++ (optional_flag (txt "--platform") (join (txt ",") platforms)
                            ++ (flag_each (txt "--build-arg") (
                                  map assignment
                                    (effective_build_args build.build_args options.build_args env))
                                ++ (txt "--provenance=false"
                                    ∷ optional_flag (txt "--metadata-file") file))))))))

unfoldable pub buildx_argv : Build → BuildOptions → Text → Text → List StagingRef → Env → List Text
buildx_argv build options file builder images env =
    buildx_head build options file builder images env
    ++ (output_args options.push ++ options.context ∷ [])

-- One entry of the results: a variant that was built, or whose staging refs were reused.
pub record Built : Type 0 where
  pub variant : Text
  pub digest : Text
  pub platforms : List Text
  pub staging : List Text
  pub tag_names : List Text
  pub images : List BuildImage
  pub skipped : Bool

abbrev pub ref_of : StagingRef → Text
ref_of r = r.ref_

abbrev pub built : Build → List Text → List StagingRef → Text → Bool → Built
built build platforms staging digest skipped = record {
  variant = build.variant;
  digest = digest;
  platforms = platforms;
  staging = map ref_of staging;
  tag_names = build.tag_names;
  images = build.images;
  skipped = skipped;
}

-- `state.dryRun ? { ...state.options, push: false } : state.options`
abbrev pub run_options : State → BuildOptions
run_options state = if state.dry_run then record state.options { push = false } else state.options

-- `platformsFor(build, options).length > 1` for some build
unfoldable pub needs_builder : State → Bool
needs_builder state =
    any (λ (b : Build). ltb 1 (length (platforms_for b.platforms state.options.platforms)))
      state.builds

module _ (docker : Docker) where
  -- `refs.every((entry) => refExists(entry.ref))` stops at the first ref that is not there.
  unfoldable pub every_exists : List StagingRef → Session docker → Session docker × Bool
  every_exists [] s = (s, true)
  every_exists (r ∷ refs) s =
      let (s1, found) = ref_exists docker r.ref_ s in
      let rest = every_exists refs s1 in if found then rest else (s1, false)

  unfoldable pub staging_complete : List StagingRef → Session docker → Session docker × Bool
  staging_complete [] s = (s, false)
  staging_complete (r ∷ refs) s = every_exists (r ∷ refs) s

  -- What the loop leaves behind: the results in memory and in the state file (`none` if the file is
  -- untouched), whether it threw, and the session.
  pub record Progress : Type 0 where
    pub results : List Built
    pub saved : Option (List Built)
    pub failed : Bool
    pub session : Session docker

  -- A result is kept in memory and written to the state file.
  abbrev pub keep : Progress → Built → Session docker → Progress
  keep g r s = record {
    results = g.results ++ r ∷ [];
    saved = some (g.results ++ r ∷ []);
    failed = false;
    session = s;
  }

  abbrev pub fail : Progress → Session docker → Progress
  fail g s = record g { failed = true; session = s }

  module _ (env : Env) (work_dir builder : Text) (state : State) where
    abbrev pub build_file : Build → Text
    build_file build = work_dir ++ (txt "/metadata-" ++ (build.variant ++ txt ".json"))

    abbrev pub build_call : Build → List StagingRef → List Text
    build_call build staging =
        buildx_argv build (run_options state) (build_file build) builder staging env

    -- `buildOneVariant`
    unfoldable pub build_one : Build → List StagingRef → Progress → Session docker → Progress
    build_one build staging g s =
        let (s1, status) = run_docker docker (build_call build staging) s in
        let platforms = platforms_for build.platforms (run_options state).platforms in
        if eqb status 0
        then keep g (built build platforms staging (digest_of docker s1 (build_file build)) false)
            s1
        else fail g s1

    -- The body of the loop for one build, once its staging refs are known.
    unfoldable pub build_staged : Build → List StagingRef → Progress → Progress
    build_staged build staging g =
        let (s1, complete) = staging_complete staging g.session in
        let platforms = platforms_for build.platforms (run_options state).platforms in
        if (run_options state).push && not (is_truthy (env (txt "DOCKER_FORCE_BUILD")))
        then (if complete
            then keep g (built build platforms staging [] true) s1
            else build_one build staging g s1)
        else build_one build staging g g.session

    abbrev pub build_planned : Build → Result (List StagingRef) → Progress → Progress
    build_planned build (err e) g = fail g g.session
    build_planned build (ok staging) g = build_staged build staging g

    -- The loop over the builds: the first failure ends it.
    unfoldable pub build_all : List Build → Progress → Progress
    build_all [] g = g
    build_all (build ∷ builds) g =
        let next = build_planned build (staging_refs_for build state) g in
        let rest = build_all builds next in if next.failed then next else rest

  -- The exit code, what the state file holds as results (`none`: untouched), and the session.
  pub record Outcome : Type 0 where
    pub code : ℕ
    pub saved : Option (List Built)
    pub session : Session docker

  abbrev pub outcome_of : Progress → Outcome
  outcome_of g = record { code = if g.failed then 1 else 0; saved = g.saved; session = g.session }

  abbrev pub fresh : Session docker → Progress
  fresh s = record { results = []; saved = none; failed = false; session = s }

  -- The `finally` block: the builder that was created is removed, whatever happened.
  unfoldable pub remove_builder : Text → Progress → Progress
  remove_builder builder g = record g {
    session = (run_docker docker (buildx_remove_argv builder) g.session).0;
  }

  -- The `try` block of `main`; `pid_name` is the builder's name, made of the process id.
  unfoldable pub build_push_run : Env → Text → Text → State → Session docker → Progress
  build_push_run env work_dir pid_name state s =
      let create = buildx_create_argv pid_name (env (txt "DOCKER_BUILDKIT_IMAGE")) env in
      let (s1, status) = run_docker docker create s in
      let with_builder =
        if eqb status 0
        then remove_builder pid_name (build_all env work_dir pid_name state state.builds (fresh s1))
        else fail (fresh s1) s1 in
      let without = build_all env work_dir [] state state.builds (fresh s) in
      if needs_builder state then with_builder else without

  -- `main`; `usable` says that the docker command, its daemon and buildx are there.
  unfoldable pub build_push_main : Env → Bool → Text → Text → State → Session docker → Outcome
  build_push_main env usable work_dir pid_name state s =
      let stop : Outcome = record { code = 1; saved = none; session = s } in
      let done = outcome_of (build_push_run env work_dir pid_name state s) in
      if is_empty state.builds then stop else if usable then done else stop
