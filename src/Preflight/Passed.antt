-- ===== src/Preflight/Passed.antt =====
-- What a passed preflight promises.
use message_pusher.Base.{
  ◌≡◌, ◌⊎◌, refl, Bool, true, false, not, ◌&&◌, List, [], ◌∷◌, ◌++◌, arith, is_empty, All, inl, inr,
  Bool-cases,
}
use message_pusher.Text.{Text, Env}
use message_pusher.Result.{Result, ok, err}
use message_pusher.Runtime.{Runtime}
use message_pusher.Paths.{Paths}
use message_pusher.Machine.{Machine}
use message_pusher.State.{State, Build}
use message_pusher.Endpoints.{DockerProbe}
use message_pusher.Preflight.{
  Finding, half_configured, no_registry, no_images, no_dockerfiles, when, registry_findings,
  half_tokens, enabled_of, planned, builds_of, plan_findings, is_publish_only, docker_findings,
  dockerfile_path, missing_dockerfiles, dockerfile_findings, preflight_checks,
}

not-eq-false : (b : Bool) → not b ≡ false → b ≡ true
not-eq-false true h = refl
not-eq-false false h = cc

append-eq-nil : (xs ys : List Finding) → xs ++ ys ≡ [] → (xs ≡ []) × (ys ≡ [])
append-eq-nil [] ys h = (refl, h)
append-eq-nil (x ∷ xs) ys h = cc

when-eq-nil : {A : Type 0} (test : Bool) (a : A) → when test a ≡ [] → test ≡ false
when-eq-nil true a h = cc
when-eq-nil false a h = refl

plan_findings-eq-nil :
    (plan : Result (List Build)) → plan_findings plan ≡ [] → plan ≡ ok (builds_of plan)
plan_findings-eq-nil (err e) h = cc
plan_findings-eq-nil (ok builds) h = refl

docker_findings-eq-nil :
    (publish_only : Bool) (docker : DockerProbe)
    → docker_findings publish_only docker ≡ []
    → (docker.cli ≡ true)
      × (docker.buildx ≡ true)
      × ((publish_only ≡ true) ⊎ (docker.daemon ≡ true))
unfolding docker_findings
docker_findings-eq-nil publish_only docker h = elim (Bool-cases docker.cli) [
  | inr no_command ↦ let h1 = rw no_command at h in cc h1
  | inl cli ↦ elim (Bool-cases (not publish_only && not docker.daemon)) [
    | inl cut_off ↦ let h1 = rw (cli, cut_off) at h in cc h1
    | inr fine ↦
        let h1 = rw (cli, fine) at h in
        let plugin = when-eq-nil (not docker.buildx) _ h1 in
        (cli, ground arith, one_of publish_only docker.daemon fine)
  ]
]
  where
    one_of : (a b : Bool) → (not a && not b) ≡ false → (a ≡ true) ⊎ (b ≡ true)
    one_of true b h = inl refl
    one_of false true h = inr refl
    one_of false false h = cc

missing_dockerfiles-eq-nil :
    (paths : Paths) (exists : Text → Bool) (context : Text) (builds : List Build)
    → is_empty (missing_dockerfiles paths exists context builds) ≡ true
    → All (λ b. exists (dockerfile_path paths context b) ≡ true) builds
unfolding missing_dockerfiles
missing_dockerfiles-eq-nil paths exists context [] h = tt
missing_dockerfiles-eq-nil paths exists context (c ∷ builds) h =
    elim (Bool-cases (exists (dockerfile_path paths context c))) [
      | inr absent ↦ let h1 = rw absent at h in cc h1
      | inl there ↦
          let h1 = rw there at h in
          (there, missing_dockerfiles-eq-nil paths exists context builds h1)
    ]

registry_findings-eq-nil :
    (env : Env) (state : State)
    → registry_findings env state ≡ []
    → (state.dry_run ≡ true)
      ⊎ ((is_empty (enabled_of state) ≡ false) × (is_empty state.images ≡ false))
unfolding registry_findings
registry_findings-eq-nil env state h =
    let tokens = half_tokens env (enabled_of state) in
    let unnamed = when (is_empty state.images && not state.dry_run) no_images in
    let unregistered = when (is_empty (enabled_of state) && not state.dry_run) no_registry in
    let (whole, h1) =
      append-eq-nil (when (not (is_empty tokens)) (half_configured tokens))
        (unregistered ++ unnamed) h in
    let (some_registry, h2) = append-eq-nil unregistered unnamed h1 in
    pushes (is_empty (enabled_of state)) (is_empty state.images) state.dry_run
      (when-eq-nil _ no_registry some_registry) (when-eq-nil _ no_images h2)
  where
    pushes :
        (a b dry : Bool)
        → (a && not dry) ≡ false
        → (b && not dry) ≡ false
        → (dry ≡ true) ⊎ ((a ≡ false) × (b ≡ false))
    pushes a b true h k = inl refl
    pushes false false false h k = inr (refl, refl)
    pushes true b false h k = cc
    pushes false true false h k = cc

module _ (machine : Machine) (paths : Paths) (runtime : Runtime) where
  -- If the checks find no error, then the tag plan is what meta.mjs will compute, each of its builds
  -- has its Dockerfile, the docker command and buildx are there, a daemon has answered unless
  -- nothing is to be built, and a run that is not dry has a registry and an image to push to.
  pub preflight_checks_pass :
      (state : State) (env : Env) (docker : DockerProbe) (now : Text) (w : machine.World)
      → let checked = (preflight_checks machine paths runtime state env docker now w).1 in
        checked.errors ≡ []
        → (planned runtime state env now ≡ ok checked.builds)
          × All
              (λ b. machine.exists w (dockerfile_path paths state.options.context b) ≡ true)
              checked.builds
          × (docker.cli ≡ true)
          × (docker.buildx ≡ true)
          × ((is_publish_only env ≡ true) ⊎ (docker.daemon ≡ true))
          × ((state.dry_run ≡ true)
              ⊎ ((is_empty (enabled_of state) ≡ false) × (is_empty state.images ≡ false)))
  unfolding preflight_checks
  preflight_checks_pass state env docker now w h =
      let builds = builds_of (planned runtime state env now) in
      let context = state.options.context in
      let missing = missing_dockerfiles paths (machine.exists w) context builds in
      let plan = planned runtime state env now in
      let publish_only = is_publish_only env in
      let by_docker = docker_findings publish_only docker in
      let by_files = dockerfile_findings machine paths runtime state builds w in
      let (registry_fine, h1) =
        append-eq-nil (registry_findings env state) (plan_findings plan ++ (by_files ++ by_docker))
          h in
      let (plan_fine, h2) = append-eq-nil (plan_findings plan) (by_files ++ by_docker) h1 in
      let (files_fine, docker_fine) = append-eq-nil by_files by_docker h2 in
      let (cli, buildx, daemon) = docker_findings-eq-nil publish_only docker docker_fine in
      let none_missing : is_empty missing ≡ true =
        not-eq-false (is_empty missing)
          (when-eq-nil (not (is_empty missing)) (no_dockerfiles missing) files_fine) in
      let pushes = registry_findings-eq-nil env state registry_fine in
      (
        plan_findings-eq-nil plan plan_fine,
        missing_dockerfiles-eq-nil paths (machine.exists w) context builds none_missing,
        cli,
        buildx,
        daemon,
        pushes,
      )
