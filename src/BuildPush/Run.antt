-- ===== src/BuildPush/Run.antt =====
-- What a run of build-push.mjs leaves in the registries, and its results.
use message_pusher.Base.{
  ℕ, ◌≡◌, refl, sym, ◌∙◌, Bool, true, false, [], arith, eqb, IsIn, inl, inr, Bool-cases,
}
use message_pusher.Text.{Text, txt, Env}
use message_pusher.State.{State, Build}
use message_pusher.Docker.{Docker, Session, run_docker}
use message_pusher.Publish.Registry.{RegistryLaws, has_ref}
use message_pusher.BuildPush.{
  buildx_create_argv, run_options, Progress, fresh, build_all, remove_builder, build_push_run,
  build_push_main, needs_builder,
}
use message_pusher.BuildPush.Staged.{PushLaws, IsStaged, build_all_adds}

module _ (docker : Docker) (laws : RegistryLaws docker) (push_laws : PushLaws docker laws)
    (env : Env) (work_dir pid_name : Text) (state : State) where
  abbrev created : Session docker → Session docker × ℕ
  created s =
      run_docker docker (buildx_create_argv pid_name (env (txt "DOCKER_BUILDKIT_IMAGE")) env) s

  abbrev the_run : Session docker → Progress docker
  the_run s = build_push_run docker env work_dir pid_name state s

  abbrev loop_with : Text → Session docker → Progress docker
  loop_with builder s = build_all docker env work_dir builder state state.builds (fresh docker s)

  run_without : (s : Session docker) → needs_builder state ≡ false → the_run s ≡ loop_with [] s
  unfolding build_push_run
  run_without s e = rw e refl

  run_with :
      (s : Session docker)
      → needs_builder state ≡ true
      → eqb (created s).1 0 ≡ true
      → the_run s ≡ remove_builder docker pid_name (loop_with pid_name (created s).0)
  unfolding build_push_run
  run_with s e q = rw (e, q) refl

  run_failed :
      (s : Session docker)
      → needs_builder state ≡ true
      → eqb (created s).1 0 ≡ false
      → (the_run s).failed ≡ true
  unfolding build_push_run
  run_failed s e q = rw (e, q) refl

  remove_keeps :
      (g : Progress docker) (t : Text)
      → has_ref docker laws g.session t ≡ true
      → has_ref docker laws (remove_builder docker pid_name g).session t ≡ true
  unfolding remove_builder run_docker
  remove_keeps g t h = push_laws.remove_builder_keeps g.session.world pid_name t h

  remove_failed : (g : Progress docker) → (remove_builder docker pid_name g).failed ≡ g.failed
  unfolding remove_builder
  remove_failed g = refl

  -- Code 0 means that the loop ran through, with or without a builder of its own.
  build_push_run_adds :
      (s : Session docker) (b : Build)
      → (run_options state).push ≡ true
      → (the_run s).failed ≡ false
      → IsIn b state.builds
      → IsStaged docker laws state (the_run s).session b
  build_push_run_adds s b push done i = elim (Bool-cases (needs_builder state)) [
    | inr plain ↦ rw (run_without s plain) (
        build_all_adds docker laws push_laws env work_dir [] state state.builds (fresh docker s) b
          push (rw (run_without s plain) at done) i)
    | inl own ↦ elim (Bool-cases (eqb (created s).1 0)) [
      | inr broken ↦ cc (run_failed s own broken)
      | inl made ↦
          let g = loop_with pid_name (created s).0 in
          let (refs, known, there) =
            build_all_adds docker laws push_laws env work_dir pid_name state state.builds
              (fresh docker (created s).0) b push
              (sym (remove_failed g) ∙ (rw (run_with s own made) at done)) i in
          rw (run_with s own made) (refs, known, λ r j. remove_keeps g r.ref_ (there r j))
    ]
  ]

  build_push_main_step :
      (usable : Bool) (s : Session docker)
      → (build_push_main docker env usable work_dir pid_name state s).code ≡ 0
      → ((the_run s).failed ≡ false)
        × ((the_run s).session
            ≡ (build_push_main docker env usable work_dir pid_name state s).session)
  unfolding build_push_main
  build_push_main_step usable s code = ground arith

  -- If the program ends with code 0 in a run that pushes, every staging ref of every build is in its
  -- registry, built now or found there.
  pub build_push_main_stages :
      (usable : Bool) (s : Session docker) (b : Build)
      → (run_options state).push ≡ true
      → (build_push_main docker env usable work_dir pid_name state s).code ≡ 0
      → IsIn b state.builds
      → IsStaged docker laws state
          (build_push_main docker env usable work_dir pid_name state s).session
          b
  build_push_main_stages usable s b push code i =
      let (done, same) = build_push_main_step usable s code in
      rw (← same) (build_push_run_adds s b push done i)
