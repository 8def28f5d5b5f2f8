-- ===== src/Pipeline.antt =====
-- The two jobs of a release together: build-push.mjs stages, publish.mjs promotes. The programs share
-- the state file and the registries, and nothing else.
pub mod Sources
pub mod Checked
use message_pusher.Base.{
  ℕ, ◌≡◌, ◌≢◌, refl, sym, ◌∙◌, ap, Bool, true, false, not, List, [], ◌∷◌, map, Option, none, some,
  arith, IsIn, IsIn-map_inv, filter, filter-nil_of, is_empty, if◌then◌else◌,
}
use message_pusher.Text.{Text, Env}
use message_pusher.Result.{Result, ok}
use message_pusher.Staging.{StagingRef}
use message_pusher.State.{State, Build, BuildImage}
use message_pusher.Docker.{Docker, Session, run_docker, exit_status}
use message_pusher.Publish.{
  Promotion, promotion_argv, publish_plan, publish_main, publish, missing_staging, promote,
}
use message_pusher.Publish.Registry.{
  RegistryLaws, has_ref, source_of, missing_staging_lem, missing_staging_keeps,
}
use message_pusher.Publish.Promote.{publish_main_lem, publish_main_complete}
use message_pusher.Publish.Plan.{publish_plan_cover, publish_plan_made}
use message_pusher.BuildPush.{build_push_main, run_options}
use message_pusher.BuildPush.Staged.{PushLaws}
use message_pusher.BuildPush.Run.{build_push_main_stages}
use Sources.{publish_plan_source, promote_succeeds, CreateSucceeds}

IsIn-not_nil : {A : Type 0} (a : A) (xs : List A) → IsIn a xs → xs ≢ []
IsIn-not_nil a [] i e = i
IsIn-not_nil a (x ∷ xs) i e = cc

module _ (docker : Docker) (laws : RegistryLaws docker) (push_laws : PushLaws docker laws)
    (env : Env) (work_dir pid_name : Text) (state : State) where
  -- The session that the build job hands to the publish job.
  abbrev pub staged : Bool → Session docker → Session docker
  staged usable s = (build_push_main docker env usable work_dir pid_name state s).session

  source_staged :
      (usable : Bool) (s : Session docker) (plan : List Promotion) (p : Promotion)
      → (run_options state).push ≡ true
      → (build_push_main docker env usable work_dir pid_name state s).code ≡ 0
      → publish_plan state ≡ ok plan
      → IsIn p plan
      → has_ref docker laws (staged usable s) p.source ≡ true
  source_staged usable s plan p push code planned i =
      let (b, refs, r, listed, known, j, same) = publish_plan_source state plan p planned i in
      let (refs', known', there) =
        build_push_main_stages docker laws push_laws env work_dir pid_name state usable s b push
          code listed in
      let e : refs' ≡ refs = ok_injective refs' refs (sym known' ∙ known) in
      rw same (there r (rw e j))
    where
      ok_injective :
          (a b : List StagingRef) → ◌≡◌ {A = Result (List StagingRef)} (ok a) (ok b) → a ≡ b
      ok_injective a b e = cc

  -- After a build job that pushed and ended with code 0, the publish job misses no staging ref.
  pub built-missing_staging :
      (usable : Bool) (s : Session docker) (plan : List Promotion)
      → (run_options state).push ≡ true
      → (build_push_main docker env usable work_dir pid_name state s).code ≡ 0
      → publish_plan state ≡ ok plan
      → (missing_staging docker plan (staged usable s)).1 ≡ []
  built-missing_staging usable s plan push code planned =
      missing_staging_lem docker laws plan (staged usable s)
      ∙ filter-nil_of (λ ref. not (has_ref docker laws (staged usable s) ref)) (map source_of plan)
          λ ref i.
            let (p, j, e) = IsIn-map_inv source_of ref plan i in
            rw (e, source_staged usable s plan p push code planned j) refl

  publish_succeeds :
      (plan : List Promotion) (t : Session docker)
      → CreateSucceeds docker laws
      → plan ≢ []
      → ((p : Promotion) → IsIn p plan → has_ref docker laws t p.source ≡ true)
      → (missing_staging docker plan t).1 ≡ []
      → (publish docker work_dir false plan t).code ≡ 0
  unfolding publish
  publish_succeeds [] t create ne there whole = absurd (ne refl)
  publish_succeeds (p ∷ plan) t create ne there whole = rw (whole) (
      promote_succeeds docker laws create work_dir (p ∷ plan) none []
        (missing_staging docker (p ∷ plan) t).0
        λ q i. missing_staging_keeps docker laws (p ∷ plan) t q.source ∙ there q i)

  -- After a build job that pushed and ended with code 0, publish.mjs has a plan.
  planned_of :
      (usable : Bool) (s : Session docker)
      → (run_options state).push ≡ true
      → (build_push_main docker env usable work_dir pid_name state s).code ≡ 0
      → (plan : List Promotion) × (publish_plan state ≡ ok plan)
  planned_of usable s push code = publish_plan_made state λ b i.
      let (refs, known, _) =
        build_push_main_stages docker laws push_laws env work_dir pid_name state usable s b push
          code i in
      (refs, known)

  -- A release goes through: if the run is no dry run and pushes, and some build has an image, then
  -- after a build job that ended with code 0 the publish job of the same state ends with code 0 too,
  -- provided that `imagetools create` succeeds whenever its source is there; and then every final
  -- tag of every image of every build is in its registry.
  pub release_completes :
      (usable : Bool) (s : Session docker) (some_build : Build) (some_image : BuildImage)
      → CreateSucceeds docker laws
      → state.dry_run ≡ false
      → state.options.push ≡ true
      → IsIn some_build state.builds
      → IsIn some_image some_build.images
      → (build_push_main docker env usable work_dir pid_name state s).code ≡ 0
      → ((publish_main docker work_dir state (staged usable s)).code ≡ 0)
        × ((b : Build) (image : BuildImage) (t : Text)
            → IsIn b state.builds
            → IsIn image b.images
            → IsIn t image.tags
            → has_ref docker laws (publish_main docker work_dir state (staged usable s)).session t
              ≡ true)
  release_completes usable s some_build some_image create real push built listed code =
      let pushes : (run_options state).push ≡ true = ground arith in
      let (plan, planned) = planned_of usable s pushes code in
      let (_, _, promoted) =
        publish_plan_cover state plan some_build some_image planned built listed in
      let run =
        publish_main_lem docker laws work_dir state plan false (staged usable s) planned real in
      let done : (publish_main docker work_dir state (staged usable s)).code ≡ 0 = rw run (
        publish_succeeds plan (staged usable s) create (IsIn-not_nil _ plan promoted)
          (λ p i. source_staged usable s plan p pushes code planned i)
          (built-missing_staging usable s plan pushes code planned)) in
      (
        done,
        λ b image t i j k.
            publish_main_complete docker laws work_dir state plan (staged usable s) b image t
              planned real done i j k,
      )
