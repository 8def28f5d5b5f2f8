-- ===== src/Publish/Promote.antt =====
-- What a run of publish.mjs leaves in the registries.
use message_pusher.Base.{
  ◌≡◌, refl, Bool, true, false, not, List, [], map, none, arith, IsIn, is_empty_of_IsIn, IsIn-map,
  IsIn-filter_intro,
}
use message_pusher.Text.{Text}
use message_pusher.Result.{ok}
use message_pusher.State.{State, Build, BuildImage}
use message_pusher.Docker.{Docker, Session}
use message_pusher.Publish.{Promotion, missing_staging, publish, publish_plan, publish_main}
use message_pusher.Publish.Registry.{
  RegistryLaws, has_ref, source_of, missing_staging_lem, missing_staging_keeps, promote_adds,
}
use message_pusher.Publish.Plan.{publish_plan_cover}

module _ (docker : Docker) (laws : RegistryLaws docker) (work_dir : Text) where
  -- A source that is not in the registry is among the missing ones.
  IsIn-missing_staging :
      (plan : List Promotion) (s : Session docker) (p : Promotion)
      → IsIn p plan
      → has_ref docker laws s p.source ≡ false
      → IsIn p.source (missing_staging docker plan s).1
  IsIn-missing_staging plan s p i e = rw (missing_staging_lem docker laws plan s) (
      IsIn-filter_intro (λ ref. not (has_ref docker laws s ref)) p.source (map source_of plan)
        (IsIn-map source_of p plan i) (rw e refl))

  -- The run stops behind the look at the staging refs, with their session.
  publish_stops :
      (plan : List Promotion) (s : Session docker) (p : Promotion)
      → IsIn p plan
      → has_ref docker laws s p.source ≡ false
      → ((publish docker work_dir false plan s).code ≡ 1)
        × ((publish docker work_dir false plan s).results ≡ none)
        × ((publish docker work_dir false plan s).session ≡ (missing_staging docker plan s).0)
  unfolding publish
  publish_stops plan s p i e = ground (
    arith,
    is_empty_of_IsIn p plan i,
    is_empty_of_IsIn p.source (missing_staging docker plan s).1 (IsIn-missing_staging plan s p i e),
  )

  pub publish_main_lem :
      (state : State) (plan : List Promotion) (dry_run : Bool) (s : Session docker)
      → publish_plan state ≡ ok plan
      → state.dry_run ≡ dry_run
      → publish_main docker work_dir state s ≡ publish docker work_dir dry_run plan s
  unfolding publish_main
  publish_main_lem state plan dry_run s planned e = rw (planned, e) refl

  -- Outside a dry run, with a plan that `publishPlan` has made: if one staging ref of the plan is not
  -- in its registry, the program ends with code 1, leaves the state file alone and every registry as
  -- it was, so that no final tag of any variant appears.
  pub publish_all_or_nothing :
      (state : State) (plan : List Promotion) (p : Promotion) (s : Session docker) (t : Text)
      → publish_plan state ≡ ok plan
      → state.dry_run ≡ false
      → IsIn p plan
      → has_ref docker laws s p.source ≡ false
      → ((publish_main docker work_dir state s).code ≡ 1)
        × ((publish_main docker work_dir state s).results ≡ none)
        × (has_ref docker laws (publish_main docker work_dir state s).session t
            ≡ has_ref docker laws s t)
  publish_all_or_nothing state plan p s t planned real i e =
      let (code, results, session) = publish_stops plan s p i e in
      let kept = missing_staging_keeps docker laws plan s t in
      rw (publish_main_lem state plan false s planned real) (code, results, rw session kept)

  -- A run that ends with code 0 outside a dry run has promoted its whole plan.
  publish_complete :
      (plan : List Promotion) (s : Session docker) (p : Promotion) (t : Text)
      → (publish docker work_dir false plan s).code ≡ 0
      → IsIn p plan
      → IsIn t p.tags
      → has_ref docker laws (publish docker work_dir false plan s).session t ≡ true
  unfolding publish
  publish_complete plan s p t h i j = ground (
    arith,
    is_empty_of_IsIn p plan i,
    promote_adds docker laws work_dir plan none [] (missing_staging docker plan s).0 p t,
  )

  -- If the program ends with code 0 outside a dry run, every final tag of every image of every build
  -- is in its registry.
  pub publish_main_complete :
      (state : State) (plan : List Promotion) (s : Session docker) (b : Build) (image : BuildImage)
      (t : Text)
      → publish_plan state ≡ ok plan
      → state.dry_run ≡ false
      → (publish_main docker work_dir state s).code ≡ 0
      → IsIn b state.builds
      → IsIn image b.images
      → IsIn t image.tags
      → has_ref docker laws (publish_main docker work_dir state s).session t ≡ true
  publish_main_complete state plan s b image t planned real code i j k =
      let (tag, _, m) = publish_plan_cover state plan b image planned i j in
      let code' : (publish docker work_dir false plan s).code ≡ 0 =
        rw (publish_main_lem state plan false s planned real) at code in
      rw (publish_main_lem state plan false s planned real) (publish_complete plan s _ t code' m k)

  -- A dry run makes no call of docker and leaves the state file alone.
  pub publish_main-dry_run :
      (state : State) (s : Session docker)
      → state.dry_run ≡ true
      → ((publish_main docker work_dir state s).session ≡ s)
        × ((publish_main docker work_dir state s).results ≡ none)
  unfolding publish_main publish
  publish_main-dry_run state s h = ground arith
