-- ===== src/BuildPush/Staged.antt =====
-- What the loop over the variants leaves in the registries.
use message_pusher.Base.{
  ◌≡◌, refl, sym, ◌∙◌, ap, true, false, List, [], ◌∷◌, map, Option, arith, IsIn, inl, inr,
}
use message_pusher.Text.{Text, Env}
use message_pusher.Result.{Result, ok, err, >>=-eq-ok}
use message_pusher.Config.Images.{BuildOptions}
use message_pusher.Config.Tags.{staging_tag_name}
use message_pusher.State.{State, Build, BuildImage}
use message_pusher.Staging.{StagingRef, staging_ref, staging_refs_for}
use message_pusher.Docker.{Docker, Session, run_docker, ref_exists, exit_status}
use message_pusher.Publish.Registry.{RegistryLaws, has_ref, ref_exists_lem, ref_exists_keeps}
use message_pusher.BuildPush.{
  buildx_argv, buildx_create_argv, buildx_remove_argv, all_tags, run_options, Progress,
  every_exists, staging_complete, build_call, build_one, build_staged, build_planned, build_all,
  build_file,
}

-- Documented behaviour of `docker buildx build`, `create` and `rm`: a build with `--push` that
-- succeeds leaves all its tags in the registry, and none of the three takes a ref away.
pub record PushLaws (docker : Docker) (laws : RegistryLaws docker) : Type 0 where
  pub push_adds :
      (w : docker.World) (build : Build) (options : BuildOptions) (file builder : Text)
      (images : List StagingRef) (env : Env) (t : Text)
      → options.push ≡ true
      → exit_status (docker.run w (buildx_argv build options file builder images env)).1 ≡ 0
      → IsIn t (all_tags images)
      → laws.has (docker.run w (buildx_argv build options file builder images env)).0 t ≡ true
  pub build_keeps :
      (w : docker.World) (build : Build) (options : BuildOptions) (file builder : Text)
      (images : List StagingRef) (env : Env) (t : Text)
      → laws.has w t ≡ true
      → laws.has (docker.run w (buildx_argv build options file builder images env)).0 t ≡ true
  pub create_builder_keeps :
      (w : docker.World) (name : Text) (image : Option Text) (env : Env) (t : Text)
      → laws.has w t ≡ true
      → laws.has (docker.run w (buildx_create_argv name image env)).0 t ≡ true
  pub remove_builder_keeps :
      (w : docker.World) (name t : Text)
      → laws.has w t ≡ true
      → laws.has (docker.run w (buildx_remove_argv name)).0 t ≡ true

-- Every staging ref carries its own ref as its only tag.
IsIn-all_tags :
    (tag : Text) (images : List BuildImage) (r : StagingRef)
    → IsIn r (map (staging_ref tag) images)
    → IsIn r.ref_ (all_tags (map (staging_ref tag) images))
IsIn-all_tags tag [] r i = absurd i
IsIn-all_tags tag (x ∷ images) r (inl e) = inl (ap (λ (q : StagingRef). q.ref_) e)
IsIn-all_tags tag (x ∷ images) r (inr i) = inr (IsIn-all_tags tag images r i)

staging_refs_for-tags :
    (build : Build) (state : State) (refs : List StagingRef) (r : StagingRef)
    → staging_refs_for build state ≡ ok refs
    → IsIn r refs
    → IsIn r.ref_ (all_tags refs)
unfolding staging_refs_for
staging_refs_for-tags build state refs r h i =
    let (tag, _, same) =
      >>=-eq-ok (staging_tag_name state.version state.short_sha build.variant) _ h in
    let e : map (staging_ref tag) build.images ≡ refs = ground arith in
    rw (← e) (IsIn-all_tags tag build.images r (rw (← e) at i))

module _ (docker : Docker) (laws : RegistryLaws docker) where
  abbrev pub Has : Session docker → Text → Type 0
  Has s t = has_ref docker laws s t ≡ true

  every_exists_keeps :
      (refs : List StagingRef) (s : Session docker) (t : Text)
      → Has s t
      → Has (every_exists docker refs s).0 t
  unfolding every_exists
  every_exists_keeps [] s t h = h
  every_exists_keeps (r ∷ refs) s t h =
      let s1 = (ref_exists docker r.ref_ s).0 in
      let kept = ref_exists_keeps docker laws r.ref_ s t ∙ h in
      ground (arith, kept, every_exists_keeps refs s1 t kept)

  every_exists_step :
      (q : StagingRef) (refs : List StagingRef) (s : Session docker)
      → (every_exists docker (q ∷ refs) s).1 ≡ true
      → ((ref_exists docker q.ref_ s).1 ≡ true)
        × (every_exists docker (q ∷ refs) s
            ≡ every_exists docker refs (ref_exists docker q.ref_ s).0)
  unfolding every_exists
  every_exists_step q refs s h = ground arith

  -- If every lookup succeeds, every ref is there.
  every_exists_sound :
      (refs : List StagingRef) (s : Session docker) (r : StagingRef)
      → (every_exists docker refs s).1 ≡ true
      → IsIn r refs
      → Has (every_exists docker refs s).0 r.ref_
  every_exists_sound [] s r h i = absurd i
  every_exists_sound (q ∷ refs) s r h (inl e) =
      let (found, step) = every_exists_step q refs s h in
      let here : Has s q.ref_ = sym (ref_exists_lem docker laws q.ref_ s) ∙ found in
      let kept = ref_exists_keeps docker laws q.ref_ s q.ref_ ∙ here in
      rw (step, e) (every_exists_keeps refs (ref_exists docker q.ref_ s).0 q.ref_ kept)
  every_exists_sound (q ∷ refs) s r h (inr i) =
      let (found, step) = every_exists_step q refs s h in
      rw step (every_exists_sound refs (ref_exists docker q.ref_ s).0 r (rw step at h) i)

  staging_complete_keeps :
      (refs : List StagingRef) (s : Session docker) (t : Text)
      → Has s t
      → Has (staging_complete docker refs s).0 t
  unfolding staging_complete
  staging_complete_keeps [] s t h = h
  staging_complete_keeps (r ∷ refs) s t h = every_exists_keeps (r ∷ refs) s t h

  staging_complete_sound :
      (refs : List StagingRef) (s : Session docker) (r : StagingRef)
      → (staging_complete docker refs s).1 ≡ true
      → IsIn r refs
      → Has (staging_complete docker refs s).0 r.ref_
  unfolding staging_complete
  staging_complete_sound [] s r h i = absurd i
  staging_complete_sound (q ∷ refs) s r h i = every_exists_sound (q ∷ refs) s r h i

  -- The staging refs of a build are known and in the registry.
  abbrev pub IsStaged : State → Session docker → Build → Type 0
  IsStaged state s b =
      (refs : List StagingRef) × (staging_refs_for b state ≡ ok refs)
      × ((r : StagingRef) → IsIn r refs → Has s r.ref_)

  module _ (push_laws : PushLaws docker laws) (env : Env) (work_dir builder : Text)
      (state : State) where
    build_one_keeps :
        (build : Build) (staging : List StagingRef) (g : Progress docker) (s : Session docker)
        (t : Text)
        → Has s t
        → Has (build_one docker env work_dir builder state build staging g s).session t
    unfolding build_one run_docker
    build_one_keeps build staging g s t h = ground (
      arith,
      push_laws.build_keeps s.world build (run_options state)
          (build_file docker env work_dir builder state build) builder staging env t h,
    )

    build_one_adds :
        (build : Build) (staging : List StagingRef) (g : Progress docker) (s : Session docker)
        (t : Text)
        → (run_options state).push ≡ true
        → (build_one docker env work_dir builder state build staging g s).failed ≡ false
        → IsIn t (all_tags staging)
        → Has (build_one docker env work_dir builder state build staging g s).session t
    unfolding build_one run_docker
    build_one_adds build staging g s t push done i = ground (
      arith,
      λ (e : exit_status
              (docker.run s.world (build_call docker env work_dir builder state build staging)).1
            ≡ 0).
          push_laws.push_adds s.world build (run_options state)
            (build_file docker env work_dir builder state build) builder staging env t push e i,
    )

    build_staged_keeps :
        (build : Build) (staging : List StagingRef) (g : Progress docker) (t : Text)
        → Has g.session t
        → Has (build_staged docker env work_dir builder state build staging g).session t
    unfolding build_staged
    build_staged_keeps build staging g t h =
        let s1 = (staging_complete docker staging g.session).0 in
        let kept = staging_complete_keeps staging g.session t h in
        ground (
          arith,
          kept,
          build_one_keeps build staging g s1 t kept,
          build_one_keeps build staging g g.session t h,
        )

    build_staged_adds :
        (build : Build) (staging : List StagingRef) (g : Progress docker) (r : StagingRef)
        → (run_options state).push ≡ true
        → (build_staged docker env work_dir builder state build staging g).failed ≡ false
        → IsIn r staging
        → IsIn r.ref_ (all_tags staging)
        → Has (build_staged docker env work_dir builder state build staging g).session r.ref_
    unfolding build_staged
    build_staged_adds build staging g r push done i j =
        let s1 = (staging_complete docker staging g.session).0 in
        ground (
          arith,
          λ (e : (staging_complete docker staging g.session).1 ≡ true).
              staging_complete_sound staging g.session r e i,
          λ (e : (build_one docker env work_dir builder state build staging g s1).failed ≡ false).
              build_one_adds build staging g s1 r.ref_ push e j,
          λ (e : (build_one docker env work_dir builder state build staging g g.session).failed
                ≡ false).
              build_one_adds build staging g g.session r.ref_ push e j,
        )

    abbrev planned : Build → Progress docker → Progress docker
    planned build g =
        build_planned docker env work_dir builder state build (staging_refs_for build state) g

    abbrev pub all_built : List Build → Progress docker → Progress docker
    all_built builds g = build_all docker env work_dir builder state builds g

    build_planned_keeps :
        (build : Build) (refs : Result (List StagingRef)) (g : Progress docker) (t : Text)
        → Has g.session t
        → Has (build_planned docker env work_dir builder state build refs g).session t
    build_planned_keeps build (err e) g t h = h
    build_planned_keeps build (ok refs) g t h = build_staged_keeps build refs g t h

    build_all_keeps :
        (builds : List Build) (g : Progress docker) (t : Text)
        → Has g.session t
        → Has (all_built builds g).session t
    unfolding build_all
    build_all_keeps [] g t h = h
    build_all_keeps (build ∷ builds) g t h =
        let kept = build_planned_keeps build (staging_refs_for build state) g t h in
        ground (arith, kept, build_all_keeps builds (planned build g) t kept)

    build_all_step :
        (build : Build) (builds : List Build) (g : Progress docker)
        → (all_built (build ∷ builds) g).failed ≡ false
        → ((planned build g).failed ≡ false)
          × (all_built (build ∷ builds) g ≡ all_built builds (planned build g))
    unfolding build_all
    build_all_step build builds g h = ground arith

    build_planned_adds :
        (build : Build) (result : Result (List StagingRef)) (g : Progress docker)
        → (run_options state).push ≡ true
        → staging_refs_for build state ≡ result
        → (build_planned docker env work_dir builder state build result g).failed ≡ false
        → (refs : List StagingRef) × (staging_refs_for build state ≡ ok refs)
          × ((r : StagingRef)
              → IsIn r refs
              → Has (build_planned docker env work_dir builder state build result g).session r.ref_)
    build_planned_adds build (err e) g push known done = cc
    build_planned_adds build (ok refs) g push known done = (
      refs,
      known,
      λ r i.
          build_staged_adds build refs g r push done i
            (staging_refs_for-tags build state refs r known i),
    )

    pub build_all_adds :
        (builds : List Build) (g : Progress docker) (b : Build)
        → (run_options state).push ≡ true
        → (all_built builds g).failed ≡ false
        → IsIn b builds
        → IsStaged state (all_built builds g).session b
    build_all_adds [] g b push done i = absurd i
    build_all_adds (build ∷ builds) g b push done (inl e) =
        let (first, step) = build_all_step build builds g done in
        let (refs, known, there) =
          build_planned_adds build (staging_refs_for build state) g push refl first in
        rw (step, e)
          (refs, known, λ r i. build_all_keeps builds (planned build g) r.ref_ (there r i))
    build_all_adds (build ∷ builds) g b push done (inr i) =
        let (first, step) = build_all_step build builds g done in
        rw step (build_all_adds builds (planned build g) b push (rw step at done) i)
