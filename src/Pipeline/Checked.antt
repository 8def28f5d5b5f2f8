-- ===== src/Pipeline/Checked.antt =====
-- The programs of a release after resolve.mjs, one after the other: preflight.mjs, meta.mjs,
-- build-push.mjs and publish.mjs.
use message_pusher.Base.{
  ◌≡◌, ◌≢◌, ◌⊎◌, refl, sym, ap, ◌∙◌, Bool, true, false, List, [], ◌∷◌, All, All-of_IsIn, IsIn,
  IsIn-map, is_empty, inl, inr, subst,
}
use message_pusher.Text.{Text, Env}
use message_pusher.Result.{ok}
use message_pusher.Config.Variants.{Variant}
use message_pusher.Config.Images.{Image}
use message_pusher.Runtime.{Runtime}
use message_pusher.Paths.{Paths}
use message_pusher.Machine.{Machine}
use message_pusher.State.{State, Build, BuildImage}
use message_pusher.Endpoints.{DockerProbe}
use message_pusher.Meta.Plan.{image_ref, image_with_tags}
use message_pusher.Meta.Plan.Cover.{compute_builds-cover}
use message_pusher.Docker.{Docker, Session}
use message_pusher.Preflight.{enabled_of, planned, preflight_checks}
use message_pusher.Preflight.Passed.{preflight_checks_pass}
use message_pusher.Publish.{publish_main}
use message_pusher.Publish.Registry.{RegistryLaws, has_ref}
use message_pusher.BuildPush.{build_push_main}
use message_pusher.BuildPush.Staged.{PushLaws}
use message_pusher.Pipeline.{staged, release_completes}
use message_pusher.Pipeline.Sources.{CreateSucceeds}

module _ (docker : Docker) (laws : RegistryLaws docker) (push_laws : PushLaws docker laws)
    (env : Env) (work_dir pid_name : Text) (runtime : Runtime) (state : State) where
  -- The state with the builds that meta.mjs adds.
  abbrev pub with_builds : List Build → State
  with_builds builds = record state { builds = builds }

  abbrev pub published_session : Bool → List Build → Session docker → Session docker
  published_session usable builds s =
      (publish_main docker work_dir (with_builds builds)
        (staged docker laws push_laws env work_dir pid_name (with_builds builds) usable s)).session

  -- Each variant has a build whose names are tags of each image in its registry.
  abbrev pub IsReleased : List Build → Session docker → Type 0
  IsReleased builds t =
      All
        (λ (v : Variant).
          (b : Build) × IsIn b builds
          × (b.variant ≡ v.name)
          × All
              (λ (image : Image).
                All (λ name. has_ref docker laws t (image_ref image.base name) ≡ true) b.tag_names)
              state.images)
        state.variants

  -- A variant has a build, and the build each image of the run.
  some_built :
      (builds : List Build) (now : Text) (v : Variant) (image : Image)
      → planned runtime state env now ≡ ok builds
      → IsIn v state.variants
      → IsIn image state.images
      → (b : Build) × (its_image : BuildImage) × IsIn b builds × IsIn its_image b.images
  some_built builds now v image made i j =
      let (b, listed, (labels, names, same)) =
        compute_builds-cover runtime state _ _ _ now builds v made i in
      (
        b,
        image_with_tags names image,
        listed,
        subst (λ (x : Build). IsIn (image_with_tags names image) x.images) (sym same)
            (IsIn-map (image_with_tags names) image state.images j),
      )

  -- After a build job that ended with code 0, for builds that meta.mjs has planned.
  released :
      (builds : List Build) (t : Session docker) (now : Text)
      → planned runtime state env now ≡ ok builds
      → ((b : Build) (image : BuildImage) (ref_ : Text)
          → IsIn b builds
          → IsIn image b.images
          → IsIn ref_ image.tags
          → has_ref docker laws t ref_ ≡ true)
      → IsReleased builds t
  released builds t now made there = All-of_IsIn _ state.variants λ v i.
      let (b, listed, (labels, names, same)) =
        compute_builds-cover runtime state _ _ _ now builds v made i in
      let whole : All
          (λ (image : Image).
            All (λ name. has_ref docker laws t (image_ref image.base name) ≡ true) b.tag_names)
          state.images =
        All-of_IsIn _ state.images λ image j. All-of_IsIn _ b.tag_names λ name k.
          let names_same : b.tag_names ≡ names = ap (λ (x : Build). x.tag_names) same in
          let its_image : IsIn (image_with_tags names image) b.images =
            subst (λ (x : Build). IsIn (image_with_tags names image) x.images) (sym same)
              (IsIn-map (image_with_tags names) image state.images j) in
          there b (image_with_tags names image) (image_ref image.base name) listed its_image
            (IsIn-map (image_ref image.base) name names (subst (IsIn name) names_same k)) in
      (b, listed, ap (λ (x : Build). x.variant) same, whole)

  -- The programs of a release, one after the other: if preflight.mjs finds no error in a state that
  -- has a variant and is to be pushed in no dry run, meta.mjs plans its builds, and build-push.mjs
  -- ends with code 0, then publish.mjs ends with code 0, provided that `imagetools create` succeeds
  -- whenever its source is there; and then every variant has a build all of whose tag names are there
  -- for every image.
  pub release_checked :
      (machine : Machine) (paths : Paths) (seen : DockerProbe) (w : machine.World) (usable : Bool)
      (s : Session docker) (builds : List Build) (checked_at planned_at : Text)
      → CreateSucceeds docker laws
      → (preflight_checks machine paths runtime state env seen checked_at w).1.errors ≡ []
      → state.dry_run ≡ false
      → state.options.push ≡ true
      → state.variants ≢ []
      → planned runtime state env planned_at ≡ ok builds
      → (build_push_main docker env usable work_dir pid_name (with_builds builds) s).code ≡ 0
      → ((publish_main docker work_dir
            (with_builds builds)
            (staged docker laws push_laws env work_dir pid_name (with_builds builds) usable s)).code
          ≡ 0)
        × IsReleased builds (published_session usable builds s)
  release_checked machine paths seen w usable s builds checked_at planned_at create fine real push
        some_variant made code =
      let (_, _, _, _, _, targets) =
        preflight_checks_pass machine paths runtime state env seen checked_at w fine in
      let (image, j) = some_image targets in
      let (v, i) = first_of_ne state.variants some_variant in
      let (b, its_image, built, listed) = some_built builds planned_at v image made i j in
      let (done, there) =
        release_completes docker laws push_laws env work_dir pid_name (with_builds builds) usable s
          b its_image create real push built listed code in
      (done, released builds (published_session usable builds s) planned_at made there)
    where
      first_of_ne : {A : Type 0} (xs : List A) → xs ≢ [] → (x : A) × IsIn x xs
      first_of_ne [] ne = absurd (ne refl)
      first_of_ne (x ∷ xs) ne = (x, inl refl)

      first_of :
          (images : List Image) → is_empty images ≡ false → (image : Image) × IsIn image images
      first_of [] h = cc
      first_of (x ∷ xs) h = (x, inl refl)

      some_image :
          (state.dry_run ≡ true)
            ⊎ ((is_empty (enabled_of state) ≡ false) × (is_empty state.images ≡ false))
          → (image : Image) × IsIn image state.images
      some_image (inl dry) = let wrong : true ≡ false = sym dry ∙ real in cc wrong
      some_image (inr (_, h)) = first_of state.images h
