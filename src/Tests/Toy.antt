-- ===== src/Tests/Toy.antt =====
-- A registry that is a list of refs: a docker command that is no `inspect` succeeds, and puts every
-- word of its command line there. It shows that the laws of registries and builds can be met.
use message_pusher.Base.{
  ℕ, ◌≡◌, refl, Bool, true, false, List, [], ◌∷◌, ◌++◌, Option, none, some, eqb, if◌then◌else◌,
  IsIn, IsIn-append_left, IsIn-append_right, Bool-cases, inl, inr,
}
use message_pusher.Text.{Text, txt, includes, ◌==◌, Env}
use message_pusher.Text.Laws.{includes_iff}
use message_pusher.Config.Images.{BuildOptions}
use message_pusher.State.{Build}
use message_pusher.Staging.{StagingRef}
use message_pusher.Docker.{Docker, inspect_argv, exit_status}
use message_pusher.Publish.{promotion_argv, tag_args}
use message_pusher.Publish.Registry.{RegistryLaws}
use message_pusher.BuildPush.{
  buildx_argv, buildx_head, buildx_create_argv, buildx_remove_argv, all_tags, flag_each,
  optional_flag,
}
use message_pusher.BuildPush.Staged.{PushLaws}
use message_pusher.Pipeline.Sources.{CreateSucceeds}

abbrev third : List Text → Text
third (_ ∷ _ ∷ c ∷ _) = c
third _ = []

abbrev fourth : List Text → Text
fourth (_ ∷ _ ∷ _ ∷ d ∷ _) = d
fourth _ = []

abbrev is_inspect : List Text → Bool
is_inspect argv = third argv == txt "inspect"

unfoldable pub toy_run : List Text → List Text → List Text × Option ℕ
toy_run w argv =
    if is_inspect argv
    then (w, if includes w (fourth argv) then some 0 else some 1)
    else (argv ++ w, some 0)

abbrev pub toy : Docker
toy = record { World = List Text; run = toy_run; metadata_digest = λ w file. none }

-- What was there stays, whatever the command.
pub toy_keeps :
    (w argv : List Text) (t : Text) → includes w t ≡ true → includes (toy_run w argv).0 t ≡ true
unfolding toy_run
toy_keeps w argv t h = elim (Bool-cases (is_inspect argv)) [
  | inl e ↦ rw e h
  | inr e ↦
      rw e ((includes_iff (argv ++ w) t).1 (IsIn-append_right t argv w ((includes_iff w t).0 h)))
]

-- A word of a command that is no `inspect` is there afterwards.
pub toy_adds :
    (w argv : List Text) (t : Text)
    → is_inspect argv ≡ false
    → IsIn t argv
    → includes (toy_run w argv).0 t ≡ true
unfolding toy_run
toy_adds w argv t e i = rw e ((includes_iff (argv ++ w) t).1 (IsIn-append_left t argv w i))

IsIn-tag_args : (t : Text) (tags : List Text) → IsIn t tags → IsIn t (tag_args tags)
IsIn-tag_args t [] i = absurd i
IsIn-tag_args t (x ∷ tags) (inl e) = inr (inl e)
IsIn-tag_args t (x ∷ tags) (inr i) = inr (inr (IsIn-tag_args t tags i))

IsIn-flag_each : (t flag : Text) (tags : List Text) → IsIn t tags → IsIn t (flag_each flag tags)
IsIn-flag_each t flag [] i = absurd i
IsIn-flag_each t flag (x ∷ tags) (inl e) = inr (inl e)
IsIn-flag_each t flag (x ∷ tags) (inr i) = inr (inr (IsIn-flag_each t flag tags i))

pub promotion-not_inspect :
    (source : Text) (tags : List Text) (file : Text)
    → is_inspect (promotion_argv source tags file) ≡ false
unfolding promotion_argv ◌==◌
promotion-not_inspect source tags file = refl

pub IsIn-promotion_argv :
    (source : Text) (tags : List Text) (file t : Text)
    → IsIn t tags
    → IsIn t (promotion_argv source tags file)
unfolding promotion_argv
IsIn-promotion_argv source tags file t i =
    inr (inr (inr (IsIn-append_left t (tag_args tags) _ (IsIn-tag_args t tags i))))

pub inspect_status :
    (w : List Text) (ref : Text)
    → eqb (exit_status (toy_run w (inspect_argv ref)).1) 0 ≡ includes w ref
unfolding toy_run ◌==◌ exit_status
inspect_status w ref = elim (Bool-cases (includes w ref)) [ inl e ↦ rw e refl | inr e ↦ rw e refl ]

pub inspect_keeps :
    (w : List Text) (ref t : Text) → includes (toy_run w (inspect_argv ref)).0 t ≡ includes w t
unfolding toy_run ◌==◌
inspect_keeps w ref t = refl

abbrev pub toy_laws : RegistryLaws toy
toy_laws = record {
  has = includes;
  inspect_status = inspect_status;
  inspect_keeps = inspect_keeps;
  create_adds = λ w source tags file t _ i.
      toy_adds w (promotion_argv source tags file) t (promotion-not_inspect source tags file)
        (IsIn-promotion_argv source tags file t i);
  create_keeps = λ w source tags file t h. toy_keeps w (promotion_argv source tags file) t h;
}

pub build-not_inspect :
    (build : Build) (options : BuildOptions) (file builder : Text) (images : List StagingRef)
    (env : Env)
    → is_inspect (buildx_argv build options file builder images env) ≡ false
unfolding buildx_argv ◌==◌
build-not_inspect build options file [] images env = refl
build-not_inspect build options file (c ∷ builder) images env = refl

pub IsIn-buildx_argv :
    (build : Build) (options : BuildOptions) (file builder : Text) (images : List StagingRef)
    (env : Env) (t : Text)
    → IsIn t (all_tags images)
    → IsIn t (buildx_argv build options file builder images env)
unfolding buildx_argv
IsIn-buildx_argv build options file builder images env t i =
    IsIn-append_left t (buildx_head build options file builder images env) _ (
      inr (
        inr (
          IsIn-append_right t (optional_flag (txt "--builder") builder) _ (
            inr (
              inr (
                IsIn-append_right t (optional_flag (txt "--target") build.target) _ (
                  IsIn-append_left t (flag_each (txt "--tag") (all_tags images)) _
                    (IsIn-flag_each t (txt "--tag") (all_tags images) i))))))))

abbrev pub toy_push_laws : PushLaws toy toy_laws
toy_push_laws = record {
  push_adds = λ w build options file builder images env t _ _ i.
      toy_adds w (buildx_argv build options file builder images env) t
        (build-not_inspect build options file builder images env)
        (IsIn-buildx_argv build options file builder images env t i);
  build_keeps = λ w build options file builder images env t h.
      toy_keeps w (buildx_argv build options file builder images env) t h;
  create_builder_keeps =
      λ w name image env t h. toy_keeps w (buildx_create_argv name image env) t h;
  remove_builder_keeps = λ w name t h. toy_keeps w (buildx_remove_argv name) t h;
}

pub toy_create : CreateSucceeds toy toy_laws
unfolding toy_run promotion_argv ◌==◌ exit_status
toy_create w source tags file h = refl
