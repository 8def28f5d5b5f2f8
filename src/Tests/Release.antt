-- ===== src/Tests/Release.antt =====
-- Concrete releases of one variant: publish.mjs, build-push.mjs and the two jobs together.
use message_pusher.Base.{◌≡◌, refl, Bool, true, false, not, List, [], ◌∷◌, none, IsIn, inl}
use message_pusher.Text.{
  Text, txt, Env, ◌==◌, includes, trim, is_space, drop_while, drop_end_while, to_lower, lower_unit,
  join,
}
use message_pusher.Result.{ok}
use message_pusher.Config.Lists.{read_optional, is_truthy, platforms_for}
use message_pusher.Config.Tags.{sanitize_tag_name, collapse, staging_tag_name}
use message_pusher.Config.Images.{ghcr}
use message_pusher.State.{State, Build, BuildImage}
use message_pusher.Staging.{staging_refs_for}
use message_pusher.Docker.{Session, run_docker, ref_exists, exit_status}
use message_pusher.Publish.{
  Promotion, source_of, image_promotions, promotions, publish_plan, missing_staging, promote,
  publish, publish_planned, publish_main, promotion_argv,
}
use message_pusher.Publish.Registry.{has_ref}
use message_pusher.Publish.Promote.{publish_all_or_nothing, publish_main_complete}
use message_pusher.BuildPush.{
  build_push_main, build_push_run, build_all, build_staged, build_one, staging_complete,
  every_exists, needs_builder, remove_builder, buildx_argv, label_args, proxies_from, set_arg,
  set_args, has_arg, add_missing, effective_build_args, buildx_create_argv,
}
use message_pusher.BuildPush.Staged.{IsStaged}
use message_pusher.BuildPush.Run.{build_push_main_stages}
use message_pusher.Pipeline.{release_completes, staged}
use message_pusher.Tests.Toy.{toy, toy_run, toy_laws, toy_push_laws, toy_create}

abbrev demo_tag : Text
demo_tag = txt "ghcr.io/o/app:1.2.3-alpine"

abbrev demo_source : Text
demo_source = txt "ghcr.io/o/app:staging-1.2.3-abc-alpine"

abbrev demo_image : BuildImage
demo_image = record { base = txt "ghcr.io/o/app"; registry_id = ghcr; tags = demo_tag ∷ [] }

abbrev demo_build : Build
demo_build = record {
  variant = txt "alpine";
  suffix = txt "-alpine";
  dockerfile = txt "Dockerfile.alpine";
  target = [];
  is_default = true;
  build_args = [];
  platforms = txt "linux/amd64" ∷ txt "linux/arm64" ∷ [];
  tag_names = txt "1.2.3-alpine" ∷ [];
  labels = [];
  images = demo_image ∷ [];
}

abbrev demo_state : Bool → State
demo_state dry_run = record {
  version = txt "1.2.3";
  tag = txt "v1.2.3";
  prerelease = false;
  sha = txt "abcdef";
  short_sha = txt "abc";
  repo = txt "o/app";
  repo_name = txt "app";
  server_url = txt "https://x";
  ref_ = txt "refs/tags/v1.2.3";
  is_tag_event = true;
  is_branch_event = false;
  is_pr_event = false;
  dry_run = dry_run;
  variants = [];
  registries = [];
  images = [];
  options = record {
    context = txt ".";
    platforms = [];
    build_args = [];
    dry_run = dry_run;
    push = not dry_run;
  };
  builds = demo_build ∷ [];
}

abbrev demo_promotion : Promotion
demo_promotion = record {
  variant = txt "alpine";
  base = txt "ghcr.io/o/app";
  registry_id = ghcr;
  source = demo_source;
  tags = demo_tag ∷ [];
}

abbrev demo_plan : List Promotion
demo_plan = demo_promotion ∷ []

abbrev no_env : Env
no_env name = none

abbrev work : Text
work = txt "/tmp"

abbrev session_of : List Text → Session toy
session_of refs = record { world = refs; calls = [] }

demo_planned : publish_plan (demo_state false) ≡ ok demo_plan
unfolding publish_plan promotions staging_refs_for staging_tag_name sanitize_tag_name trim
    drop_while drop_end_while is_space collapse image_promotions source_of ◌==◌
demo_planned = refl

demo_built :
    (build_push_main toy no_env true work (txt "pid") (demo_state false) (session_of [])).code ≡ 0
unfolding build_push_main build_push_run needs_builder platforms_for buildx_create_argv
    read_optional trim drop_while drop_end_while is_space proxies_from run_docker toy_run ◌==◌
    exit_status build_all staging_refs_for staging_tag_name sanitize_tag_name collapse build_staged
    staging_complete every_exists ref_exists is_truthy to_lower lower_unit includes build_one
    buildx_argv label_args set_arg set_args has_arg add_missing effective_build_args join
    remove_builder
demo_built = refl

demo_published : (publish_main toy work (demo_state false) (session_of (demo_source ∷ []))).code ≡ 0
unfolding publish_main publish_planned publish missing_staging ref_exists run_docker toy_run ◌==◌
    exit_status includes promote promotion_argv publish_plan promotions staging_refs_for
    staging_tag_name sanitize_tag_name trim drop_while drop_end_while is_space collapse
    image_promotions source_of
demo_published = refl

release_completes_example :
    ((publish_main toy work (demo_state false) (
        staged toy toy_laws toy_push_laws no_env work
          (txt "pid")
          (demo_state false)
          true
          (session_of []))).code
      ≡ 0)
    × ((b : Build) (image : BuildImage) (t : Text)
        → IsIn b (demo_build ∷ [])
        → IsIn image b.images
        → IsIn t image.tags
        → has_ref toy toy_laws
            (publish_main toy work (demo_state false) (
              staged toy toy_laws toy_push_laws no_env work
                (txt "pid")
                (demo_state false)
                true
                (session_of []))).session
            t
          ≡ true)
release_completes_example =
    release_completes toy toy_laws toy_push_laws no_env work (txt "pid") (demo_state false) true
      (session_of []) demo_build demo_image toy_create refl refl (inl refl) (inl refl) demo_built

build_push_main_stages_example :
    IsStaged toy toy_laws
      (demo_state false)
      (build_push_main toy no_env true work (txt "pid") (demo_state false) (session_of [])).session
      demo_build
build_push_main_stages_example =
    build_push_main_stages toy toy_laws toy_push_laws no_env work (txt "pid") (demo_state false)
      true (session_of []) demo_build refl demo_built (inl refl)

demo_absent : has_ref toy toy_laws (session_of (demo_tag ∷ [])) demo_source ≡ false
unfolding includes ◌==◌
demo_absent = refl

publish_all_or_nothing_example :
    ((publish_main toy work (demo_state false) (session_of (demo_tag ∷ []))).code ≡ 1)
    × ((publish_main toy work (demo_state false) (session_of (demo_tag ∷ []))).results ≡ none)
    × (has_ref toy toy_laws
          (publish_main toy work (demo_state false) (session_of (demo_tag ∷ []))).session
          demo_tag
        ≡ has_ref toy toy_laws (session_of (demo_tag ∷ [])) demo_tag)
publish_all_or_nothing_example =
    publish_all_or_nothing toy toy_laws work (demo_state false) demo_plan demo_promotion
      (session_of (demo_tag ∷ [])) demo_tag demo_planned refl (inl refl) demo_absent

publish_main_complete_example :
    has_ref toy toy_laws
      (publish_main toy work (demo_state false) (session_of (demo_source ∷ []))).session
      demo_tag
    ≡ true
publish_main_complete_example =
    publish_main_complete toy toy_laws work (demo_state false) demo_plan
      (session_of (demo_source ∷ [])) demo_build demo_image demo_tag demo_planned refl
      demo_published (inl refl) (inl refl) (inl refl)
