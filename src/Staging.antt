-- ===== src/Staging.antt =====
-- `stagingRefsFor` of .forgejo/scripts/config.mjs: where a build is pushed before it is published.
use message_pusher.Base.{List, [], ◌∷◌, map}
use message_pusher.Text.{Text}
use message_pusher.Result.{Result, ok, ◌>>=◌}
use message_pusher.Config.Images.{RegistryId}
use message_pusher.Config.Tags.{staging_tag_name}
use message_pusher.State.{State, Build, BuildImage}
use message_pusher.Meta.Plan.{image_ref}

pub record StagingRef : Type 0 where
  pub base : Text
  pub registry_id : RegistryId
  pub tag : Text
  pub ref_ : Text
  pub tags : List Text

abbrev pub staging_ref : Text → BuildImage → StagingRef
staging_ref tag image = record {
  base = image.base;
  registry_id = image.registry_id;
  tag = tag;
  ref_ = image_ref image.base tag;
  tags = image_ref image.base tag ∷ [];
}

unfoldable pub staging_refs_for : Build → State → Result (List StagingRef)
staging_refs_for build state = do
  tag ← staging_tag_name state.version state.short_sha build.variant
  ok (map (staging_ref tag) build.images)
