-- ===== src/State.antt =====
-- The state file that the programs of .forgejo/scripts hand on: what `resolveRelease` of
-- resolve.mjs returns, the builds that meta.mjs adds, and the results of build-push.mjs and
-- publish.mjs.
use message_pusher.Base.{Bool, List}
use message_pusher.Text.{Text}
use message_pusher.Config.Lists.{KeyValue}
use message_pusher.Config.Variants.{Variant}
use message_pusher.Config.Images.{RegistryId, Registry, Image, BuildOptions}

-- The final tags of one build on one image base.
pub record BuildImage : Type 0 where
  pub base : Text
  pub registry_id : RegistryId
  pub tags : List Text

pub record Build : Type 0 where
  pub variant : Text
  pub suffix : Text
  pub dockerfile : Text
  pub target : Text
  pub is_default : Bool
  pub build_args : List KeyValue
  pub platforms : List Text
  pub tag_names : List Text
  pub labels : List KeyValue
  pub images : List BuildImage

pub record State : Type 0 where
  pub version : Text
  pub tag : Text
  pub prerelease : Bool
  pub sha : Text
  pub short_sha : Text
  pub repo : Text
  pub repo_name : Text
  pub server_url : Text
  pub ref_ : Text
  pub is_tag_event : Bool
  pub is_branch_event : Bool
  pub is_pr_event : Bool
  pub dry_run : Bool
  pub variants : List Variant
  pub registries : List Registry
  pub images : List Image
  pub options : BuildOptions
  pub builds : List Build
