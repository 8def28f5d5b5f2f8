-- ===== src/Config/Images.antt =====
-- .forgejo/scripts/config.mjs, lines 258-383: image bases, registries, and the build options.
pub mod Normal
pub mod Enabled
use message_pusher.Base.{
  ℕ, Bool, true, false, not, ◌&&◌, ◌||◌, List, [], ◌∷◌, ◌++◌, map, Option, none, some, eqb,
  is_empty, filter, any, all, if◌then◌else◌, drop, length, find?, ltb,
}
use message_pusher.Text.{
  Text, txt, Env, ◌==◌, trim, split_on, starts_with, strip_prefix, drop_end_while, has_unit,
  to_lower, is_lower, is_digit,
}
use message_pusher.Result.{
  Result, ok, err, guard, traverse, ◌>>=◌, ◌>>◌, empty_image, unsupported_registry, bad_ghcr_image,
  bad_image, namespace_expected, missing_credential, no_repo_name,
}
use message_pusher.Config.Lists.{KeyValue, read_optional, split_list, parse_key_values, is_nonempty}

pub data RegistryId : Type 0 where
  ghcr dockerhub : RegistryId

-- `entry.id === 'ghcr'` and the like
abbrev pub same_registry : RegistryId → RegistryId → Bool
same_registry ghcr ghcr = true
same_registry dockerhub dockerhub = true
same_registry _ _ = false

-- An entry of `registriesFrom`: it names the variable of its token, never the token.
pub record Registry : Type 0 where
  pub id : RegistryId
  pub registry : Text
  pub token_var : Text
  pub user : Text
  pub namespace : Text
  pub enabled : Bool

pub record Image : Type 0 where
  pub base : Text
  pub registry_id : RegistryId
  pub preview : Bool

-- `value.replace(/^https?:\/\//, '')`
abbrev pub strip_scheme : Text → Text
strip_scheme value =
    if starts_with value (txt "https://")
    then drop 8 value
    else if starts_with value (txt "http://")
    then drop 7 value
    else value

abbrev pub is_slash : ℕ → Bool
is_slash c = eqb c b'/'

-- `value.split(c)[0]`
unfoldable pub first_piece : (ℕ → Bool) → Text → Text
first_piece p [] = []
first_piece p (c ∷ s) = if p c then [] else c ∷ first_piece p s

abbrev pub is_image_head : ℕ → Bool
is_image_head c = is_lower c || is_digit c

abbrev pub is_image_unit : ℕ → Bool
is_image_unit c = is_lower c || is_digit c || eqb c b'.' || eqb c b'_' || eqb c b'/' || eqb c b'-'

-- `/^[a-z0-9][a-z0-9._/-]*$/`
unfoldable pub is_image_name : Text → Bool
is_image_name [] = false
is_image_name (c ∷ s) = is_image_head c && all is_image_unit s

-- A first part that names a host: it holds a dot or a colon.
abbrev pub is_host : Text → Bool
is_host head = has_unit b'.' head || has_unit b':' head

-- The checks of `normalizeImageBase` on the stripped value.
unfoldable pub check_image_base : Text → Text → Result Text
check_image_base base value = do
  let head = first_piece is_slash value
  guard (not (is_host head) || head == txt "ghcr.io") (unsupported_registry base)
  guard (not (is_host head) || starts_with value (txt "ghcr.io/")) (bad_ghcr_image base)
  guard (is_image_name value) (bad_image base)
  ok value

-- Scheme, trailing slashes, case and the Docker Hub host are normalized away.
unfoldable pub strip_image_base : Text → Text
strip_image_base base = to_lower (drop_end_while is_slash (strip_scheme (trim base)))

unfoldable pub normalize_image_base : Text → Result Text
normalize_image_base base = do
  let value = strip_image_base base
  guard (is_nonempty value) empty_image
  check_image_base base (strip_prefix (txt "docker.io/") value)

unfoldable pub image_registry_of : Text → Result RegistryId
image_registry_of base = do
  value ← normalize_image_base base
  if starts_with value (txt "ghcr.io/")
      then ok ghcr
      else if has_unit b'/' value
      then ok dockerhub
      else err (namespace_expected base)

-- Piece `1` of a text split at slashes, or the empty text.
abbrev pub second_piece : List Text → Text
second_piece (_ ∷ x ∷ _) = x
second_piece _ = []

abbrev pub pieces : Text → List Text
pieces s = split_on is_slash s

abbrev pub piece_0 : List Text → Text
piece_0 [] = []
piece_0 (x ∷ _) = x

unfoldable pub ghcr_namespace_from : Env → Text
ghcr_namespace_from env =
    let repo_owner = piece_0 (pieces (read_optional (env (txt "GITHUB_REPOSITORY")))) in
    let image =
      to_lower (drop_end_while is_slash (strip_scheme (read_optional (env (txt "GHCR_IMAGE"))))) in
    if is_empty image
    then repo_owner
    else if piece_0 (pieces image) == txt "ghcr.io"
    then second_piece (pieces image)
    else piece_0 (pieces image)

abbrev pub ghcr_entry : Env → Registry
ghcr_entry env = record {
  id = ghcr;
  registry = txt "ghcr.io";
  token_var = txt "GHCR_TOKEN";
  user = ghcr_namespace_from env;
  namespace = ghcr_namespace_from env;
  enabled =
      is_nonempty (read_optional (env (txt "GHCR_TOKEN"))) && is_nonempty (ghcr_namespace_from env);
}

abbrev pub dockerhub_entry : Env → Registry
dockerhub_entry env = record {
  id = dockerhub;
  registry = txt "docker.io";
  token_var = txt "DOCKERHUB_TOKEN";
  user = read_optional (env (txt "DOCKERHUB_USERNAME"));
  namespace = read_optional (env (txt "DOCKERHUB_USERNAME"));
  enabled =
      is_nonempty (read_optional (env (txt "DOCKERHUB_TOKEN")))
      && is_nonempty (read_optional (env (txt "DOCKERHUB_USERNAME")));
}

unfoldable pub registries_from : Env → List Registry
registries_from env = ghcr_entry env ∷ dockerhub_entry env ∷ []

-- `enabled.has(id)`
abbrev pub is_enabled : List Registry → RegistryId → Bool
is_enabled registries id = any (λ (r : Registry). r.enabled && same_registry r.id id) registries

abbrev pub token_var_of : RegistryId → Text
token_var_of ghcr = txt "GHCR_TOKEN"
token_var_of dockerhub = txt "DOCKERHUB_TOKEN"

-- One entry of `DOCKER_META_IMAGES`.
unfoldable pub explicit_image : List Registry → Bool → Text → Result Image
explicit_image registries preview raw = do
  base ← normalize_image_base raw
  id ← image_registry_of base
  guard (is_enabled registries id || preview) (missing_credential raw (token_var_of id))
  ok (record { base = base; registry_id = id; preview = false })

-- The base of a registry without `DOCKER_META_IMAGES`.
abbrev pub derived_base : Registry → Text → Text
derived_base r name = elim r.id [
  | ghcr ↦ txt "ghcr.io/" ++ (r.namespace ++ (txt "/" ++ name))
  | dockerhub ↦ r.namespace ++ (txt "/" ++ name)
]

unfoldable pub derived_image : Text → Registry → Result Image
derived_image name r = do
  base ← normalize_image_base (derived_base r name)
  ok (record { base = base; registry_id = r.id; preview = false })

-- What a dry run without credentials publishes to, in name only.
unfoldable pub preview_images : Text → Text → Result (List Image)
preview_images owner name = if is_empty owner then ok [] else do
  base ← normalize_image_base (txt "ghcr.io/" ++ (owner ++ (txt "/" ++ name)))
  ok (record { base = base; registry_id = ghcr; preview = true } ∷ [])

unfoldable pub images_from : Env → List Registry → Text → Bool → Result (List Image)
images_from env registries repo_name preview =
    let explicit = split_list (env (txt "DOCKER_META_IMAGES")) in
    let name = read_optional (some repo_name) in
    let owner = piece_0 (pieces (read_optional (env (txt "GITHUB_REPOSITORY")))) in
    let derived : Result (List Image) = (do
      guard (is_nonempty name) no_repo_name
      images ← traverse (derived_image name) (filter (λ (r : Registry). r.enabled) registries)
      if is_empty images && preview then preview_images owner name else ok images) in
    if is_empty explicit then derived else traverse (explicit_image registries preview) explicit

pub record BuildOptions : Type 0 where
  pub context : Text
  pub platforms : List Text
  pub build_args : List KeyValue
  pub dry_run : Bool
  pub push : Bool

unfoldable pub build_options_from : Env → Bool → Result BuildOptions
build_options_from env dry_run = do
  build_args ← parse_key_values (env (txt "DOCKER_BUILD_ARGS"))
  ok (record {
    context = txt ".";
    platforms = split_list (env (txt "DOCKER_PLATFORMS"));
    build_args = build_args;
    dry_run = dry_run;
    push = not dry_run;
  })
