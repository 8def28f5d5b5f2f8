-- ===== src/Resolve.antt =====
-- .forgejo/scripts/resolve.mjs: the release that a run stands for.
pub mod Release
pub mod Mirrors
use message_pusher.Base.{
  Bool, true, false, not, ◌&&◌, ◌||◌, List, [], ◌∷◌, ◌++◌, map, Option, none, some, ℕ, eqb,
  is_empty, all, any, filter, take, drop, if◌then◌else◌,
}
use message_pusher.Text.{
  or_text, is_line_end, Text, txt, Env, ◌==◌, includes, trim, split_on, starts_with, strip_prefix,
  has_unit, to_lower, drop_while, drop_end_while, is_digit, is_lower, is_upper,
}
use message_pusher.Result.{
  Result, ok, err, guard, ◌>>=◌, ◌>>◌, version_mismatch, tag_expected, no_version, bad_version,
}
use message_pusher.Config.Lists.{KeyValue, read_optional, is_nonempty, truthy_words}
use message_pusher.Config.Variants.{Variant, variant_table_raw, parse_variants, variant_selection}
use message_pusher.Config.Images.{
  BuildOptions, Image, is_slash, first_piece, registries_from, images_from, build_options_from,
}
use message_pusher.Endpoints.{
  Fetch, OsRelease, apt, npm, resolve_endpoint, is_mirror, go_proxy_from,
}
use message_pusher.State.{State}

unfoldable pub strip_tag_prefix : Text → Text
strip_tag_prefix tag = strip_prefix (txt "v") (strip_prefix (txt "refs/tags/") (trim tag))

-- `/^refs\/tags\/(.+)$/`, and its group or the empty text.
unfoldable pub tag_version_from_ref : Text → Text
tag_version_from_ref git_ref =
    let name = drop 10 git_ref in
    if starts_with git_ref (txt "refs/tags/") && all (λ c. not (is_line_end c)) name
    then name
    else []

-- `/^\s*\$\{\{[^}]*\}\}\s*$/`
unfoldable pub is_unexpanded : Text → Bool
is_unexpanded text =
    starts_with (trim text) (txt "${{")
    && drop_while (λ c. not (eqb c b'}')) (drop 3 (trim text)) == txt "}}"

-- `eventInputs[name.toLowerCase()] ?? eventInputs[name]`
abbrev pub event_input : (Text → Option Text) → Text → Option Text
event_input inputs name = elim (inputs (to_lower name)) [
  | none ↦ inputs name
  | some value ↦ some value
]

-- `dispatchInput`; `inputs` is the `inputs` object of the event payload.
unfoldable pub dispatch_input : Env → (Text → Option Text) → Text → Text
dispatch_input env inputs name =
    let given = read_optional (env (txt "INPUT_" ++ name)) in
    let from_event = read_optional (event_input inputs name) in
    if is_nonempty given && is_unexpanded given then from_event else or_text given from_event

-- `0|[1-9]\d*`
unfoldable pub is_version_number : Text → Bool
is_version_number [] = false
is_version_number (c ∷ s) = if eqb c b'0' then is_empty s else is_digit c && all is_digit s

abbrev pub are_version_numbers : List Text → Bool
are_version_numbers (major ∷ minor ∷ patch ∷ []) =
    is_version_number major && is_version_number minor && is_version_number patch
are_version_numbers _ = false

-- `[0-9A-Za-z.-]`
abbrev pub is_prerelease_unit : ℕ → Bool
is_prerelease_unit c = is_digit c || is_upper c || is_lower c || eqb c b'.' || eqb c b'-'

-- What follows the three numbers: nothing, or a dash and at least one unit.
abbrev pub is_prerelease_part : Text → Bool
is_prerelease_part [] = true
is_prerelease_part (dash ∷ s) = is_nonempty s && all is_prerelease_unit s

-- `SEMVER.test(version)`
unfoldable pub is_semver : Text → Bool
is_semver version =
    are_version_numbers (split_on (λ c. eqb c b'.') (first_piece (λ c. eqb c b'-') version))
    && is_prerelease_part (drop_while (λ c. not (eqb c b'-')) version)

-- `list.split('/').pop() || ''`
abbrev pub last_piece : List Text → Text
last_piece [] = []
last_piece (x ∷ []) = x
last_piece (x ∷ y ∷ pieces) = last_piece (y ∷ pieces)

-- The tag that the run is for: the typed version, else the name of the ref.
abbrev pub raw_tag_of : Text → Text → Text → Text
raw_tag_of input_version ref_name git_ref =
    or_text input_version (or_text ref_name (tag_version_from_ref git_ref))

-- The checks of `resolveRelease` on the version; the version, and the tag it is written in.
unfoldable pub resolve_version : Text → Text → Text → Result (Text × Text)
resolve_version input_version ref_name git_ref = do
  let is_ref_tag = starts_with git_ref (txt "refs/tags/")
  let raw_tag = raw_tag_of input_version ref_name git_ref
  let version = strip_tag_prefix raw_tag
  guard
      (not (
        is_nonempty input_version
        && is_ref_tag
        && not (strip_tag_prefix input_version == strip_tag_prefix ref_name)))
      (version_mismatch input_version ref_name)
  guard (not (is_empty input_version && not is_ref_tag && is_empty (tag_version_from_ref git_ref)))
      (tag_expected git_ref)
  guard (is_nonempty raw_tag) no_version
  guard (is_semver version) (bad_version raw_tag)
  ok (version, raw_tag)

-- The object that `resolveRelease` returns.
abbrev pub release_of : Env → Bool → Text × Text → List Variant → List Image → BuildOptions → State
release_of env dry_run (version, raw_tag) variants images options =
    let git_ref = read_optional (env (txt "GITHUB_REF")) in
    let repo = read_optional (env (txt "GITHUB_REPOSITORY")) in
    record {
      version = version;
      tag = raw_tag;
      prerelease = has_unit b'-' version;
      sha = read_optional (env (txt "GITHUB_SHA"));
      short_sha = take 7 (read_optional (env (txt "GITHUB_SHA")));
      repo = repo;
      repo_name = last_piece (split_on is_slash repo);
      server_url = read_optional (env (txt "GITHUB_SERVER_URL"));
      ref_ = git_ref;
      is_tag_event =
          starts_with git_ref (txt "refs/tags/")
          || read_optional (env (txt "GITHUB_EVENT_NAME")) == txt "workflow_dispatch";
      is_branch_event = starts_with git_ref (txt "refs/heads/");
      is_pr_event = starts_with git_ref (txt "refs/pull/");
      dry_run = dry_run;
      variants = variants;
      registries = registries_from env;
      images = images;
      options = options;
      builds = [];
    }

abbrev pub is_dry_run : Env → (Text → Option Text) → Bool
is_dry_run env inputs = includes truthy_words (to_lower (dispatch_input env inputs (txt "DRY_RUN")))

abbrev pub variant_table : Env → (Text → Option Text) → Text → Text
variant_table env read_file override =
    or_text (read_optional (env (txt "DOCKER_VARIANTS")))
      (or_text override (variant_table_raw env read_file))

-- `resolveRelease`; `override` is its `variantsOverride`.
unfoldable pub resolve_release :
    Env → (Text → Option Text) → (Text → Option Text) → Text → Result State
resolve_release env inputs read_file override = do
  named ←
      resolve_version (dispatch_input env inputs (txt "VERSION"))
        (read_optional (env (txt "GITHUB_REF_NAME"))) (read_optional (env (txt "GITHUB_REF")))
  table ← parse_variants (variant_table env read_file override)
  variants ← variant_selection table (some (dispatch_input env inputs (txt "VARIANTS")))
  images ←
      images_from env (registries_from env)
        (last_piece (split_on is_slash (read_optional (env (txt "GITHUB_REPOSITORY")))))
        (is_dry_run env inputs)
  options ← build_options_from env (is_dry_run env inputs)
  ok (release_of env (is_dry_run env inputs) named variants images options)

-- `envValueOf`
unfoldable pub env_value_of : Env → Text → Text
env_value_of env name = drop_end_while is_slash (read_optional (env name))

-- What `classifyEndpoints` found out.
pub record Endpoints : Type 0 where
  pub npm_registry : Option Text
  pub apt_mirror : Option Text

-- `npm.mirror[0]`
abbrev pub first_of : List Text → Option Text
first_of [] = none
first_of (x ∷ _) = some x

unfoldable pub classify_endpoints : Env → Fetch → OsRelease → Endpoints
classify_endpoints env fetch release =
    let apt_found = resolve_endpoint apt env fetch release in
    let npm_found = resolve_endpoint npm env fetch release in
    record {
      npm_registry = if is_mirror npm_found then first_of npm_found.mirror else none;
      apt_mirror = if is_mirror apt_found then some (env_value_of env (txt "APT_PROXY")) else none;
    }

abbrev pub candidate : Text → Text → KeyValue
candidate key value = record { key = key; value = value }

-- The list `candidates`; `go_proxy` is `goProxyFrom(env)`.
abbrev pub candidates : Text → Text → Env → Endpoints → List KeyValue
candidates version go_proxy env endpoints =
    candidate (txt "VERSION") version
    ∷ candidate (txt "GOPROXY") go_proxy
    ∷ candidate (txt "NPM_REGISTRY") (read_optional endpoints.npm_registry)
    ∷ candidate (txt "APT_PROXY") (read_optional endpoints.apt_mirror)
    ∷ candidate (txt "APK_PROXY")
        (or_text (read_optional (env (txt "APK_REPO"))) (read_optional endpoints.apt_mirror))
    ∷ candidate (txt "YUM_REPO") (read_optional (env (txt "YUM_REPO")))
    ∷ []

unfoldable pub with_default_build_args : BuildOptions → Text → Env → Endpoints → BuildOptions
with_default_build_args options version env endpoints =
    let filled =
      filter (λ (kv : KeyValue). is_nonempty kv.value)
        (candidates version (go_proxy_from env) env endpoints) in
    let injected =
      filter (λ (kv : KeyValue). not (any (λ (a : KeyValue). a.key == kv.key) options.build_args))
        filled in
    record options { build_args = injected ++ options.build_args }

-- `main` up to the write of the state file.
unfoldable pub resolve_main :
    Env → (Text → Option Text) → (Text → Option Text) → Fetch → OsRelease → Result State
resolve_main env inputs read_file fetch release = do
  state ← resolve_release env inputs read_file []
  ok (record state {
    options =
        with_default_build_args state.options state.version env
          (classify_endpoints env fetch release);
  })
