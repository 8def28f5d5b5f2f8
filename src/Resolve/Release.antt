-- ===== src/Resolve/Release.antt =====
-- What `resolveRelease` promises of the release it returns.
use message_pusher.Base.{
  ◌≡◌, refl, sym, ◌∙◌, ap, Bool, true, false, not, List, [], Option, arith, All, ◌∷◌, IsIn,
  IsIn-append, IsIn-filter, any, filter, inl, inr, ◌⊎◌, Bool-cases,
}
use message_pusher.Text.{Text, txt, Env, ◌==◌, starts_with}
use message_pusher.Text.Laws.{==_iff}
use message_pusher.Result.{Result, ok, >>=-eq-ok}
use message_pusher.Config.Variants.{parse_variants, variant_selection}
use message_pusher.Config.Images.{
  BuildOptions, Image, Registry, images_from, registries_from, build_options_from,
}
use message_pusher.Config.Lists.{KeyValue, is_nonempty, read_optional}
use message_pusher.Config.Images.Enabled.{HasCredentials, images_from-HasCredentials}
use message_pusher.State.{State}
use message_pusher.Endpoints.{go_proxy_from}
use message_pusher.Resolve.{
  strip_tag_prefix, is_semver, resolve_version, resolve_release, candidates, go_proxy_from,
  with_default_build_args, Endpoints, release_of, is_dry_run,
}

-- The version is semantic, and is the tag without its prefix; on a tag ref that has a name it is
-- the version of that name, typed or not.
pub resolve_version_lem :
    (input_version ref_name git_ref version raw_tag : Text)
    → resolve_version input_version ref_name git_ref ≡ ok (version, raw_tag)
    → (is_semver version ≡ true)
      × (version ≡ strip_tag_prefix raw_tag)
      × ((starts_with git_ref (txt "refs/tags/") ≡ false)
          ⊎ (ref_name ≡ [])
          ⊎ (version ≡ strip_tag_prefix ref_name))
unfolding resolve_version
resolve_version_lem input_version ref_name git_ref version raw_tag h =
    let same = ==_iff (strip_tag_prefix input_version) (strip_tag_prefix ref_name) in
    (
      ground arith,
      ground arith,
      elim (Bool-cases (starts_with git_ref (txt "refs/tags/"))) [
        | inr untagged ↦ inl untagged
        | inl tagged ↦ inr (named ref_name refl tagged)
      ],
    )
  where
    named :
        (name : Text)
        → ref_name ≡ name
        → starts_with git_ref (txt "refs/tags/") ≡ true
        → (ref_name ≡ []) ⊎ (version ≡ strip_tag_prefix ref_name)
    named [] e tagged = inl e
    named (c ∷ s) e tagged =
        let same = ==_iff (strip_tag_prefix input_version) (strip_tag_prefix ref_name) in
        inr (ground arith)

any_of_IsIn :
    (key : Text) (a : KeyValue) (args : List KeyValue)
    → IsIn a args
    → a.key ≡ key
    → any (λ (c : KeyValue). c.key == key) args ≡ true
any_of_IsIn key a [] i e = absurd i
any_of_IsIn key a (c ∷ args) (inl q) e =
    let same : c.key ≡ key = ap (λ (k : KeyValue). k.key) (sym q) ∙ e in
    let t : (c.key == key) ≡ true = (==_iff c.key key).1 same in rw t refl
any_of_IsIn key a (c ∷ args) (inr i) e = let rest = any_of_IsIn key a args i e in ground arith

ok_injective : (a b : State) → ◌≡◌ {A = Result State} (ok a) (ok b) → a ≡ b
ok_injective a b e = cc

build_options_push :
    (env : Env) (dry_run : Bool) (options : BuildOptions)
    → build_options_from env dry_run ≡ ok options
    → options.push ≡ not dry_run
unfolding build_options_from
build_options_push env dry_run options h = ground arith

checked_images :
    (env : Env) (registries : List Registry) (name : Text) (dry_run : Bool) (images : List Image)
    → images_from env registries name dry_run ≡ ok images
    → dry_run ≡ false
    → All (HasCredentials registries) images
checked_images env registries name true images found real = cc
checked_images env registries name false images found real =
    images_from-HasCredentials env registries name images found

-- What `resolveRelease` returns is fit for a release: the version is semantic, and on a tag ref
-- that has a name it is the version of that name; a run pushes exactly if it is no dry run, and
-- then every image belongs to a registry with credentials.
pub resolve_release_lem :
    (env : Env) (inputs read_file : Text → Option Text) (override : Text) (state : State)
    → resolve_release env inputs read_file override ≡ ok state
    → (is_semver state.version ≡ true)
      × ((starts_with state.ref_ (txt "refs/tags/") ≡ false)
          ⊎ (read_optional (env (txt "GITHUB_REF_NAME")) ≡ [])
          ⊎ (state.version ≡ strip_tag_prefix (read_optional (env (txt "GITHUB_REF_NAME")))))
      × (state.options.push ≡ not state.dry_run)
      × ((state.dry_run ≡ true) ⊎ All (HasCredentials state.registries) state.images)
unfolding resolve_release
resolve_release_lem env inputs read_file override state h =
    let (named, known, h1) = >>=-eq-ok (resolve_version _ _ _) _ h in
    let (table, _, h2) = >>=-eq-ok (parse_variants _) _ h1 in
    let (variants, _, h3) = >>=-eq-ok (variant_selection table _) _ h2 in
    let (images, found, h4) = >>=-eq-ok (images_from env _ _ (is_dry_run env inputs)) _ h3 in
    let (options, opts, h5) = >>=-eq-ok (build_options_from env (is_dry_run env inputs)) _ h4 in
    let same =
      ok_injective (release_of env (is_dry_run env inputs) named variants images options) state
        h5 in
    let (semantic, _, of_ref) = resolve_version_lem _ _ _ named.0 named.1 known in
    rw (← same) (
      semantic,
      of_ref,
      build_options_push env (is_dry_run env inputs) options opts,
      elim (Bool-cases (is_dry_run env inputs)) [
        | inl dry ↦ inl dry
        | inr real ↦
            inr
              (checked_images env (registries_from env) _ (is_dry_run env inputs) images found real)
      ],
    )

-- An entry of `DOCKER_BUILD_ARGS` wins: whatever is injected, a key that is written there keeps all
-- its entries and gets no other.
pub with_default_build_args-explicit :
    (options : BuildOptions) (version : Text) (env : Env) (endpoints : Endpoints) (a : KeyValue)
    → IsIn a options.build_args
    → (b : KeyValue) → IsIn b (with_default_build_args options version env endpoints).build_args
    → b.key ≡ a.key
    → IsIn b options.build_args
unfolding with_default_build_args
with_default_build_args-explicit options version env endpoints a i b j e =
    let filled =
      filter (λ (kv : KeyValue). is_nonempty kv.value)
        (candidates version (go_proxy_from env) env endpoints) in
    let is_new =
      λ (kv : KeyValue). not (any (λ (c : KeyValue). c.key == kv.key) options.build_args) in
    elim (IsIn-append b (filter is_new filled) options.build_args j) [
      | inl l ↦
          let (_, fresh) = IsIn-filter is_new b filled l in
          let found = any_of_IsIn b.key a options.build_args i (sym e) in cc (fresh, found)
      | inr r ↦ r
    ]
