-- ===== src/Resolve/Mirrors.antt =====
-- A forward proxy is no repository: what resolve.mjs injects into the build of the two endpoint
-- variables.
use message_pusher.Base.{
  ◌≡◌, ◌≢◌, ◌⊎◌, refl, ap, true, not, [], ◌∷◌, Option, none, IsIn, IsIn-append, IsIn-filter, any,
  filter, inl, inr, subst,
}
use message_pusher.Text.{Text, txt, Env, or_text, ◌==◌}
use message_pusher.Text.Laws.{ne_of_==}
use message_pusher.Config.Lists.{KeyValue, is_nonempty, read_optional}
use message_pusher.Config.Images.{BuildOptions}
use message_pusher.Endpoints.{Fetch, OsRelease, apt, as_proxy, resolve_endpoint, go_proxy_from}
use message_pusher.Resolve.{Endpoints, candidates, classify_endpoints, with_default_build_args}

-- What is injected is a candidate with a value.
IsIn-with_default_build_args :
    (options : BuildOptions) (version : Text) (env : Env) (endpoints : Endpoints) (b : KeyValue)
    → IsIn b (with_default_build_args options version env endpoints).build_args
    → IsIn b options.build_args
      ⊎ (IsIn b (candidates version (go_proxy_from env) env endpoints)
          × (is_nonempty b.value ≡ true))
unfolding with_default_build_args
IsIn-with_default_build_args options version env endpoints b j =
    let filled =
      filter (λ (kv : KeyValue). is_nonempty kv.value)
        (candidates version (go_proxy_from env) env endpoints) in
    let is_new =
      λ (kv : KeyValue). not (any (λ (c : KeyValue). c.key == kv.key) options.build_args) in
    elim (IsIn-append b (filter is_new filled) options.build_args j) [
      | inl l ↦ inr (
          IsIn-filter (λ (kv : KeyValue). is_nonempty kv.value) b
            (candidates version (go_proxy_from env) env endpoints)
            (IsIn-filter is_new b filled l).0)
      | inr r ↦ inl r
    ]

-- What is left for a key of a mirror, if there is no mirror.
abbrev pub NotRepository : Env → KeyValue → Type 0
NotRepository env b =
    (b.key ≢ txt "APT_PROXY")
    × ((b.key ≢ txt "APK_PROXY") ⊎ (b.value ≡ read_optional (env (txt "APK_REPO"))))

or_text-nil : (t : Text) → or_text t [] ≡ t
or_text-nil [] = refl
or_text-nil (c ∷ t) = refl

candidates-NotRepository :
    (version go_proxy : Text) (env : Env) (npm_registry : Option Text) (b : KeyValue)
    → IsIn b (
        candidates version go_proxy env (record { npm_registry = npm_registry; apt_mirror = none }))
    → is_nonempty b.value ≡ true
    → NotRepository env b
unfolding read_optional ◌==◌
candidates-NotRepository version go_proxy env npm_registry b (inl e) v =
    rw e ((ne_of_== _ _ refl), inl (ne_of_== _ _ refl))
candidates-NotRepository version go_proxy env npm_registry b (inr (inl e)) v =
    rw e ((ne_of_== _ _ refl), inl (ne_of_== _ _ refl))
candidates-NotRepository version go_proxy env npm_registry b (inr (inr (inl e))) v =
    rw e ((ne_of_== _ _ refl), inl (ne_of_== _ _ refl))
candidates-NotRepository version go_proxy env npm_registry b (inr (inr (inr (inl e)))) v =
    let none_there : is_nonempty [] ≡ true = rw e at v in cc none_there
candidates-NotRepository version go_proxy env npm_registry b (inr (inr (inr (inr (inl e))))) v =
    rw e ((ne_of_== _ _ refl), inr (or_text-nil _))
candidates-NotRepository version go_proxy env npm_registry b (inr (inr (inr (inr (inr (inl e))))))
      v =
    rw e ((ne_of_== _ _ refl), inl (ne_of_== _ _ refl))
candidates-NotRepository version go_proxy env npm_registry b (inr (inr (inr (inr (inr (inr m))))))
      v =
    absurd m

classify_endpoints-apt_proxy :
    (env : Env) (fetch : Fetch) (release : OsRelease)
    → (resolve_endpoint apt env fetch release).source ≡ as_proxy
    → (classify_endpoints env fetch release).apt_mirror ≡ none
unfolding classify_endpoints
classify_endpoints-apt_proxy env fetch release h = rw h refl

-- If the repository probe of `APT_PROXY` is answered by an error, so that the value is a forward
-- proxy, every build argument is one of `DOCKER_BUILD_ARGS`, or is not `APT_PROXY`, and is not
-- `APK_PROXY` but with the value of `APK_REPO`: the proxy is not passed as a repository.
pub with_default_build_args-NotRepository :
    (options : BuildOptions) (version : Text) (env : Env) (fetch : Fetch) (release : OsRelease)
    (b : KeyValue)
    → (resolve_endpoint apt env fetch release).source ≡ as_proxy
    → IsIn b
        (with_default_build_args options version env
          (classify_endpoints env fetch release)).build_args
    → IsIn b options.build_args ⊎ NotRepository env b
with_default_build_args-NotRepository options version env fetch release b proxy j =
    let found = classify_endpoints env fetch release in
    elim (IsIn-with_default_build_args options version env found b j) [
      | inl explicit ↦ inl explicit
      | inr (m, v) ↦
          let same : found ≡ record { npm_registry = found.npm_registry; apt_mirror = none } =
            ap (λ o. record { npm_registry = found.npm_registry; apt_mirror = o })
              (classify_endpoints-apt_proxy env fetch release proxy) in
          inr (
            candidates-NotRepository version (go_proxy_from env) env found.npm_registry b
              (subst (λ (e : Endpoints). IsIn b (candidates version (go_proxy_from env) env e)) same
                m)
              v)
    ]
