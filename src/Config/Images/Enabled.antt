-- ===== src/Config/Images/Enabled.antt =====
-- Which registries a release publishes to.
use message_pusher.Base.{
  some, ◌≡◌, refl, true, false, ◌||◌, List, [], ◌∷◌, arith, is_empty, filter, All, IsIn,
  All-of_IsIn, IsIn-filter, Bool-cases, inl, inr,
}
use message_pusher.Text.{Text, txt, Env}
use message_pusher.Result.{ok, traverse, >>=-eq-ok, guard-eq-ok, All-traverse, IsIn-traverse}
use message_pusher.Config.Lists.{split_list, read_optional, is_nonempty}
use message_pusher.Config.Images.{
  RegistryId, ghcr, dockerhub, same_registry, Registry, Image, is_enabled, explicit_image,
  derived_image, images_from,
}

-- The registry of an image has credentials.
abbrev pub HasCredentials : List Registry → Image → Type 0
HasCredentials registries image = is_enabled registries image.registry_id ≡ true

explicit_image-HasCredentials :
    (registries : List Registry) (raw : Text) (image : Image)
    → explicit_image registries false raw ≡ ok image
    → HasCredentials registries image
unfolding explicit_image
explicit_image-HasCredentials registries raw image h = ground arith

enabled-HasCredentials :
    (registries : List Registry) (r : Registry)
    → IsIn r registries
    → r.enabled ≡ true
    → is_enabled registries r.id ≡ true
enabled-HasCredentials [] r m e = absurd m
enabled-HasCredentials (s ∷ rs) r (inl q) e = go q
  where
    go : r ≡ s → is_enabled (s ∷ rs) r.id ≡ true
    go q = rw (← q) (rw e (same r.id))
      where
        same : (id : RegistryId) → same_registry id id || is_enabled rs id ≡ true
        same ghcr = refl
        same dockerhub = refl
enabled-HasCredentials (s ∷ rs) r (inr m) e = ground (arith, enabled-HasCredentials rs r m e)

derived_image-registry :
    (name : Text) (r : Registry) (image : Image)
    → derived_image name r ≡ ok image
    → image.registry_id ≡ r.id
unfolding derived_image
derived_image-registry name r image h = ground arith

module _ (env : Env) (registries : List Registry) (repo_name : Text) where
  derived-HasCredentials :
      (name : Text) (images : List Image)
      → traverse (derived_image name) (filter (λ (r : Registry). r.enabled) registries) ≡ ok images
      → All (HasCredentials registries) images
  derived-HasCredentials name images h = All-of_IsIn (HasCredentials registries) images λ image m.
      let (r, i, e) = IsIn-traverse (derived_image name) _ images image h m in
      let (listed, on) = IsIn-filter (λ (r : Registry). r.enabled) r registries i in
      rw (derived_image-registry name r image e) (enabled-HasCredentials registries r listed on)

  -- Outside a dry run every image to publish belongs to a registry with credentials, whether it is
  -- named in `DOCKER_META_IMAGES` or derived from the repository.
  pub images_from-HasCredentials :
      (images : List Image)
      → images_from env registries repo_name false ≡ ok images
      → All (HasCredentials registries) images
  unfolding images_from
  images_from-HasCredentials images h = elim (Bool-cases (is_empty explicit)) [
    | inl none_named ↦
        let h1 = guard-eq-ok (is_nonempty name) _ _ (rw none_named at h) in
        let (derived, e, h2) =
          >>=-eq-ok
            (traverse (derived_image name) (filter (λ (r : Registry). r.enabled) registries)) _
            h1.1 in
        let same : derived ≡ images = ground arith in
        rw (← same) (derived-HasCredentials name derived e)
    | inr named ↦
        All-traverse (explicit_image registries false) (HasCredentials registries)
          (explicit_image-HasCredentials registries) explicit images (rw named at h)
  ]
    where
      explicit : List Text
      explicit = split_list (env (txt "DOCKER_META_IMAGES"))

      name : Text
      name = read_optional (some repo_name)
