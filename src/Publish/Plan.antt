-- ===== src/Publish/Plan.antt =====
-- `publishPlan` covers every image of every build, from the staging ref of its variant.
use message_pusher.Base.{
  ◌≡◌, ◌≢◌, refl, ◌∙◌, ap, List, [], ◌∷◌, ◌++◌, map, none, some, arith, IsIn, IsIn-append_left,
  IsIn-append_right, Option-cases, inl, inr,
}
use message_pusher.Text.{Text}
use message_pusher.Text.Laws.{==_iff}
use message_pusher.Result.{ok, >>=-eq-ok}
use message_pusher.State.{State, Build, BuildImage}
use message_pusher.Config.Tags.{staging_tag_name}
use message_pusher.Meta.Plan.{image_ref}
use message_pusher.Staging.{StagingRef, staging_ref, staging_refs_for}
use message_pusher.Publish.{Promotion, source_of, image_promotions, promotions, publish_plan}

-- The promotion of an image of a build whose staging tag is `tag`.
abbrev pub promotion : Text → Text → BuildImage → Promotion
promotion variant tag image = record {
  variant = variant;
  base = image.base;
  registry_id = image.registry_id;
  source = image_ref image.base tag;
  tags = image.tags;
}

-- Whatever the list of images, a base that is found has the staging ref of that base.
source_of_found :
    (tag base : Text) (images : List BuildImage) (ref : Text)
    → source_of (map (staging_ref tag) images) base ≡ some ref
    → ref ≡ image_ref base tag
unfolding source_of
source_of_found tag base [] ref h = cc
source_of_found tag base (x ∷ images) ref h =
    ground (arith, source_of_found tag base images ref, ==_iff x.base base)

source_of_listed :
    (tag : Text) (image : BuildImage) (images : List BuildImage)
    → IsIn image images
    → source_of (map (staging_ref tag) images) image.base ≢ none
unfolding source_of
source_of_listed tag image [] i = absurd i
source_of_listed tag image (x ∷ images) (inl e) =
    let q : image.base ≡ x.base = ap (λ (b : BuildImage). b.base) e in
    ground (arith, ==_iff x.base image.base)
source_of_listed tag image (x ∷ images) (inr i) =
    ground (arith, source_of_listed tag image images i)

source_of_lem :
    (tag : Text) (image : BuildImage) (images : List BuildImage)
    → IsIn image images
    → source_of (map (staging_ref tag) images) image.base ≡ some (image_ref image.base tag)
source_of_lem tag image images i =
    elim (Option-cases (source_of (map (staging_ref tag) images) image.base)) [
      | inl e ↦ absurd (source_of_listed tag image images i e)
      | inr (ref, e) ↦ e ∙ ap (λ (r : Text). some r) (source_of_found tag image.base images ref e)
    ]

pub image_promotions-some :
    (variant : Text) (refs : List StagingRef) (x : BuildImage) (images : List BuildImage)
    (src : Text)
    → source_of refs x.base ≡ some src
    → image_promotions variant refs (x ∷ images)
      ≡ record {
        variant = variant;
        base = x.base;
        registry_id = x.registry_id;
        source = src;
        tags = x.tags;
      }
        ∷ image_promotions variant refs images
unfolding image_promotions
image_promotions-some variant refs x images src e = ground arith

pub image_promotions-none :
    (variant : Text) (refs : List StagingRef) (x : BuildImage) (images : List BuildImage)
    → source_of refs x.base ≡ none
    → image_promotions variant refs (x ∷ images) ≡ image_promotions variant refs images
unfolding image_promotions
image_promotions-none variant refs x images e = ground arith

module _ (variant tag : Text) (image : BuildImage) (listed : List BuildImage) where
  abbrev refs : List StagingRef
  refs = map (staging_ref tag) listed

  IsIn-image_promotions :
      (images : List BuildImage)
      → IsIn image images
      → IsIn image listed
      → IsIn (promotion variant tag image) (image_promotions variant refs images)
  IsIn-image_promotions [] i k = absurd i
  IsIn-image_promotions (x ∷ images) (inl e) k = rw (← e) (
      rw
        (image_promotions-some variant refs image images (image_ref image.base tag)
          (source_of_lem tag image listed k))
        (inl refl))
  IsIn-image_promotions (x ∷ images) (inr i) k = elim (Option-cases (source_of refs x.base)) [
    | inl e ↦ rw (image_promotions-none variant refs x images e) (IsIn-image_promotions images i k)
    | inr (src, e) ↦
        rw (image_promotions-some variant refs x images src e)
          (inr (IsIn-image_promotions images i k))
  ]

promotions_cons :
    (state : State) (c : Build) (builds : List Build) (plan : List Promotion)
    → promotions state (c ∷ builds) ≡ ok plan
    → (tag : Text) × (rest : List Promotion) × (staging_tag_name state.version state.short_sha
          c.variant
        ≡ ok tag)
      × (promotions state builds ≡ ok rest)
      × (plan ≡ image_promotions c.variant (map (staging_ref tag) c.images) c.images ++ rest)
unfolding promotions staging_refs_for
promotions_cons state c builds plan h =
    let (refs, staged, h1) = >>=-eq-ok (staging_refs_for c state) _ h in
    let (tag, named, h2) =
      >>=-eq-ok (staging_tag_name state.version state.short_sha c.variant) _ staged in
    let (rest, later, h3) = >>=-eq-ok (promotions state builds) _ h1 in
    (tag, rest, named, later, ground arith)

promotions_cover :
    (state : State) (builds : List Build) (plan : List Promotion) (b : Build) (image : BuildImage)
    → promotions state builds ≡ ok plan
    → IsIn b builds
    → IsIn image b.images
    → (tag : Text) × (staging_tag_name state.version state.short_sha b.variant ≡ ok tag)
      × IsIn (promotion b.variant tag image) plan
promotions_cover state [] plan b image h i j = absurd i
promotions_cover state (c ∷ builds) plan b image h (inl e) j =
    let (tag, rest, named, later, whole) = promotions_cons state c builds plan h in
    let j' : IsIn image c.images = rw e at j in
    (
      tag,
      rw e named,
      rw (e, whole)
          (IsIn-append_left _ _ rest
            (IsIn-image_promotions c.variant tag image c.images c.images j' j')),
    )
promotions_cover state (c ∷ builds) plan b image h (inr i) j =
    let (tag, rest, named, later, whole) = promotions_cons state c builds plan h in
    let (t, staged, m) = promotions_cover state builds rest b image later i j in
    (
      t,
      staged,
      rw whole (
          IsIn-append_right _ (image_promotions c.variant (map (staging_ref tag) c.images) c.images)
            rest m),
    )

-- Every image of every build is promoted: from its variant's staging tag to all its final tags.
pub publish_plan_cover :
    (state : State) (plan : List Promotion) (b : Build) (image : BuildImage)
    → publish_plan state ≡ ok plan
    → IsIn b state.builds
    → IsIn image b.images
    → (tag : Text) × (staging_tag_name state.version state.short_sha b.variant ≡ ok tag)
      × IsIn (promotion b.variant tag image) plan
unfolding publish_plan
publish_plan_cover state plan b image h i j = promotions_cover state state.builds plan b image h i j

promotions_made :
    (state : State) (builds : List Build)
    → ((b : Build)
        → IsIn b builds
        → (refs : List StagingRef) × (staging_refs_for b state ≡ ok refs))
    → (plan : List Promotion) × (promotions state builds ≡ ok plan)
unfolding promotions
promotions_made state [] staged = ([], refl)
promotions_made state (b ∷ builds) staged =
    let (refs, e) = staged b (inl refl) in
    let (plan, made) = promotions_made state builds (λ c i. staged c (inr i)) in
    (image_promotions b.variant refs b.images ++ plan, rw (promotions, e, made) refl)

-- `publishPlan` throws for no other reason than `stagingRefsFor`.
pub publish_plan_made :
    (state : State)
    → ((b : Build)
        → IsIn b state.builds
        → (refs : List StagingRef) × (staging_refs_for b state ≡ ok refs))
    → (plan : List Promotion) × (publish_plan state ≡ ok plan)
unfolding publish_plan
publish_plan_made state staged = promotions_made state state.builds staged
