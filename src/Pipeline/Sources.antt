-- ===== src/Pipeline/Sources.antt =====
-- Where the sources of a publish plan come from, and when every promotion succeeds.
use message_pusher.Base.{
  ◌≡◌, refl, sym, ◌∙◌, ap, true, List, [], ◌∷◌, ◌++◌, Option, some, arith, IsIn, IsIn-append,
  Option-cases, inl, inr,
}
use message_pusher.Text.{Text}
use message_pusher.Result.{ok, >>=-eq-ok}
use message_pusher.State.{State, Build, BuildImage}
use message_pusher.Staging.{StagingRef, staging_refs_for}
use message_pusher.Docker.{Docker, Session, run_docker, exit_status, digest_of}
use message_pusher.Publish.{
  Promotion, Published, promotion_argv, promotions, image_promotions, publish_plan, promote,
  record_promotion, metadata_file,
}
use message_pusher.Publish
use message_pusher.Publish.Plan.{image_promotions-some, image_promotions-none}
use message_pusher.Publish.Registry.{RegistryLaws, has_ref}

-- A base that is found has the ref of one of the entries.
source_of-IsIn :
    (refs : List StagingRef) (base src : Text)
    → Publish.source_of refs base ≡ some src
    → (r : StagingRef) × IsIn r refs × (src ≡ r.ref_)
unfolding Publish.source_of
source_of-IsIn [] base src h = cc
source_of-IsIn (r ∷ refs) base src h = elim (Option-cases (Publish.source_of refs base)) [
  | inl e ↦ (r, inl refl, ground arith)
  | inr (found, e) ↦
      let (q, i, same) = source_of-IsIn refs base found e in
      let eq : found ≡ src = ground arith in (q, inr i, sym eq ∙ same)
]

image_promotions_source :
    (variant : Text) (refs : List StagingRef) (images : List BuildImage) (p : Promotion)
    → IsIn p (image_promotions variant refs images)
    → (r : StagingRef) × IsIn r refs × (p.source ≡ r.ref_)
image_promotions_source variant refs [] p i = absurd (unfold image_promotions in i)
image_promotions_source variant refs (x ∷ images) p i =
    elim (Option-cases (Publish.source_of refs x.base)) [
      | inl e ↦
          image_promotions_source variant refs images p
            (rw (image_promotions-none variant refs x images e) at i)
      | inr (src, e) ↦ elim (rw (image_promotions-some variant refs x images src e) at i) [
        | inl q ↦
            let (r, k, same) = source_of-IsIn refs x.base src e in
            (r, k, ap (λ (m : Promotion). m.source) q ∙ same)
        | inr j ↦ image_promotions_source variant refs images p j
      ]
    ]

-- The source of a promotion is a staging ref of one of the builds.
abbrev pub IsSource : State → List Build → Text → Type 0
IsSource state builds source =
    (b : Build) × (refs : List StagingRef) × (r : StagingRef) × IsIn b builds
    × (staging_refs_for b state ≡ ok refs)
    × IsIn r refs
    × (source ≡ r.ref_)

promotions_source :
    (state : State) (builds : List Build) (plan : List Promotion) (p : Promotion)
    → promotions state builds ≡ ok plan
    → IsIn p plan
    → IsSource state builds p.source
unfolding promotions
promotions_source state [] [] p h i = absurd i
promotions_source state [] (q ∷ plan) p h i = cc
promotions_source state (c ∷ builds) plan p h i =
    let (refs, staged, h1) = >>=-eq-ok (staging_refs_for c state) _ h in
    let (rest, later, h2) = >>=-eq-ok (promotions state builds) _ h1 in
    let e : plan ≡ image_promotions c.variant refs c.images ++ rest = ground arith in
    elim (IsIn-append p (image_promotions c.variant refs c.images) rest (rw e at i)) [
      | inl l ↦
          let (r, k, same) = image_promotions_source c.variant refs c.images p l in
          (c, refs, r, inl refl, staged, k, same)
      | inr l ↦
          let (b, refs', r, k, known, j, same) = promotions_source state builds rest p later l in
          (b, refs', r, inr k, known, j, same)
    ]

pub publish_plan_source :
    (state : State) (plan : List Promotion) (p : Promotion)
    → publish_plan state ≡ ok plan
    → IsIn p plan
    → IsSource state state.builds p.source
unfolding publish_plan
publish_plan_source state plan p h i = promotions_source state state.builds plan p h i

-- `imagetools create` succeeds whenever its source is there.
abbrev pub CreateSucceeds : (docker : Docker) → RegistryLaws docker → Type 0
CreateSucceeds docker laws =
    (w : docker.World) (source : Text) (tags : List Text) (file : Text)
    → laws.has w source ≡ true
    → exit_status (docker.run w (promotion_argv source tags file)).1 ≡ 0

module _ (docker : Docker) (laws : RegistryLaws docker) (create : CreateSucceeds docker laws) where
  -- With all sources in place the loop of publish.mjs runs through.
  pub promote_succeeds :
      (work_dir : Text) (plan : List Promotion) (saved : Option (List Published))
      (results : List Published) (s : Session docker)
      → ((p : Promotion) → IsIn p plan → has_ref docker laws s p.source ≡ true)
      → (promote docker work_dir plan saved results s).code ≡ 0
  unfolding promote run_docker
  promote_succeeds work_dir [] saved results s there = refl
  promote_succeeds work_dir (q ∷ plan) saved results s there =
      let file = metadata_file docker work_dir q in
      let argv = promotion_argv q.source q.tags file in
      let s1 : Session docker = (run_docker docker argv s).0 in
      let next = record_promotion results q (digest_of docker s1 file) in
      let ok_status = create s.world q.source q.tags file (there q (inl refl)) in
      let rest =
        promote_succeeds work_dir plan (some next) next s1
          (λ p i. laws.create_keeps s.world q.source q.tags file p.source (there p (inr i))) in
      ground (arith, ok_status, rest)
