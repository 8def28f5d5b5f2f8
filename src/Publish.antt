-- ===== src/Publish.antt =====
-- .forgejo/scripts/publish.mjs: promote the staged variants to their final tags.
pub mod Registry
pub mod Plan
pub mod Promote
use message_pusher.Base.{
  ℕ, Bool, true, false, not, List, [], ◌∷◌, ◌++◌, map, Option, none, some, eqb, is_empty,
  if◌then◌else◌,
}
use message_pusher.Text.{Text, txt, ◌==◌}
use message_pusher.Result.{Result, ok, err, ◌>>=◌}
use message_pusher.Config.Images.{RegistryId, ghcr, dockerhub}
use message_pusher.State.{State, Build, BuildImage}
use message_pusher.Staging.{StagingRef, staging_refs_for}
use message_pusher.Docker.{Docker, Session, run_docker, ref_exists, digest_of}

-- What is promoted: a staging ref, and the final tags that it gets.
pub record Promotion : Type 0 where
  pub variant : Text
  pub base : Text
  pub registry_id : RegistryId
  pub source : Text
  pub tags : List Text

-- `new Map(refs.map((entry) => [entry.base, entry.ref])).get(base)`: the last entry wins.
unfoldable pub source_of : List StagingRef → Text → Option Text
source_of [] base = none
source_of (r ∷ refs) base = elim (source_of refs base) [
  | some ref ↦ some ref
  | none ↦ if r.base == base then some r.ref_ else none
]

-- The inner loop of `publishPlan`.
unfoldable pub image_promotions : Text → List StagingRef → List BuildImage → List Promotion
image_promotions variant refs [] = []
image_promotions variant refs (image ∷ images) =
    let rest = image_promotions variant refs images in
    elim (source_of refs image.base) [
      | none ↦ rest
      | some source ↦
          record {
            variant = variant;
            base = image.base;
            registry_id = image.registry_id;
            source = source;
            tags = image.tags;
          }
          ∷ rest
    ]

unfoldable pub promotions : State → List Build → Result (List Promotion)
promotions state [] = ok []
promotions state (build ∷ builds) = do
  refs ← staging_refs_for build state
  rest ← promotions state builds
  ok (image_promotions build.variant refs build.images ++ rest)

unfoldable pub publish_plan : State → Result (List Promotion)
publish_plan state = promotions state state.builds

abbrev pub tag_args : List Text → List Text
tag_args [] = []
tag_args (tag ∷ tags) = txt "--tag" ∷ tag ∷ tag_args tags

abbrev pub metadata_args : Text → List Text
metadata_args file = if is_empty file then [] else txt "--metadata-file" ∷ file ∷ []

unfoldable pub promotion_argv : Text → List Text → Text → List Text
promotion_argv source tags file =
    txt "buildx"
    ∷ txt "imagetools"
    ∷ txt "create"
    ∷ (tag_args tags ++ (metadata_args file ++ source ∷ []))

abbrev pub registry_text : RegistryId → Text
registry_text ghcr = txt "ghcr"
registry_text dockerhub = txt "dockerhub"

-- One entry of the results: what was published of a variant.
pub record Published : Type 0 where
  pub variant : Text
  pub digest : Text
  pub published : List Text
  pub images : List (Text × List Text)

-- The body of the loop of `main` after a successful promotion: `results.get(entry.variant) || …`.
unfoldable pub record_promotion : List Published → Promotion → Text → List Published
record_promotion [] p digest =
    record {
      variant = p.variant;
      digest = digest;
      published = p.tags;
      images = (p.base, p.tags) ∷ [];
    }
    ∷ []
record_promotion (r ∷ results) p digest =
    if r.variant == p.variant
    then record r {
      digest = if is_empty digest then r.digest else digest;
      published = r.published ++ p.tags;
      images = r.images ++ (p.base, p.tags) ∷ [];
    }
      ∷ results
    else r ∷ record_promotion results p digest

module _ (docker : Docker) where
  -- `missingStaging`: every source is looked up.
  unfoldable pub missing_staging : List Promotion → Session docker → Session docker × List Text
  missing_staging [] s = (s, [])
  missing_staging (p ∷ plan) s =
      let (s1, found) = ref_exists docker p.source s in
      let (s2, missing) = missing_staging plan s1 in
      (s2, if found then missing else p.source ∷ missing)

  -- What `main` leaves behind: the exit code, the results in the state file (`none` if the file is
  -- untouched), and the session.
  pub record Outcome : Type 0 where
    pub code : ℕ
    pub results : Option (List Published)
    pub session : Session docker

  abbrev pub metadata_file : Text → Promotion → Text
  metadata_file work_dir p =
      work_dir
      ++ (txt "/publish-"
          ++ (p.variant ++ (txt "-" ++ (registry_text p.registry_id ++ txt ".json"))))

  -- The loop over the plan: a failed promotion ends the program.
  unfoldable pub promote :
      Text → List Promotion → Option (List Published) → List Published → Session docker → Outcome
  promote work_dir [] saved results s = record { code = 0; results = saved; session = s }
  promote work_dir (p ∷ plan) saved results s =
      let file = metadata_file work_dir p in
      let (s1, status) = run_docker docker (promotion_argv p.source p.tags file) s in
      let next = record_promotion results p (digest_of docker s1 file) in
      let rest = promote work_dir plan (some next) next s1 in
      if eqb status 0 then rest else record { code = 1; results = saved; session = s1 }

  -- What follows the plan: nothing is promoted before every staging ref is known to be there.
  unfoldable pub publish : Text → Bool → List Promotion → Session docker → Outcome
  publish work_dir dry_run plan s =
      let (s1, missing) = missing_staging plan s in
      let failed = λ (t : Session docker).
        let o : Outcome = record { code = 1; results = none; session = t } in o in
      let skipped : Outcome = record { code = 0; results = none; session = s } in
      if is_empty plan
      then failed s
      else if dry_run
      then skipped
      else if not (is_empty missing)
      then failed s1
      else promote work_dir plan none [] s1

  -- An exception of `publishPlan` is exit code 1.
  unfoldable pub publish_planned : Text → Bool → Result (List Promotion) → Session docker → Outcome
  publish_planned work_dir dry_run (err e) s = record { code = 1; results = none; session = s }
  publish_planned work_dir dry_run (ok plan) s = publish work_dir dry_run plan s

  unfoldable pub publish_main : Text → State → Session docker → Outcome
  unfolding publish_planned
  publish_main work_dir state s = publish_planned work_dir state.dry_run (publish_plan state) s
