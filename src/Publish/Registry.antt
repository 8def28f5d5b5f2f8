-- ===== src/Publish/Registry.antt =====
-- What publish.mjs relies on of the registries behind `docker buildx imagetools`, and what its loops
-- do to them.
use message_pusher.Base.{
  ℕ, ◌≡◌, refl, ◌∙◌, ap, fun_ext, Bool, true, not, List, [], ◌∷◌, map, Option, some, arith, eqb,
  IsIn, inl, inr, Bool-cases, filter,
}
use message_pusher.Text.{Text}
use message_pusher.Docker.{
  Docker, inspect_argv, exit_status, Session, run_docker, ref_exists, digest_of,
}
use message_pusher.Publish.{
  Promotion, Published, promotion_argv, missing_staging, metadata_file, promote, record_promotion,
}

-- Documented behaviour: `inspect` succeeds exactly for a ref that is there, and is read-only;
-- `create` attaches all tags if it succeeds, and never takes a ref away.
pub record RegistryLaws (docker : Docker) : Type 0 where
  pub has : docker.World → Text → Bool
  pub inspect_status :
      (w : docker.World) (ref : Text)
      → eqb (exit_status (docker.run w (inspect_argv ref)).1) 0 ≡ has w ref
  pub inspect_keeps :
      (w : docker.World) (ref t : Text) → has (docker.run w (inspect_argv ref)).0 t ≡ has w t
  pub create_adds :
      (w : docker.World) (source : Text) (tags : List Text) (file t : Text)
      → exit_status (docker.run w (promotion_argv source tags file)).1 ≡ 0
      → IsIn t tags
      → has (docker.run w (promotion_argv source tags file)).0 t ≡ true
  pub create_keeps :
      (w : docker.World) (source : Text) (tags : List Text) (file t : Text)
      → has w t ≡ true
      → has (docker.run w (promotion_argv source tags file)).0 t ≡ true

abbrev pub source_of : Promotion → Text
source_of p = p.source

module _ (docker : Docker) (laws : RegistryLaws docker) where
  -- Is a ref in the registry of a session?
  abbrev pub has_ref : Session docker → Text → Bool
  has_ref s t = laws.has s.world t

  pub ref_exists_lem :
      (ref : Text) (s : Session docker) → (ref_exists docker ref s).1 ≡ has_ref s ref
  unfolding ref_exists run_docker
  ref_exists_lem ref s = laws.inspect_status s.world ref

  pub ref_exists_keeps :
      (ref : Text) (s : Session docker) (t : Text)
      → has_ref (ref_exists docker ref s).0 t ≡ has_ref s t
  unfolding ref_exists run_docker
  ref_exists_keeps ref s t = laws.inspect_keeps s.world ref t

  pub missing_staging_keeps :
      (plan : List Promotion) (s : Session docker) (t : Text)
      → has_ref (missing_staging docker plan s).0 t ≡ has_ref s t
  unfolding missing_staging
  missing_staging_keeps [] s t = refl
  missing_staging_keeps (p ∷ plan) s t =
      missing_staging_keeps plan (ref_exists docker p.source s).0 t ∙ ref_exists_keeps p.source s t

  -- `missingStaging` lists the sources that are not in the registry, and no other.
  pub missing_staging_lem :
      (plan : List Promotion) (s : Session docker)
      → (missing_staging docker plan s).1 ≡ filter (λ ref. not (has_ref s ref)) (map source_of plan)
  unfolding missing_staging
  missing_staging_lem [] s = refl
  missing_staging_lem (p ∷ plan) s =
      let s1 = (ref_exists docker p.source s).0 in
      let same : (λ ref. not (has_ref s1 ref)) ≡ (λ ref. not (has_ref s ref)) =
        fun_ext (λ t. ap not (ref_exists_keeps p.source s t)) in
      let rest =
        missing_staging_lem plan s1
        ∙ ap (λ (f : Text → Bool). filter f (map source_of plan)) same in
      rw (rest, ref_exists_lem p.source s)
        (elim (Bool-cases (has_ref s p.source)) [ inl e ↦ rw e refl | inr e ↦ rw e refl ])

  pub promote_keeps :
      (work_dir : Text) (plan : List Promotion) (saved : Option (List Published))
      (results : List Published) (s : Session docker) (t : Text)
      → has_ref s t ≡ true
      → has_ref (promote docker work_dir plan saved results s).session t ≡ true
  unfolding promote run_docker
  promote_keeps work_dir [] saved results s t h = h
  promote_keeps work_dir (p ∷ plan) saved results s t h =
      let file = metadata_file docker work_dir p in
      let s1 = (run_docker docker (promotion_argv p.source p.tags file) s).0 in
      let next = record_promotion results p (digest_of docker s1 file) in
      let kept = laws.create_keeps s.world p.source p.tags file t h in
      ground (arith, kept, promote_keeps work_dir plan (some next) next s1 t)

  abbrev status_of : Text → Promotion → Session docker → ℕ
  status_of work_dir p s =
      (run_docker docker (promotion_argv p.source p.tags (metadata_file docker work_dir p)) s).1

  abbrev after : Text → Promotion → Session docker → Session docker
  after work_dir p s =
      (run_docker docker (promotion_argv p.source p.tags (metadata_file docker work_dir p)) s).0

  abbrev results_after : Text → Promotion → List Published → Session docker → List Published
  results_after work_dir p results s =
      record_promotion results p
        (digest_of docker (after work_dir p s) (metadata_file docker work_dir p))

  -- One round of the loop that ends with code 0 has promoted its entry.
  promote_step :
      (work_dir : Text) (p : Promotion) (plan : List Promotion) (saved : Option (List Published))
      (results : List Published) (s : Session docker)
      → (promote docker work_dir (p ∷ plan) saved results s).code ≡ 0
      → (status_of work_dir p s ≡ 0)
        × (promote docker work_dir (p ∷ plan) saved results s
            ≡ promote docker work_dir plan
                (some (results_after work_dir p results s))
                (results_after work_dir p results s)
                (after work_dir p s))
  unfolding promote
  promote_step work_dir p plan saved results s h = ground arith

  -- If every promotion succeeds, every tag of the plan is in the registry.
  pub promote_adds :
      (work_dir : Text) (plan : List Promotion) (saved : Option (List Published))
      (results : List Published) (s : Session docker) (p : Promotion) (t : Text)
      → (promote docker work_dir plan saved results s).code ≡ 0
      → IsIn p plan
      → IsIn t p.tags
      → has_ref (promote docker work_dir plan saved results s).session t ≡ true
  promote_adds work_dir [] saved results s p t h i j = absurd i
  promote_adds work_dir (q ∷ plan) saved results s p t h (inr i) j =
      let (_, step) = promote_step work_dir q plan saved results s h in
      rw step (
        promote_adds work_dir plan (some (results_after work_dir q results s))
          (results_after work_dir q results s) (after work_dir q s) p t (rw step at h) i j)
  promote_adds work_dir (q ∷ plan) saved results s p t h (inl e) j =
      let (done, step) = promote_step work_dir q plan saved results s h in
      let file = metadata_file docker work_dir q in
      let j' : IsIn t q.tags = rw e at j in
      rw step (
        promote_keeps work_dir plan (some (results_after work_dir q results s))
          (results_after work_dir q results s) (after work_dir q s) t
          (unfold run_docker in laws.create_adds s.world q.source q.tags file t done j'))
