-- ===== src/Result.antt =====
-- The errors that the scripts throw, without their wording, and results that may be an error.
use message_pusher.Base.{◌≡◌, refl, List, [], ◌∷◌, Bool, true, false, arith, All, IsIn, inl, inr}
use message_pusher.Text.{Text}

pub data Error : Type 0 where
  key_value_expected : Text → Error
  bad_platform : Text → Error
  bad_tag_name : Text → Error
  tag_too_long : Text → Error
  no_variants : Error
  bad_variant_name : Text → Error
  duplicate_variant : Text → Error
  several_defaults : List Text → Error
  no_default : List Text → Error
  unknown_variants : List Text → List Text → Error
  empty_image : Error
  unsupported_registry : Text → Error
  bad_ghcr_image : Text → Error
  bad_image : Text → Error
  namespace_expected : Text → Error
  missing_credential : Text → Text → Error
  no_repo_name : Error
  no_tag_rules : Error
  unsupported_type : Text → Error
  unknown_type : Text → Error
  bad_enable : Text → Error
  bad_latest : Text → Error
  bad_flavor_flag : Text → Error
  unknown_flavor : Text → Error
  bad_event : Text → Error
  no_pattern : Error
  bad_pattern : Text → Error
  unsupported_expressions : List Text → Error
  no_tags : Error
  duplicate_tags : List Text → Error
  version_mismatch : Text → Text → Error
  tag_expected : Text → Error
  no_version : Error
  bad_version : Text → Error
  no_selection : Error
  no_docker_command : Error
  no_daemon : Error
  log_closed : Text → Error
  daemon_failed : Text → Error
  still_waiting : Error
  no_manager : List Text → Error
  install_failed : Text → List Text → Error
  no_buildx : Error

-- What a function that may throw returns.
pub data Result {ℓ} (A : Type ℓ) : Type ℓ where
  err : (thrown : Error) → Result A
  ok : (returned : A) → Result A

infixl 5 ◌>>=◌ ◌>>◌
-- `if (!test) throw e;`
abbrev pub guard : (test : Bool) → (thrown : Error) → Result (Unit {0})
guard false thrown = err thrown
guard true thrown = ok tt

-- An exception ends the block; a value goes to what follows.
abbrev pub ◌>>=◌ {κ ℓ} : {X : Type κ} {Y : Type ℓ} (first : Result X) → (X → Result Y) → Result Y
err thrown >>= next = err thrown
ok value >>= next = next value

abbrev pub ◌>>◌ {ℓ} : {Y : Type ℓ} (first : Result (Unit {0})) (rest : Result Y) → Result Y
first >> rest = first >>= (λ (done : Unit {0}). rest)

-- `list.map(f)` where `f` may throw
unfoldable pub traverse : {A B : Type 0} → (A → Result B) → List A → Result (List B)
traverse f [] = ok []
traverse f (x ∷ xs) = do y ← f x; ys ← traverse f xs; ok (y ∷ ys)

-- A block that returns has had a value from its first step.
pub >>=-eq-ok {κ ℓ} :
    {X : Type κ} {Y : Type ℓ} (first : Result X) (next : X → Result Y) {y : Y}
    → (first >>= next) ≡ ok y
    → (x : X) × (first ≡ ok x) × (next x ≡ ok y)
>>=-eq-ok (err thrown) next h = cc
>>=-eq-ok (ok x) next h = (x, refl, h)

pub guard-eq-ok {ℓ} :
    {B : Type ℓ} (t : Bool) (e : Error) (m : Result B) {b : B}
    → (guard t e >> m) ≡ ok b
    → (t ≡ true) × (m ≡ ok b)
guard-eq-ok true e m h = (refl, h)
guard-eq-ok false e m h = cc

module _ {A B : Type 0} (f : A → Result B) where
  pub traverse_nil : (ys : List B) → traverse f [] ≡ ok ys → ys ≡ []
  unfolding traverse
  traverse_nil ys h = ground arith

  pub traverse_cons :
      (x : A) (xs : List A) (ys : List B)
      → traverse f (x ∷ xs) ≡ ok ys
      → (y : B) × (zs : List B) × (f x ≡ ok y) × (traverse f xs ≡ ok zs) × (ys ≡ y ∷ zs)
  unfolding traverse
  traverse_cons x xs ys h =
      let (y, first, h') = >>=-eq-ok (f x) _ h in
      let (zs, later, h'') = >>=-eq-ok (traverse f xs) _ h' in (y, zs, first, later, ground arith)

  -- What every result of `f` has, every element of the mapped list has.
  pub All-traverse :
      (P : B → Type 0)
      → ((a : A) (b : B) → f a ≡ ok b → P b)
      → (xs : List A) (ys : List B) → traverse f xs ≡ ok ys
      → All P ys
  All-traverse P step [] ys h = rw (traverse_nil ys h) tt
  All-traverse P step (x ∷ xs) ys h =
      let (y, zs, first, later, e) = traverse_cons x xs ys h in
      rw e (step x y first, All-traverse P step xs zs later)

  -- A mapped element comes from an element of the list.
  pub IsIn-traverse :
      (xs : List A) (ys : List B) (b : B)
      → traverse f xs ≡ ok ys
      → IsIn b ys
      → (a : A) × IsIn a xs × (f a ≡ ok b)
  IsIn-traverse [] ys b h m = absurd (rw (traverse_nil ys h) at m)
  IsIn-traverse (x ∷ xs) ys b h m =
      let (y, zs, first, later, e) = traverse_cons x xs ys h in
      let m' : IsIn b (y ∷ zs) = rw e at m in
      elim m' [
        | inl q ↦ (x, inl refl, rw q first)
        | inr n ↦ let (a, i, r) = IsIn-traverse xs zs b later n in (a, inr i, r)
      ]

  -- Every element of the list has its result among the results.
  pub IsIn-traverse_intro :
      (xs : List A) (ys : List B) (a : A)
      → traverse f xs ≡ ok ys
      → IsIn a xs
      → (b : B) × IsIn b ys × (f a ≡ ok b)
  IsIn-traverse_intro [] ys a h m = absurd m
  IsIn-traverse_intro (x ∷ xs) ys a h (inl q) =
      let (y, zs, first, later, e) = traverse_cons x xs ys h in (y, rw e (inl refl), rw q first)
  IsIn-traverse_intro (x ∷ xs) ys a h (inr m) =
      let (y, zs, first, later, e) = traverse_cons x xs ys h in
      let (b, i, r) = IsIn-traverse_intro xs zs a later m in (b, rw e (inr i), r)
