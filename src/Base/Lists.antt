-- ===== src/Base/Lists.antt =====
-- Lists with Boolean tests and native lengths, and predicates on lists by recursion.
use Prim.Native.Nat.{ℕ, zero, suc, ◌+◌}
use mathlib.Core.Path.{◌≡◌, refl, ap, subst}
use mathlib.Core.Logic.{◌⊎◌, inl, inr}
use mathlib.Core.Bool.{Bool, true, false, ◌&&◌, ◌||◌}
use mathlib.Core.Option.{Option, none, some}
use mathlib.Core.List.{List, [], ◌∷◌, ◌++◌, map}
use native.Mathlib.Omega.{arith}
use message_pusher.Base.Tests.{if◌then◌else◌, Bool-cases}

module _ {ℓ} {A : Type ℓ} where
  abbrev pub length : List A → ℕ
  length [] = 0
  length (x ∷ xs) = suc (length xs)

  abbrev pub take : ℕ → List A → List A
  take zero xs = []
  take (suc n) [] = []
  take (suc n) (x ∷ xs) = x ∷ take n xs

  abbrev pub drop : ℕ → List A → List A
  drop zero xs = xs
  drop (suc n) [] = []
  drop (suc n) (x ∷ xs) = drop n xs

  abbrev pub is_empty : List A → Bool
  is_empty [] = true
  is_empty (_ ∷ _) = false

  abbrev pub all : (A → Bool) → List A → Bool
  all p [] = true
  all p (x ∷ xs) = p x && all p xs

  abbrev pub any : (A → Bool) → List A → Bool
  any p [] = false
  any p (x ∷ xs) = p x || any p xs

  abbrev pub filter : (A → Bool) → List A → List A
  filter p [] = []
  filter p (x ∷ xs) = let rest = filter p xs in if p x then x ∷ rest else rest

  abbrev pub find? : (A → Bool) → List A → Option A
  find? p [] = none
  find? p (x ∷ xs) = if p x then some x else find? p xs

-- A predicate that every element has.
module _ {ℓ κ} {A : Type ℓ} (P : A → Type κ) where
  abbrev pub All : List A → Type κ
  All [] = Unit
  All (x ∷ xs) = P x × All xs

module _ {A : Type 0} where
  -- `a` is an element of the list.
  abbrev pub IsIn : A → List A → Type 0
  IsIn a [] = ⊥
  IsIn a (x ∷ xs) = (a ≡ x) ⊎ IsIn a xs

  -- No element stands twice.
  abbrev pub IsDistinct : List A → Type 0
  IsDistinct [] = Unit
  IsDistinct (x ∷ xs) = ¬ IsIn x xs × IsDistinct xs

  pub is_empty_of_IsIn : (a : A) (xs : List A) → IsIn a xs → is_empty xs ≡ false
  is_empty_of_IsIn a [] h = elim h [ ]
  is_empty_of_IsIn a (x ∷ xs) h = refl

  pub IsIn-append_left : (a : A) (xs ys : List A) → IsIn a xs → IsIn a (xs ++ ys)
  IsIn-append_left a [] ys h = elim h [ ]
  IsIn-append_left a (x ∷ xs) ys (inl e) = inl e
  IsIn-append_left a (x ∷ xs) ys (inr h) = inr (IsIn-append_left a xs ys h)

  pub IsIn-append_right : (a : A) (xs ys : List A) → IsIn a ys → IsIn a (xs ++ ys)
  IsIn-append_right a [] ys h = h
  IsIn-append_right a (x ∷ xs) ys h = inr (IsIn-append_right a xs ys h)

  pub IsIn-append : (a : A) (xs ys : List A) → IsIn a (xs ++ ys) → IsIn a xs ⊎ IsIn a ys
  IsIn-append a [] ys h = inr h
  IsIn-append a (x ∷ xs) ys (inl e) = inl (inl e)
  IsIn-append a (x ∷ xs) ys (inr h) = elim (IsIn-append a xs ys h) [
    | inl l ↦ inl (inr l)
    | inr r ↦ inr r
  ]

  pub IsIn-filter :
      (p : A → Bool) (a : A) (xs : List A) → IsIn a (filter p xs) → IsIn a xs × (p a ≡ true)
  IsIn-filter p a [] h = elim h [ ]
  IsIn-filter p a (x ∷ xs) h = elim (Bool-cases (p x)) [
    | inl e ↦
        let m : IsIn a (x ∷ filter p xs) = rw e at h in
        elim m [
          | inl q ↦ (inl q, rw q e)
          | inr n ↦ (inr (IsIn-filter p a xs n).0, (IsIn-filter p a xs n).1)
        ]
    | inr e ↦ let r = IsIn-filter p a xs (rw e at h) in (inr r.0, r.1)
  ]

  pub IsIn-filter_intro :
      (p : A → Bool) (a : A) (xs : List A) → IsIn a xs → p a ≡ true → IsIn a (filter p xs)
  IsIn-filter_intro p a [] h e = h
  IsIn-filter_intro p a (x ∷ xs) (inl q) e = let e' : p x ≡ true = rw q at e in rw e' (inl q)
  IsIn-filter_intro p a (x ∷ xs) (inr m) e = elim (Bool-cases (p x)) [
    | inl t ↦ rw t (inr (IsIn-filter_intro p a xs m e))
    | inr f ↦ rw f (IsIn-filter_intro p a xs m e)
  ]

  pub All-IsIn {κ} : (P : A → Type κ) (a : A) (xs : List A) → All P xs → IsIn a xs → P a
  All-IsIn P a [] h m = elim m [ ]
  All-IsIn P a (x ∷ xs) (p, h) (inl e) = rw e p
  All-IsIn P a (x ∷ xs) (p, h) (inr m) = All-IsIn P a xs h m

  pub All-of_IsIn {κ} : (P : A → Type κ) (xs : List A) → ((a : A) → IsIn a xs → P a) → All P xs
  All-of_IsIn P [] f = tt
  All-of_IsIn P (x ∷ xs) f = (f x (inl refl), All-of_IsIn P xs (λ a m. f a (inr m)))

  -- `filter` keeps everything exactly if everything passes.
  pub filter-eq-nil :
      (p : A → Bool) (xs : List A) → filter p xs ≡ [] → (a : A) → IsIn a xs → p a ≡ false
  filter-eq-nil p xs h a m = elim (Bool-cases (p a)) [
    | inl t ↦ absurd (subst (IsIn a) h (IsIn-filter_intro p a xs m t))
    | inr f ↦ f
  ]

  pub filter-nil_of :
      (p : A → Bool) (xs : List A) → ((a : A) → IsIn a xs → p a ≡ false) → filter p xs ≡ []
  filter-nil_of p [] f = refl
  filter-nil_of p (x ∷ xs) f = rw (f x (inl refl)) (filter-nil_of p xs (λ a m. f a (inr m)))

  pub All-filter {κ} :
      (P : A → Type κ) (p : A → Bool) (xs : List A) → All P xs → All P (filter p xs)
  All-filter P p [] h = tt
  All-filter P p (x ∷ xs) (q, h) = elim (Bool-cases (p x)) [
    | inl t ↦ rw t (q, All-filter P p xs h)
    | inr f ↦ rw f (All-filter P p xs h)
  ]

  pub All-append {κ} : (P : A → Type κ) (xs ys : List A) → All P xs → All P ys → All P (xs ++ ys)
  All-append P [] ys h k = k
  All-append P (x ∷ xs) ys (p, h) k = (p, All-append P xs ys h k)

  pub length-append : (xs ys : List A) → length (xs ++ ys) ≡ length xs + length ys
  length-append [] ys = omega arith
  length-append (x ∷ xs) ys = omega (arith, length-append xs ys)

module _ {A B : Type 0} where
  pub IsIn-map : (f : A → B) (a : A) (xs : List A) → IsIn a xs → IsIn (f a) (map f xs)
  IsIn-map f a (x ∷ xs) (inl e) = inl (ap f e)
  IsIn-map f a (x ∷ xs) (inr m) = inr (IsIn-map f a xs m)
  IsIn-map f a [] h = elim h [ ]

  pub IsIn-map_inv :
      (f : A → B) (b : B) (xs : List A) → IsIn b (map f xs) → (a : A) × IsIn a xs × (b ≡ f a)
  IsIn-map_inv f b [] h = elim h [ ]
  IsIn-map_inv f b (x ∷ xs) (inl e) = (x, inl refl, e)
  IsIn-map_inv f b (x ∷ xs) (inr m) = let (a, i, e) = IsIn-map_inv f b xs m in (a, inr i, e)

pub is_empty-eq-true {ℓ} : {A : Type ℓ} (xs : List A) → is_empty xs ≡ true → xs ≡ []
is_empty-eq-true [] h = refl
is_empty-eq-true (x ∷ xs) h = cc

-- What holds of all elements holds of each.
pub all-IsIn :
    {A : Type 0} (p : A → Bool) (xs : List A) (x : A) → all p xs ≡ true → IsIn x xs → p x ≡ true
all-IsIn p [] x h i = absurd i
all-IsIn p (y ∷ xs) x h i = elim (Bool-cases (p y)) [
  | inr fails ↦ let h1 = rw fails at h in cc h1
  | inl holds ↦
      let h1 = rw holds at h in elim i [ inl q ↦ rw q holds | inr j ↦ all-IsIn p xs x h1 j ]
]
