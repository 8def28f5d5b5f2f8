-- ===== src/Text/Laws.antt =====
-- Laws of text equality, trimming and prefixes.
use message_pusher.Base.{
  ℕ, Bool, true, false, ◌&&◌, ◌≡◌, refl, sym, ◌≢◌, ◌↔◌, inl, inr, List, [], ◌∷◌, arith, Bool-cases,
  All, IsIn, is_empty,
}
use message_pusher.Text.{Text, ◌==◌, includes, is_space, drop_while, drop_end_while, trim}

==_sound : (s t : Text) → s == t ≡ true → s ≡ t
unfolding ◌==◌
==_sound [] [] h = refl
==_sound [] (_ ∷ _) h = cc
==_sound (_ ∷ _) [] h = cc
==_sound (a ∷ s) (b ∷ t) h = ground (arith, ==_sound s t)

pub ==_refl : (s : Text) → s == s ≡ true
unfolding ◌==◌
==_refl [] = refl
==_refl (a ∷ s) = ground (arith, ==_refl s)

pub ==_iff : (s t : Text) → (s == t ≡ true) ↔ (s ≡ t)
==_iff s t = (==_sound s t, λ e. rw e (==_refl t))

pub ==_false : (s t : Text) → s ≢ t → s == t ≡ false
==_false s t h = ground (arith, ==_iff s t)

includes_sound : (xs : List Text) (s : Text) → includes xs s ≡ true → IsIn s xs
unfolding includes
includes_sound [] s h = cc
includes_sound (x ∷ xs) s h = elim (Bool-cases (x == s)) [
  | inl e ↦ inl (sym (==_sound x s e))
  | inr e ↦ inr (includes_sound xs s (rw e at h))
]

includes_complete : (xs : List Text) (s : Text) → IsIn s xs → includes xs s ≡ true
unfolding includes
includes_complete (x ∷ xs) s (inl e) = rw (e, ==_refl x)
includes_complete (x ∷ xs) s (inr m) = ground (arith, includes_complete xs s m)
includes_complete [] s m = elim m [ ]

pub includes_iff : (xs : List Text) (s : Text) → (includes xs s ≡ true) ↔ IsIn s xs
includes_iff xs s = (includes_sound xs s, includes_complete xs s)

pub includes_not : (xs : List Text) (s : Text) → includes xs s ≡ false → ¬ IsIn s xs
includes_not xs s h m = cc (h, includes_complete xs s m)

pub includes-eq-false : (xs : List Text) (s : Text) → ¬ IsIn s xs → includes xs s ≡ false
includes-eq-false xs s h = elim (Bool-cases (includes xs s)) [
  | inl t ↦ absurd (h (includes_sound xs s t))
  | inr f ↦ f
]

-- What holds of every unit still holds after trimming.
module _ (P : ℕ → Type 0) (p : ℕ → Bool) where
  pub All-drop_while : (s : Text) → All P s → All P (drop_while p s)
  unfolding drop_while
  All-drop_while [] h = tt
  All-drop_while (c ∷ s) (q, h) = elim (Bool-cases (p c)) [
    | inl t ↦ rw t (All-drop_while s h)
    | inr f ↦ rw f (q, h)
  ]

  pub All-drop_end_while : (s : Text) → All P s → All P (drop_end_while p s)
  unfolding drop_end_while
  All-drop_end_while [] h = tt
  All-drop_end_while (c ∷ s) (q, h) = elim (Bool-cases (p c && is_empty (drop_end_while p s))) [
    | inl t ↦ rw t tt
    | inr f ↦ rw f (q, All-drop_end_while s h)
  ]

pub All-trim : (P : ℕ → Type 0) (s : Text) → All P s → All P (trim s)
unfolding trim
All-trim P s h = All-drop_end_while P is_space _ (All-drop_while P is_space s h)

pub drop_while_id : (p : ℕ → Bool) (s : Text) → All (λ c. p c ≡ false) s → drop_while p s ≡ s
unfolding drop_while
drop_while_id p [] h = refl
drop_while_id p (c ∷ s) (q, h) = rw q

pub drop_end_while_id :
    (p : ℕ → Bool) (s : Text) → All (λ c. p c ≡ false) s → drop_end_while p s ≡ s
unfolding drop_end_while
drop_end_while_id p [] h = refl
drop_end_while_id p (c ∷ s) (q, h) = rw (q, drop_end_while_id p s h)

pub trim_id : (s : Text) → All (λ c. is_space c ≡ false) s → trim s ≡ s
unfolding trim
trim_id s h = rw (drop_while_id is_space s h) (drop_end_while_id is_space s h)

-- Two texts that the test tells apart.
pub ne_of_== : (s t : Text) → s == t ≡ false → s ≢ t
ne_of_== s t h e = cc (h, (==_iff s t).1 e)
