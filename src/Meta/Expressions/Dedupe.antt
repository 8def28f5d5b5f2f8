-- ===== src/Meta/Expressions/Dedupe.antt =====
-- `[...new Set(list)]` keeps every value once.
use message_pusher.Base.{
  ◌≡◌, ◌↔◌, refl, sym, true, false, List, [], ◌∷◌, arith, IsIn, IsDistinct, Bool-cases, inl, inr,
}
use message_pusher.Text.{Text, includes, ◌==◌}
use message_pusher.Text.Laws.{includes_iff, includes_not, ==_iff}
use message_pusher.Meta.Expressions.{dedupe_from, dedupe}

dedupe_from_skip :
    (seen : List Text) (x : Text) (xs : List Text)
    → includes seen x ≡ true
    → dedupe_from seen (x ∷ xs) ≡ dedupe_from seen xs
unfolding dedupe_from
dedupe_from_skip seen x xs e = ground arith

dedupe_from_keep :
    (seen : List Text) (x : Text) (xs : List Text)
    → includes seen x ≡ false
    → dedupe_from seen (x ∷ xs) ≡ x ∷ dedupe_from (x ∷ seen) xs
unfolding dedupe_from
dedupe_from_keep seen x xs e = ground arith

dedupe_from_sound :
    (seen xs : List Text) (n : Text) → IsIn n (dedupe_from seen xs) → IsIn n xs × ¬ IsIn n seen
dedupe_from_sound seen [] n i = unfold dedupe_from in absurd i
dedupe_from_sound seen (x ∷ xs) n i = elim (Bool-cases (includes seen x)) [
  | inl e ↦
      let r = dedupe_from_sound seen xs n (rw (dedupe_from_skip seen x xs e) at i) in (inr r.0, r.1)
  | inr e ↦
      let j : IsIn n (x ∷ dedupe_from (x ∷ seen) xs) = rw (dedupe_from_keep seen x xs e) at i in
      elim j [
        | inl q ↦ (inl q, λ m. includes_not seen x e (rw q at m))
        | inr k ↦ let r = dedupe_from_sound (x ∷ seen) xs n k in (inr r.0, λ m. r.1 (inr m))
      ]
]

dedupe_from_complete :
    (seen xs : List Text) (n : Text) → IsIn n xs → ¬ IsIn n seen → IsIn n (dedupe_from seen xs)
dedupe_from_complete seen [] n i fresh = absurd i
dedupe_from_complete seen (x ∷ xs) n (inl q) fresh = elim (Bool-cases (includes seen x)) [
  | inl e ↦ absurd (fresh (rw q ((includes_iff seen x).0 e)))
  | inr e ↦ rw (dedupe_from_keep seen x xs e) (inl q)
]
dedupe_from_complete seen (x ∷ xs) n (inr i) fresh = elim (Bool-cases (includes seen x)) [
  | inl e ↦ rw (dedupe_from_skip seen x xs e) (dedupe_from_complete seen xs n i fresh)
  | inr e ↦ elim (Bool-cases (x == n)) [
    | inl t ↦ rw (dedupe_from_keep seen x xs e) (inl (sym ((==_iff x n).0 t)))
    | inr f ↦ rw (dedupe_from_keep seen x xs e) (
        inr (
          dedupe_from_complete (x ∷ seen) xs n i
            λ m. elim m [ inl q ↦ cc (f, (==_iff x n).1 (sym q)) | inr k ↦ fresh k ]))
  ]
]

dedupe_from-IsDistinct : (seen xs : List Text) → IsDistinct (dedupe_from seen xs)
dedupe_from-IsDistinct seen [] = unfold dedupe_from in tt
dedupe_from-IsDistinct seen (x ∷ xs) = elim (Bool-cases (includes seen x)) [
  | inl e ↦ rw (dedupe_from_skip seen x xs e) (dedupe_from-IsDistinct seen xs)
  | inr e ↦ rw (dedupe_from_keep seen x xs e) (
    λ i. (dedupe_from_sound (x ∷ seen) xs x i).1 (inl refl),
    dedupe_from-IsDistinct (x ∷ seen) xs,
  )
]

pub dedupe-IsDistinct : (xs : List Text) → IsDistinct (dedupe xs)
unfolding dedupe
dedupe-IsDistinct xs = dedupe_from-IsDistinct [] xs

pub dedupe_iff : (xs : List Text) (n : Text) → IsIn n (dedupe xs) ↔ IsIn n xs
unfolding dedupe
dedupe_iff xs n =
    (λ i. (dedupe_from_sound [] xs n i).0, λ i. dedupe_from_complete [] xs n i (λ m. m))
