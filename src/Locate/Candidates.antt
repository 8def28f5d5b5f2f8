-- ===== src/Locate/Candidates.antt =====
-- Which of the candidates is taken for the Action's directory.
use message_pusher.Base.{
  ◌≡◌, ◌⊎◌, refl, sym, ap, ◌∙◌, Bool, true, false, ◌||◌, List, [], ◌∷◌, ◌++◌, none, some, drop,
  Option-cases, find?, is_empty, All, IsIn, IsIn-append, IsDistinct, inl, inr, Bool-cases,
}
use message_pusher.Text.{Text, txt, Env, includes}
use message_pusher.Text.Laws.{includes_not}
use message_pusher.Config.Lists.{read_optional}
use message_pusher.Paths.{Paths}
use message_pusher.Locate.{
  FileSystem, first_that, is_action_dir, clean, push, push_all, locations, locate_candidates,
  locate_action_dir,
}

IsDistinct-snoc :
    (xs : List Text) (x : Text) → IsDistinct xs → ¬ IsIn x xs → IsDistinct (xs ++ (x ∷ []))
IsDistinct-snoc [] x d fresh = (λ i. i, tt)
IsDistinct-snoc (y ∷ xs) x (new, d) fresh = (
  λ i. elim (IsIn-append y xs (x ∷ []) i) [
    | inl l ↦ new l
    | inr r ↦ elim r [ inl q ↦ fresh (inl (sym q)) | inr k ↦ k ]
  ],
  IsDistinct-snoc xs x d (λ i. fresh (inr i)),
)

-- What a search in a list finds, and what it passes over.
find?-eq-some :
    (p : Text → Bool) (xs : List Text) (x : Text)
    → find? p xs ≡ some x
    → (before after : List Text) × (xs ≡ before ++ (x ∷ after))
      × All (λ y. p y ≡ false) before
      × (p x ≡ true)
find?-eq-some p [] x h = cc
find?-eq-some p (y ∷ xs) x h = elim (Bool-cases (p y)) [
  | inl t ↦
      let h1 : some y ≡ some x = rw t at h in
      let q : y ≡ x = some_injective y x h1 in ([], xs, rw q refl, tt, rw (← q) t)
  | inr f ↦
      let (before, after, whole, others, found) = find?-eq-some p xs x (rw f at h) in
      (y ∷ before, after, ap (λ l. y ∷ l) whole, (f, others), found)
]
  where
    some_injective : (a b : Text) → some a ≡ some b → a ≡ b
    some_injective a b e = cc

find?-eq-none : (p : Text → Bool) (xs : List Text) → find? p xs ≡ none → All (λ y. p y ≡ false) xs
find?-eq-none p [] h = tt
find?-eq-none p (y ∷ xs) h = elim (Bool-cases (p y)) [
  | inl t ↦ let h1 = rw t at h in cc h1
  | inr f ↦ (f, find?-eq-none p xs (rw f at h))
]

first_that-cases :
    (p : Text → Bool) (xs : List Text)
    → ((before after : List Text) × (xs ≡ before ++ (first_that p xs ∷ after))
        × All (λ y. p y ≡ false) before
        × (p (first_that p xs) ≡ true))
      ⊎ ((first_that p xs ≡ []) × All (λ y. p y ≡ false) xs)
unfolding first_that
first_that-cases p xs = elim (Option-cases (find? p xs)) [
  | inl nothing ↦ inr (rw (first_that, nothing) (refl, find?-eq-none p xs nothing))
  | inr (dir, found) ↦ inl (rw (first_that, found) (find?-eq-some p xs dir found))
]

first_that-head :
    (p : Text → Bool) (x : Text) (xs : List Text) → p x ≡ true → first_that p (x ∷ xs) ≡ x
unfolding first_that
first_that-head p x xs h = rw (first_that, h) refl

module _ (files : FileSystem) (paths : Paths) where
  push-IsDistinct :
      (candidates : List Text) (dir : Text)
      → IsDistinct candidates
      → IsDistinct (push files paths candidates dir)
  unfolding push
  push-IsDistinct candidates dir d =
      let known = includes candidates (clean files paths dir) in
      elim (Bool-cases (is_empty dir || known)) [
        | inl skipped ↦ rw skipped d
        | inr kept ↦
            let new : known ≡ false = or_false (is_empty dir) known kept in
            rw kept (
              IsDistinct-snoc candidates (clean files paths dir) d
                (includes_not candidates (clean files paths dir) new))
      ]
    where
      or_false : (a b : Bool) → (a || b) ≡ false → b ≡ false
      or_false true b h = cc
      or_false false b h = h

  push_all-IsDistinct :
      (candidates dirs : List Text)
      → IsDistinct candidates
      → IsDistinct (push_all files paths candidates dirs)
  unfolding push_all
  push_all-IsDistinct candidates [] d = d
  push_all-IsDistinct candidates (dir ∷ dirs) d =
      push_all-IsDistinct (push files paths candidates dir) dirs (push-IsDistinct candidates dir d)

  -- A first candidate stays the first.
  push_all-head :
      (first : Text) (candidates dirs : List Text)
      → (rest : List Text) × (push_all files paths (first ∷ candidates) dirs ≡ first ∷ rest)
  unfolding push_all push
  push_all-head first candidates [] = (candidates, refl)
  push_all-head first candidates (dir ∷ dirs) =
      elim (Bool-cases (is_empty dir || includes (first ∷ candidates) (clean files paths dir))) [
        | inl skipped ↦ rw skipped (push_all-head first candidates dirs)
        | inr kept ↦ rw kept (push_all-head first (candidates ++ (clean files paths dir ∷ [])) dirs)
      ]

  locate_candidates-IsDistinct : (env : Env) → IsDistinct (locate_candidates files paths env)
  unfolding locate_candidates
  locate_candidates-IsDistinct env = push_all-IsDistinct [] (locations files paths env) tt

  -- No candidate is tried twice. What is found is a candidate that is the Action, with none before it
  -- that is; if nothing is found, none of them is.
  pub locate_action_dir_lem :
      (env : Env)
      → let dir = locate_action_dir files paths env in
        let candidates = locate_candidates files paths env in
        IsDistinct candidates
        × (((before after : List Text) × (candidates ≡ before ++ (dir ∷ after))
              × All (λ d. is_action_dir files paths d ≡ false) before
              × (is_action_dir files paths dir ≡ true))
            ⊎ ((dir ≡ []) × All (λ d. is_action_dir files paths d ≡ false) candidates))
  unfolding locate_action_dir
  locate_action_dir_lem env = (
    locate_candidates-IsDistinct env,
    first_that-cases (is_action_dir files paths) (locate_candidates files paths env),
  )

  candidates_hint :
      (hint : Text) (dirs : List Text)
      → is_empty hint ≡ false
      → (rest : List Text) × (push_all files paths [] (hint ∷ dirs) ≡ clean files paths hint ∷ rest)
  unfolding push_all push includes
  candidates_hint hint dirs given = rw given (push_all-head (clean files paths hint) [] dirs)

  -- A directory that `GITHUB_ACTION_PATH` names is taken if it is the Action, whatever else there is.
  locate_action_dir-explicit :
      (env : Env)
      → is_empty (read_optional (env (txt "GITHUB_ACTION_PATH"))) ≡ false
      → is_action_dir files paths
          (clean files paths (read_optional (env (txt "GITHUB_ACTION_PATH"))))
        ≡ true
      → locate_action_dir files paths env
        ≡ clean files paths (read_optional (env (txt "GITHUB_ACTION_PATH")))
  unfolding locate_action_dir locate_candidates locations
  locate_action_dir-explicit env given there =
      let (rest, whole) =
        candidates_hint (read_optional (env (txt "GITHUB_ACTION_PATH")))
          (drop 1 (locations files paths env)) given in
      ap (first_that (is_action_dir files paths)) whole
      ∙ first_that-head (is_action_dir files paths) _ rest there
