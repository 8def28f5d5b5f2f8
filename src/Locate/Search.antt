-- ===== src/Locate/Search.antt =====
-- `findForgejoDirs` finds exactly the `.forgejo` directories that are near enough.
use message_pusher.Base.{
  ℕ, zero, suc, ◌<◌, ◌≡◌, ◌⊎◌, ◌↔◌, refl, sym, Bool, true, false, List, [], ◌∷◌, ◌++◌, arith, IsIn,
  IsIn-append, IsIn-append_left, IsIn-append_right, inl, inr, Bool-cases, subst,
}
use message_pusher.Text.{Text, txt, ◌==◌}
use message_pusher.Paths.{Paths}
use message_pusher.Locate.{
  Entry, FileSystem, scan_entries, entries_of, scan_level, search, find_forgejo_dirs,
}

module _ (files : FileSystem) (paths : Paths) where
  -- One of the entries is a directory with the path `child`, and its name is `.forgejo`, or it is not.
  abbrev pub Lists : Bool → Text → List Entry → Text → Type 0
  Lists forgejo dir entries child =
      (e : Entry) × IsIn e entries
      × (e.is_directory ≡ true)
      × ((e.name == txt ".forgejo") ≡ forgejo)
      × (paths.join_path dir e.name ≡ child)

  -- The same of the entries that a directory has.
  abbrev pub HasChild : Bool → Text → Text → Type 0
  HasChild forgejo dir child = Lists forgejo dir (entries_of files paths dir) child

  -- The second directory is reached from the first by some number of steps into a directory that is
  -- not called `.forgejo`.
  abbrev pub Reaches : ℕ → Text → Text → Type 0
  Reaches zero a b = a ≡ b
  Reaches (suc steps) a b = (c : Text) × HasChild false a c × Reaches steps c b

  Lists-cons :
      (forgejo : Bool) (dir child : Text) (entry : Entry) (entries : List Entry)
      → Lists forgejo dir entries child
      → Lists forgejo dir (entry ∷ entries) child
  Lists-cons forgejo dir child entry entries (e, i, a, b, c) = (e, inr i, a, b, c)

  -- What a scan of entries finds, and where it goes on.
  found-Lists :
      (dir child : Text) (entries : List Entry)
      → IsIn child (scan_entries files paths dir entries).0
      → Lists true dir entries child
  unfolding scan_entries
  found-Lists dir child [] i = absurd i
  found-Lists dir child (entry ∷ entries) i = elim (Bool-cases entry.is_directory) [
    | inr file ↦
        Lists-cons true dir child entry entries (found-Lists dir child entries (rw file at i))
    | inl sub ↦ elim (Bool-cases (entry.name == txt ".forgejo")) [
      | inr other ↦
          Lists-cons true dir child entry entries
            (found-Lists dir child entries (rw (sub, other) at i))
      | inl same ↦
          let j : (child ≡ paths.join_path dir entry.name)
              ⊎ IsIn child (scan_entries files paths dir entries).0 =
            rw (sub, same) at i in
          elim j [
            | inl q ↦ (entry, inl refl, sub, same, sym q)
            | inr k ↦ Lists-cons true dir child entry entries (found-Lists dir child entries k)
          ]
    ]
  ]

  next-Lists :
      (dir child : Text) (entries : List Entry)
      → IsIn child (scan_entries files paths dir entries).1
      → Lists false dir entries child
  unfolding scan_entries
  next-Lists dir child [] i = absurd i
  next-Lists dir child (entry ∷ entries) i = elim (Bool-cases entry.is_directory) [
    | inr file ↦
        Lists-cons false dir child entry entries (next-Lists dir child entries (rw file at i))
    | inl sub ↦ elim (Bool-cases (entry.name == txt ".forgejo")) [
      | inl same ↦
          Lists-cons false dir child entry entries
            (next-Lists dir child entries (rw (sub, same) at i))
      | inr other ↦
          let j : (child ≡ paths.join_path dir entry.name)
              ⊎ IsIn child (scan_entries files paths dir entries).1 =
            rw (sub, other) at i in
          elim j [
            | inl q ↦ (entry, inl refl, sub, other, sym q)
            | inr k ↦ Lists-cons false dir child entry entries (next-Lists dir child entries k)
          ]
    ]
  ]

  Lists-found :
      (dir child : Text) (entries : List Entry)
      → Lists true dir entries child
      → IsIn child (scan_entries files paths dir entries).0
  unfolding scan_entries
  Lists-found dir child [] (e, i, a, b, c) = absurd i
  Lists-found dir child (entry ∷ entries) (e, inl q, sub, same, at_path) =
      let sub' : entry.is_directory ≡ true = rw q at sub in
      let same' : (entry.name == txt ".forgejo") ≡ true = rw q at same in
      let at_path' : paths.join_path dir entry.name ≡ child = rw q at at_path in
      rw (sub', same') (inl (sym at_path'))
  Lists-found dir child (entry ∷ entries) (e, inr i, a, b, c) =
      let j = Lists-found dir child entries (e, i, a, b, c) in ground (arith, j)

  Lists-next :
      (dir child : Text) (entries : List Entry)
      → Lists false dir entries child
      → IsIn child (scan_entries files paths dir entries).1
  unfolding scan_entries
  Lists-next dir child [] (e, i, a, b, c) = absurd i
  Lists-next dir child (entry ∷ entries) (e, inl q, sub, other, at_path) =
      let sub' : entry.is_directory ≡ true = rw q at sub in
      let other' : (entry.name == txt ".forgejo") ≡ false = rw q at other in
      let at_path' : paths.join_path dir entry.name ≡ child = rw q at at_path in
      rw (sub', other') (inl (sym at_path'))
  Lists-next dir child (entry ∷ entries) (e, inr i, a, b, c) =
      let j = Lists-next dir child entries (e, i, a, b, c) in ground (arith, j)

  -- Which of the two lists of a scan is meant.
  abbrev pick : Bool → List Text × List Text → List Text
  pick true scanned = scanned.0
  pick false scanned = scanned.1

  scan_entries_iff :
      (forgejo : Bool) (dir child : Text)
      → IsIn child (pick forgejo (scan_entries files paths dir (entries_of files paths dir)))
        ↔ HasChild forgejo dir child
  scan_entries_iff true dir child = (found-Lists dir child _, Lists-found dir child _)
  scan_entries_iff false dir child = (next-Lists dir child _, Lists-next dir child _)

  pick-scan_level :
      (forgejo : Bool) (dir : Text) (level : List Text)
      → pick forgejo (scan_level files paths (dir ∷ level))
        ≡ pick forgejo (scan_entries files paths dir (entries_of files paths dir))
          ++ pick forgejo (scan_level files paths level)
  unfolding scan_level
  pick-scan_level true dir level = refl
  pick-scan_level false dir level = refl

  IsIn-scan_level :
      (forgejo : Bool) (level : List Text) (child : Text)
      → IsIn child (pick forgejo (scan_level files paths level))
      → (dir : Text) × IsIn dir level × HasChild forgejo dir child
  unfolding scan_level
  IsIn-scan_level true [] child i = absurd i
  IsIn-scan_level false [] child i = absurd i
  IsIn-scan_level forgejo (dir ∷ level) child i =
      elim (IsIn-append child _ _ (rw (pick-scan_level forgejo dir level) at i)) [
        | inl l ↦ (dir, inl refl, (scan_entries_iff forgejo dir child).0 l)
        | inr r ↦ let (d, j, h) = IsIn-scan_level forgejo level child r in (d, inr j, h)
      ]

  IsIn-scan_level_intro :
      (forgejo : Bool) (level : List Text) (dir child : Text)
      → IsIn dir level
      → HasChild forgejo dir child
      → IsIn child (pick forgejo (scan_level files paths level))
  IsIn-scan_level_intro forgejo [] dir child i h = absurd i
  IsIn-scan_level_intro forgejo (d ∷ level) dir child (inl q) h =
      rw (pick-scan_level forgejo d level) (
        IsIn-append_left child _ _
          ((scan_entries_iff forgejo d child).1 (subst (λ x. HasChild forgejo x child) q h)))
  IsIn-scan_level_intro forgejo (d ∷ level) dir child (inr i) h =
      rw (pick-scan_level forgejo d level)
        (IsIn-append_right child _ _ (IsIn-scan_level_intro forgejo level dir child i h))

  -- A directory `.forgejo` with this path lies fewer than `depth` steps below `start`.
  abbrev pub IsNear : ℕ → Text → Text → Type 0
  IsNear depth start child =
      (steps : ℕ) × (dir : Text) × (steps < depth)
      × Reaches steps start dir
      × HasChild true dir child

  search-suc :
      (depth : ℕ) (level : List Text)
      → search files paths (suc depth) level
        ≡ (scan_level files paths level).0
          ++ search files paths depth (scan_level files paths level).1
  unfolding search scan_level
  search-suc zero [] = refl
  search-suc (suc depth) [] = refl
  search-suc depth (dir ∷ level) = refl

  search-IsNear :
      (depth : ℕ) (level : List Text) (child : Text)
      → IsIn child (search files paths depth level)
      → (start : Text) × IsIn start level × IsNear depth start child
  unfolding search
  search-IsNear zero level child i = absurd i
  search-IsNear (suc depth) level child i =
      elim (IsIn-append child _ _ (rw (search-suc depth level) at i)) [
        | inl l ↦
            let (dir, j, h) = IsIn-scan_level true level child l in
            (dir, j, (0, dir, omega arith, refl, h))
        | inr r ↦
            let (next, j, (steps, dir, near, way, h)) =
              search-IsNear depth (scan_level files paths level).1 child r in
            let (start, k, first) = IsIn-scan_level false level next j in
            (start, k, (suc steps, dir, omega arith, (next, first, way), h))
      ]

  search_intro :
      (depth : ℕ) (level : List Text) (start child : Text) (steps : ℕ) (dir : Text)
      → IsIn start level
      → steps < depth
      → Reaches steps start dir
      → HasChild true dir child
      → IsIn child (search files paths depth level)
  search_intro zero level start child steps dir i near way h = absurd (omega arith)
  search_intro (suc depth) level start child zero dir i near way h = rw (search-suc depth level) (
      IsIn-append_left child _ _ (
        IsIn-scan_level_intro true level start child i
          (subst (λ x. HasChild true x child) (sym way) h)))
  search_intro (suc depth) level start child (suc steps) dir i near (next, first, way) h =
      rw (search-suc depth level) (
        IsIn-append_right child _ _ (
          search_intro depth (scan_level files paths level).1 next child steps dir
            (IsIn-scan_level_intro false level start next i first) (omega arith) way h))

  -- What `findForgejoDirs` finds are exactly the directories named `.forgejo` whose parent is reached
  -- from the root in fewer than `maxDepth` steps, each into a directory that is not named so.
  pub find_forgejo_dirs_iff :
      (root : Text) (max_depth : ℕ) (child : Text)
      → IsIn child (find_forgejo_dirs files paths root max_depth) ↔ IsNear max_depth root child
  unfolding find_forgejo_dirs
  find_forgejo_dirs_iff root max_depth child = (
    λ i.
        let (start, j, near) = search-IsNear max_depth (root ∷ []) child i in
        elim j [ inl q ↦ subst (λ x. IsNear max_depth x child) q near | inr k ↦ absurd k ],
    λ (steps, dir, near, way, h).
        search_intro max_depth (root ∷ []) root child steps dir (inl refl) near way h,
  )
