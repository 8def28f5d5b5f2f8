-- ===== src/Web/Swipe/Back.antt =====
-- Swiping back on the menu of web/src/constants/navigation.js.
use message_pusher.Base.{
  ℕ, zero, suc, ◌≡◌, refl, sym, ap, subst, ◌∙◌, Bool, true, false, not, List, [], ◌∷◌, Option, none,
  some, ltb, eqb, arith, inl, inr, Bool-cases, Option-cases, if_true, if◌then◌else◌,
}
use message_pusher.Text.{Text, ◌==◌, includes}
use message_pusher.Text.Laws.{==_iff}
use message_pusher.Web.Items.{nth}
use message_pusher.Web.Swipe.{
  paths, exact_nav_index, Touch, distance, is_swipe, next_index, path_at, page_from, swiped,
}

-- No path is listed twice.
abbrev AreApart : List Text → Type 0
AreApart [] = Unit
AreApart (path ∷ items) = (includes items path ≡ false) × AreApart items

paths-AreApart : (is_admin : Bool) → AreApart (paths is_admin)
unfolding includes ◌==◌
paths-AreApart true = (refl, (refl, (refl, (refl, (refl, (refl, (refl, (refl, tt))))))))
paths-AreApart false = (refl, (refl, (refl, (refl, (refl, (refl, (refl, tt)))))))

some_inj : {A : Type 0} (d x y : A) → some x ≡ some y → x ≡ y
some_inj d x y e = ap (λ o. elim o [ none ↦ d | some a ↦ a ]) e

includes-nth :
    (j : ℕ) (items : List Text) (q : Text) → nth j items ≡ some q → includes items q ≡ true
unfolding nth includes
includes-nth j [] q h = let wrong : none ≡ some q = h in cc wrong
includes-nth zero (p ∷ items) q h =
    let same : p ≡ q = some_inj p p q h in
    let here : p == q ≡ true = (==_iff p q).1 same in rw here refl
includes-nth (suc j) (p ∷ items) q h =
    let rest = includes-nth j items q h in
    elim (Bool-cases (p == q)) [ inl here ↦ rw here refl | inr other ↦ rw other rest ]

-- The index of a path that is listed, and the path of an index.
exact_nav_index-nth :
    (j : ℕ) (items : List Text) (q : Text)
    → AreApart items
    → nth j items ≡ some q
    → exact_nav_index q items ≡ some j
unfolding nth exact_nav_index
exact_nav_index-nth j [] q apart h = let wrong : none ≡ some q = h in cc wrong
exact_nav_index-nth zero (p ∷ items) q (new, apart) h =
    let same : p ≡ q = some_inj p p q h in
    let here : p == q ≡ true = (==_iff p q).1 same in rw (exact_nav_index, here) refl
exact_nav_index-nth (suc j) (p ∷ items) q (new, apart) h = elim (Bool-cases (p == q)) [
  | inl here ↦
      let same : p ≡ q = (==_iff p q).0 here in
      let listed : includes items p ≡ true =
        subst (λ t. includes items t ≡ true) (sym same) (includes-nth j items q h) in
      let wrong : true ≡ false = sym listed ∙ new in cc wrong
  | inr other ↦ rw (exact_nav_index, other, exact_nav_index-nth j items q apart h) refl
]

abbrev IsAt : List Text → Text → Option ℕ → Type 0
IsAt items path none = Unit
IsAt items path (some i) = nth i items ≡ some path

exact_nav_index-IsAt :
    (items : List Text) (path : Text) → IsAt items path (exact_nav_index path items)
unfolding nth exact_nav_index
exact_nav_index-IsAt [] path = tt
exact_nav_index-IsAt (p ∷ items) path = elim (Bool-cases (p == path)) [
  | inl here ↦ rw (exact_nav_index, here) (ap some ((==_iff p path).0 here))
  | inr other ↦
      let rest = exact_nav_index-IsAt items path in
      elim (Option-cases (exact_nav_index path items)) [
        | inl missing ↦ rw (exact_nav_index, other, missing) tt
        | inr (i, there) ↦
            let found : nth i items ≡ some path = rw there at rest in
            rw (exact_nav_index, other, there) found
      ]
]

-- The way there and back from the place of a page.
back_at :
    (items : List Text) (path target : Text) (to_left : Bool) (active : ℕ)
    → AreApart items
    → nth active items ≡ some path
    → path_at items (next_index to_left active) ≡ some target
    → page_from items (not to_left) (exact_nav_index target items) ≡ some path
unfolding next_index page_from
back_at items path target true active apart here h =
    rw (exact_nav_index-nth (suc active) items target apart h) here
back_at items path target false zero apart here h = let wrong : none ≡ some target = h in cc wrong
back_at items path target false (suc active) apart here h =
    rw (exact_nav_index-nth active items target apart h) here

page_from-back :
    (items : List Text) (path target : Text) (to_left : Bool)
    → AreApart items
    → page_from items to_left (exact_nav_index path items) ≡ some target
    → page_from items (not to_left) (exact_nav_index target items) ≡ some path
unfolding page_from
page_from-back items path target to_left apart h =
    elim (Option-cases (exact_nav_index path items)) [
      | inl out ↦ let wrong : none ≡ some target = rw (page_from, out) at h in cc wrong
      | inr (active, there) ↦
          let here : nth active items ≡ some path =
            subst (IsAt items path) there (exact_nav_index-IsAt items path) in
          let gone : path_at items (next_index to_left active) ≡ some target =
            rw (page_from, there) at h in
          back_at items path target to_left active apart here gone
    ]

-- The same touch the other way round.
abbrev pub mirrored : Touch → Touch → Touch
mirrored start end = record start { x = end.x }

distance_comm : (a b : ℕ) → distance a b ≡ distance b a
distance_comm a b = omega arith

is_swipe-mirrored :
    (start end : Touch) → is_swipe (mirrored start end) (mirrored end start) ≡ is_swipe start end
unfolding is_swipe
is_swipe-mirrored start end = rw (distance_comm start.x end.x) refl

other_way :
    (start end : Touch) → is_swipe start end ≡ true → ltb start.x end.x ≡ not (ltb end.x start.x)
unfolding is_swipe
other_way start end h = ground arith

page_from-listed :
    (items : List Text) (to_left : Bool) (target path : Text)
    → page_from items to_left (exact_nav_index target items) ≡ some path
    → includes items target ≡ true
unfolding page_from
page_from-listed items to_left target path h = elim (Option-cases (exact_nav_index target items)) [
  | inl out ↦ let wrong : none ≡ some path = rw (page_from, out) at h in cc wrong
  | inr (i, there) ↦
      includes-nth i items target
        (subst (IsAt items target) there (exact_nav_index-IsAt items target))
]

-- `swiped` on any menu.
abbrev swiped_on : List Text → Text → Touch → Touch → Option Text
swiped_on items path start end =
    if is_swipe start end
    then page_from items (ltb end.x start.x) (exact_nav_index path items)
    else none

swiped_on-mirrored :
    (items : List Text) (path target : Text) (start end : Touch)
    → AreApart items
    → swiped_on items path start end ≡ some target
    → (swiped_on items target (mirrored start end) (mirrored end start) ≡ some path)
      × (includes items target ≡ true)
swiped_on-mirrored items path target start end apart h = elim (Bool-cases (is_swipe start end)) [
  | inr slow ↦ let wrong : none ≡ some target = rw slow at h in cc wrong
  | inl fast ↦
      let gone : page_from items (ltb end.x start.x) (exact_nav_index path items) ≡ some target =
        rw fast at h in
      let back = page_from-back items path target (ltb end.x start.x) apart gone in
      let turned : page_from items (ltb start.x end.x) (exact_nav_index target items) ≡ some path =
        subst (λ b. page_from items b (exact_nav_index target items) ≡ some path)
          (sym (other_way start end fast)) back in
      let as_fast : is_swipe (mirrored start end) (mirrored end start) ≡ true =
        is_swipe-mirrored start end ∙ fast in
      (
        if_true (page_from items (ltb start.x end.x) (exact_nav_index target items)) none
              (is_swipe (mirrored start end) (mirrored end start)) as_fast
            ∙ turned,
        page_from-listed items (not (ltb end.x start.x)) target path back,
      )
]

-- A swipe that goes to another page, done the other way round on that page, goes back to the page
-- where it began. A page that a swipe goes to is one of the menu of this user.
pub swiped-mirrored :
    (is_admin : Bool) (path target : Text) (changed : ℕ) (start end : Touch)
    → swiped is_admin path changed start end ≡ some target
    → (swiped is_admin target changed (mirrored start end) (mirrored end start) ≡ some path)
      × (includes (paths is_admin) target ≡ true)
unfolding swiped
swiped-mirrored is_admin path target changed start end h = elim (Bool-cases (eqb changed 1)) [
  | inr several ↦ let wrong : none ≡ some target = rw several at h in cc wrong
  | inl one ↦
      let h1 : swiped_on (paths is_admin) path start end ≡ some target = rw one at h in
      rw one
        (swiped_on-mirrored (paths is_admin) path target start end (paths-AreApart is_admin) h1)
]
