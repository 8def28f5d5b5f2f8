-- ===== src/Web/Swipe.antt =====
-- web/src/components/SwipeNav.jsx and web/src/constants/navigation.js: a swipe on a phone goes to the
-- next page of the menu. Coordinates are whole numbers, times are in milliseconds.
pub mod Back
use message_pusher.Base.{
  ℕ, zero, suc, ◌+◌, ◌-◌, ◌*◌, Bool, true, false, not, ◌&&◌, ◌||◌, List, [], ◌∷◌, ◌++◌, map, filter,
  Option, none, some, eqb, ltb, if◌then◌else◌,
}
use message_pusher.Text.{Text, txt, ◌==◌, starts_with}
use message_pusher.Web.Items.{nth}

pub record NavItem : Type 0 where
  pub to : Text
  pub admin : Bool

abbrev pub everyone : Text → NavItem
everyone to = record { to = to; admin = false }

-- NAV_ITEMS
abbrev pub nav_items : List NavItem
nav_items =
    everyone (txt "/")
    ∷ everyone (txt "/message")
    ∷ everyone (txt "/editor")
    ∷ everyone (txt "/channel")
    ∷ everyone (txt "/webhook")
    ∷ record { to = txt "/user"; admin = true }
    ∷ everyone (txt "/setting")
    ∷ everyone (txt "/about")
    ∷ []

-- `items`, as their paths
abbrev pub paths : Bool → List Text
paths is_admin =
    map (λ (item : NavItem). item.to)
      (filter (λ (item : NavItem). not (item.admin && not is_admin)) nav_items)

-- `none` is -1
unfoldable pub exact_nav_index : Text → List Text → Option ℕ
exact_nav_index pathname [] = none
exact_nav_index pathname (to ∷ items) = elim (to == pathname) [
  | true ↦ some 0
  | false ↦ elim (exact_nav_index pathname items) [ none ↦ none | some i ↦ some (suc i) ]
]

-- The entry of the menu that is marked: below a page it is the entry of that page.
unfoldable pub is_nav_item_active : Text → Text → Bool
is_nav_item_active to pathname =
    if to == txt "/"
    then pathname == txt "/"
    else pathname == to || starts_with pathname (to ++ txt "/")

pub record Touch : Type 0 where
  pub x : ℕ
  pub y : ℕ
  pub time : ℕ

-- `Math.abs(a - b)`
abbrev pub distance : ℕ → ℕ → ℕ
distance a b = (a - b) + (b - a)

-- The touch is long and level enough, and fast enough.
unfoldable pub is_swipe : Touch → Touch → Bool
is_swipe start end = not (
    ltb 800 (end.time - start.time)
    || ltb (distance end.x start.x) 60
    || ltb (2 * distance end.x start.x) (3 * distance end.y start.y))

-- `nextIndex`, if it is not below 0
unfoldable pub next_index : Bool → ℕ → Option ℕ
next_index to_left i = if to_left then some (suc i) else elim i [ zero ↦ none | suc j ↦ some j ]

abbrev pub path_at : List Text → Option ℕ → Option Text
path_at items none = none
path_at items (some i) = nth i items

unfoldable pub page_from : List Text → Bool → Option ℕ → Option Text
page_from items to_left none = none
page_from items to_left (some active) = path_at items (next_index to_left active)

-- `handleTouchEnd`: where it goes from a page, for a touch that has started there, when so many fingers
-- are lifted.
unfoldable pub swiped : Bool → Text → ℕ → Touch → Touch → Option Text
swiped is_admin pathname changed start end =
    let items = paths is_admin in
    if not (eqb changed 1)
    then none
    else if is_swipe start end
    then page_from items (ltb end.x start.x) (exact_nav_index pathname items)
    else none

-- `startRef.current` after the start of a touch with so many fingers, on something that takes it or not.
unfoldable pub touch_start : Option ℕ → ℕ → Bool → Touch → Option Touch
touch_start none touches ignored touch = none
touch_start (some active) touches ignored touch =
    if not (eqb touches 1) then none else if ignored then none else some touch
