-- ===== src/Web/Paging.antt =====
-- What the tables of web/src/components share: MessagesTable, UsersTable, ChannelsTable and
-- WebhooksTable show a list in pages, and sort it by a column.
pub mod Pages
pub mod Distinct
use message_pusher.Base.{
  ℕ, zero, suc, ◌+◌, ◌-◌, ◌*◌, ◌/◌, ◌%◌, Bool, true, false, not, List, [], ◌∷◌, ◌++◌, filter, take,
  drop, length, eqb, if◌then◌else◌,
}
use message_pusher.Text.{Text}

-- ITEMS_PER_PAGE of web/src/constants/common.constant.js
abbrev pub items_per_page : ℕ
items_per_page = 10

-- `Math.ceil(rows.length / ITEMS_PER_PAGE)`
abbrev pub full_pages : ℕ → ℕ
full_pages count = (count + 9) / items_per_page

-- `totalPages`: there is always a page that is not full, to go to for more.
unfoldable pub total_pages : ℕ → ℕ
total_pages count = full_pages count + (if eqb (count % items_per_page) 0 then 1 else 0)

-- `page === Math.ceil(rows.length / ITEMS_PER_PAGE) + 1`
unfoldable pub wants_more : ℕ → ℕ → Bool
wants_more count page = eqb page (full_pages count + 1)

-- A row of a table: its `id`, what `'' + row[key]` is for a key, and `deleted`.
pub record Row : Type 0 where
  pub id : ℕ
  pub field : Text → Text
  pub deleted : Bool

abbrev pub is_shown : Row → Bool
is_shown row = not row.deleted

-- `rows.slice(start, end)`
abbrev pub slice : ℕ → ℕ → List Row → List Row
slice start end rows = take (end - start) (drop start rows)

-- `rows.slice((activePage - 1) * ITEMS_PER_PAGE, activePage * ITEMS_PER_PAGE).filter(…)`
unfoldable pub paged : ℕ → List Row → List Row
paged page rows = filter is_shown (slice ((page - 1) * items_per_page) (page * items_per_page) rows)

-- `list.reverse()`
unfoldable pub reverse : List Row → List Row
reverse [] = []
reverse (row ∷ rows) = reverse rows ++ (row ∷ [])

-- `le` is `a.localeCompare(b) <= 0`.
module _ (le : Text → Text → Bool) (key : Text) where
  -- `list.sort((a, b) => ('' + a[key]).localeCompare(b[key]))`, which keeps the order of equal ones.
  unfoldable pub insert_row : Row → List Row → List Row
  insert_row row [] = row ∷ []
  insert_row row (r ∷ rows) =
      let rest = insert_row row rows in
      if le (row.field key) (r.field key) then row ∷ r ∷ rows else r ∷ rest

  unfoldable pub sort_rows : List Row → List Row
  sort_rows [] = []
  sort_rows (row ∷ rows) = insert_row row (sort_rows rows)

-- `sorted[0].id === rows[0].id`
abbrev pub same_head : List Row → List Row → Bool
same_head (a ∷ _) (b ∷ _) = eqb a.id b.id
same_head _ _ = false

-- `sortMessage(key)`, `sortUser(key)` and the like: the list that is set.
unfoldable pub sorted_by : (Text → Text → Bool) → Text → List Row → List Row
sorted_by le key rows =
    let sorted = sort_rows le key rows in if same_head sorted rows then reverse sorted else sorted
