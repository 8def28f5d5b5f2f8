-- ===== src/Web/Items.antt =====
-- web/src/components/ChannelsTable.jsx, WebhooksTable.jsx and UsersTable.jsx: tables whose handlers keep
-- the array of their render while they await an answer, and then change that array and its objects.
-- Objects and arrays have an address: their place in `items` and in `lists`.
pub mod Writes
pub mod Found
use message_pusher.Base.{
  ℕ, zero, suc, ◌+◌, ◌-◌, Bool, true, false, not, List, [], ◌∷◌, ◌++◌, Option, none, some, any,
  length, is_empty, eqb, if◌then◌else◌,
}
use message_pusher.Text.{Text, txt, trim, includes}
use message_pusher.Web.Paging.{wants_more}
use message_pusher.Web.Messages.{take_out}

pub record Item : Type 0 where
  pub id : ℕ
  pub field : Text → Text
  pub deleted : Bool

-- Reading and writing at an address.
module _ {A : Type 0} where
  unfoldable pub nth : ℕ → List A → Option A
  nth k [] = none
  nth zero (x ∷ xs) = some x
  nth (suc k) (x ∷ xs) = nth k xs

  unfoldable pub put : ℕ → A → List A → List A
  put k y [] = []
  put zero y (x ∷ xs) = y ∷ xs
  put (suc k) y (x ∷ xs) = x ∷ put k y xs

abbrev pub or_no_items : Option (List ℕ) → List ℕ
or_no_items none = []
or_no_items (some refs) = refs

unfoldable pub list_at : ℕ → List (List ℕ) → List ℕ
list_at list lists = or_no_items (nth list lists)

-- The addresses of objects that are stored from a place on.
abbrev pub refs_from : ℕ → List Item → List ℕ
refs_from n [] = []
refs_from n (item ∷ items) = n ∷ refs_from (suc n) items

abbrev pub is_item : ℕ → Option Item → Bool
is_item id none = false
is_item id (some item) = eqb item.id id

unfoldable pub has_item : ℕ → List Item → ℕ → Bool
has_item id items ref = is_item id (nth ref items)

-- `list.findIndex((item) => item.id === id)`, and the object there; `none` is -1
unfoldable pub find_ref : ℕ → List Item → List ℕ → Option ℕ
find_ref id items [] = none
find_ref id items (ref ∷ refs) =
    let rest = find_ref id items refs in if has_item id items ref then some ref else rest

-- `manageChannel` and `manageWebhook` look for an id, `manageUser` has the object.
pub data Target : Type 0 where
  the_id : (id : ℕ) → Target
  the_object : (ref : ℕ) → Target

-- What an answer is awaited for, with the array of the render: `setActivePage` may follow a load.
pub data Waiting : Type 0 where
  loads : (start list : ℕ) (after : Option ℕ) → Waiting
  manages : (target : Target) (is_delete : Bool) (list : ℕ) → Waiting
  searches : Waiting

pub record Table : Type 0 where
  pub items : List Item
  pub lists : List (List ℕ)
  -- The array that is shown.
  pub rows : ℕ
  pub loading : Bool
  pub page : ℕ
  pub keyword : Text
  pub searching : Bool
  pub pending : List Waiting

pub record Answer : Type 0 where
  pub success : Bool
  pub items : List Item
  pub item : Item

abbrev pub then_page : Option ℕ → Table → Table
then_page none t = t
then_page (some page) t = record t { page = page }

-- A new array is shown.
abbrev pub show_list : List ℕ → Table → Table
show_list refs t = record t { lists = t.lists ++ (refs ∷ []); rows = length t.lists }

-- `loadChannels`: after the answer.
unfoldable pub land : ℕ → ℕ → Answer → Table → Table
land start list a t =
    let refs = refs_from (length t.items) a.items in
    let stored = record t { items = t.items ++ a.items; loading = false } in
    if a.success
    then if eqb start 0
      then show_list refs stored
      else record stored { lists = put list (list_at list t.lists ++ refs) t.lists; rows = list }
    else record t { loading = false }

-- `searchChannels`: after the answer.
unfoldable pub land_search : Answer → Table → Table
land_search a t =
    if a.success
    then show_list (refs_from (length t.items) a.items)
        (record t { items = t.items ++ a.items; page = 1; searching = false })
    else record t { searching = false }

-- The fields that an answer to an action sets: `status` alone, but more of them for a user.
abbrev pub item_keys : List Text
item_keys = txt "status" ∷ []

abbrev pub user_keys : List Text
user_keys =
    txt "status" ∷ txt "role" ∷ txt "send_email_to_others" ∷ txt "save_message_to_database" ∷ []

abbrev pub keys_of : Target → List Text
keys_of (the_id id) = item_keys
keys_of (the_object ref) = user_keys

unfoldable pub changed : List Text → Bool → Item → Item → Item
changed keys is_delete new item =
    if is_delete
    then record item { deleted = true }
    else record item { field = λ key. if includes keys key then new.field key else item.field key }

abbrev pub change_at : ℕ → (Item → Item) → List Item → List Item
change_at ref f items = elim (nth ref items) [ none ↦ items | some item ↦ put ref (f item) items ]

unfoldable pub ref_of : Target → List Item → List ℕ → Option ℕ
ref_of (the_id id) items refs = find_ref id items refs
ref_of (the_object ref) items refs = some ref

-- `manageChannel`, `manageUser`: after the answer. Where the id is not found, an exception ends it.
unfoldable pub land_action : Target → Bool → ℕ → Answer → Table → Table
land_action target is_delete list a t =
    if a.success
    then elim (ref_of target t.items (list_at list t.lists)) [
      | none ↦ t
      | some ref ↦
          show_list (list_at list t.lists)
            (record t { items = change_at ref (changed (keys_of target) is_delete a.item) t.items })
    ]
    else t

unfoldable pub answered : Waiting → Answer → Table → Table
answered (loads start list after) a t = then_page after (land start list a t)
answered (manages target is_delete list) a t = land_action target is_delete list a t
answered searches a t = land_search a t

pub data Event : Type 0 where
  pick_page : (page : ℕ) → Event
  type_keyword : (typed : Text) → Event
  search : Event
  sort : (key : Text) → Event
  -- A button or a switch of a row.
  act : (target : Target) (is_delete : Bool) → Event
  answer : (at : ℕ) (a : Answer) → Event

-- The row is there to be clicked.
abbrev pub is_row : Target → Table → Bool
is_row (the_id id) t = any (has_item id t.items) (list_at t.rows t.lists)
is_row (the_object ref) t = any (eqb ref) (list_at t.rows t.lists)

abbrev pub wait_for : Waiting → Table → Table
wait_for w t = record t { pending = w ∷ t.pending }

-- What `'' + item[key]` is.
abbrev pub field_of : Text → Option Item → Text
field_of key none = []
field_of key (some item) = item.field key

-- `list.sort(…)` on an array of objects, where `before` compares two addresses.
module _ (before : ℕ → ℕ → Bool) where
  unfoldable pub insert_ref : ℕ → List ℕ → List ℕ
  insert_ref ref [] = ref ∷ []
  insert_ref ref (r ∷ refs) =
      let rest = insert_ref ref refs in if before ref r then ref ∷ r ∷ refs else r ∷ rest

  unfoldable pub sort_refs : List ℕ → List ℕ
  sort_refs [] = []
  sort_refs (ref ∷ refs) = insert_ref ref (sort_refs refs)

unfoldable pub reverse_refs : List ℕ → List ℕ
reverse_refs [] = []
reverse_refs (ref ∷ refs) = reverse_refs refs ++ (ref ∷ [])

abbrev pub same_id : Option Item → Option Item → Bool
same_id (some a) (some b) = eqb a.id b.id
same_id _ _ = false

abbrev pub same_first : List Item → List ℕ → List ℕ → Bool
same_first items (r ∷ _) (q ∷ _) = same_id (nth r items) (nth q items)
same_first items _ _ = false

-- `sortChannel(key)`: the array that is set; `le` is `a.localeCompare(b) <= 0`.
unfoldable pub sorted_refs : (Text → Text → Bool) → Text → List Item → List ℕ → List ℕ
sorted_refs le key items refs =
    let before = λ (a b : ℕ). le (field_of key (nth a items)) (field_of key (nth b items)) in
    let sorted = sort_refs before refs in
    if same_first items sorted refs then reverse_refs sorted else sorted

module _ (le : Text → Text → Bool) where
  unfoldable pub step : Table → Event → Table
  step t (pick_page page) =
      if wants_more (length (list_at t.rows t.lists)) page
      then wait_for (loads (page - 1) t.rows (some page)) t
      else record t { page = page }
  step t (type_keyword typed) = record t { keyword = trim typed }
  step t search =
      if is_empty t.keyword
      then wait_for (loads 0 t.rows (some 1)) t
      else wait_for searches (record t { searching = true })
  step t (sort key) =
      let refs = list_at t.rows t.lists in
      if is_empty refs
      then t
      else show_list (sorted_refs le key t.items refs) (record t { loading = false })
  step t (act target is_delete) =
      if is_row target t then wait_for (manages target is_delete t.rows) t else t
  step t (answer at a) = elim (take_out at t.pending) [
    | none ↦ t
    | some (w, rest) ↦ answered w a (record t { pending = rest })
  ]

  unfoldable pub run : Table → List Event → Table
  run t [] = t
  run t (event ∷ events) = run (step t event) events

-- The table once it is mounted: an empty array is shown, and the first page is on its way.
abbrev pub mounted : Table
mounted = record {
  items = [];
  lists = [] ∷ [];
  rows = 0;
  loading = true;
  page = 1;
  keyword = [];
  searching = false;
  pending = loads 0 0 none ∷ [];
}
