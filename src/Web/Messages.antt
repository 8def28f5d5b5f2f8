-- ===== src/Web/Messages.antt =====
-- web/src/components/MessagesTable.jsx: the list of messages, its requests and their answers. A
-- handler that awaits an answer is cut there: what is to follow waits in `pending`, and answers come
-- in any order. What is only shown for a moment (notifications) is left out.
pub mod Unique
pub mod Cancel
pub mod Numbers
pub mod Latest
use message_pusher.Base.{
  ℕ, zero, suc, ◌+◌, ◌-◌, Bool, true, false, not, List, [], ◌∷◌, ◌++◌, map, Option, none, some,
  filter, any, length, is_empty, eqb, if◌then◌else◌,
}
use message_pusher.Text.{Text, trim}
use message_pusher.Web.Paging.{Row, wants_more, sorted_by}

-- What follows `await loadMessages(…)` in its caller.
pub data After : Type 0 where
  nothing : After
  -- `setActivePage(page)`
  to_page : (page : ℕ) → After
  -- `setLoading(false)` of `deleteMessage`
  stop_loading : After

-- A request that has no answer yet.
pub data Waiting : Type 0 where
  load : (seq start : ℕ) (after : After) → Waiting
  found seen resent : Waiting
  removed : (id : ℕ) → Waiting

-- `viewed` is the message of the last view; before the first one the page has a placeholder.
pub record Table : Type 0 where
  pub rows : List Row
  pub loading : Bool
  -- `loadSeq.current`
  pub seq : ℕ
  pub page : ℕ
  pub keyword : Text
  pub searching : Bool
  pub viewed : Option Row
  pub modal : Bool
  pub pending : List Waiting

-- `res.data`: `row` is the data of a single message.
pub record Answer : Type 0 where
  pub success : Bool
  pub rows : List Row
  pub row : Option Row

-- The first half of `loadMessages`.
abbrev pub send_load : ℕ → After → Table → Table
send_load start after t = record t {
  seq = suc t.seq;
  loading = true;
  pending = load (suc t.seq) start after ∷ t.pending;
}

abbrev pub send : Waiting → Table → Table
send w t = record t { loading = true; pending = w ∷ t.pending }

abbrev pub has_id : ℕ → List Row → Bool
has_id id = any (λ (row : Row). eqb row.id id)

-- The rows after a page that was loaded.
abbrev pub append_new : List Row → List Row → List Row
append_new rows data_ = rows ++ filter (λ (row : Row). not (has_id row.id rows)) data_

-- The second half of `loadMessages`.
unfoldable pub land : ℕ → ℕ → Answer → Table → Table
land seq start a t =
    let shown = if eqb start 0 then a.rows else append_new t.rows a.rows in
    if not (eqb seq t.seq)
    then t
    else record t { loading = false; rows = if a.success then shown else t.rows }

abbrev pub finish : After → Table → Table
finish nothing t = t
finish (to_page page) t = record t { page = page }
finish stop_loading t = record t { loading = false }

abbrev pub without : ℕ → List Row → List Row
without id = filter (λ (row : Row). not (eqb row.id id))

-- What follows the answer to a request.
unfoldable pub answered : Waiting → Answer → Table → Table
answered (load seq start after) a t = finish after (land seq start a t)
answered found a t =
    if a.success
    then record t { searching = false; rows = a.rows; page = 1 }
    else record t { searching = false }
answered seen a t =
    if a.success
    then record t { loading = false; viewed = a.row; modal = true }
    else record t { loading = false }
answered resent a t = record t { loading = false }
answered (removed id) a t =
    if a.success
    then send_load 0 stop_loading (record t { rows = without id t.rows })
    else record t { loading = false }

-- `next[idx] = message` at the first row with its id
unfoldable pub replace_row : Row → List Row → List Row
replace_row message [] = []
replace_row message (row ∷ rows) =
    let rest = replace_row message rows in
    if eqb row.id message.id then message ∷ rows else row ∷ rest

-- `insertNewMessage`: the list.
unfoldable pub insert_new : Row → List Row → List Row
insert_new message rows =
    if has_id message.id rows then replace_row message rows else message ∷ rows

pub data Event : Type 0 where
  pick_page : (page : ℕ) → Event
  type_keyword : (typed : Text) → Event
  search refresh : Event
  sort : (key : Text) → Event
  view resend remove : (id : ℕ) → Event
  close : Event
  -- A message from the stream, and an answer to one of the requests. A request that failed is answered
  -- without success, by the interceptor of web/src/helpers/api.js.
  pushed : (message : Row) → Event
  answer : (at : ℕ) (a : Answer) → Event

-- The element at a place, and the others.
unfoldable pub take_out : {A : Type 0} → ℕ → List A → Option (A × List A)
take_out at [] = none
take_out zero (w ∷ ws) = some (w, ws)
take_out (suc at) (w ∷ ws) = elim (take_out at ws) [ none ↦ none | some (v, vs) ↦ some (v, w ∷ vs) ]

module _ (le : Text → Text → Bool) where
  unfoldable pub step : Table → Event → Table
  step t (pick_page page) =
      if wants_more (length t.rows) page
      then send_load (page - 1) (to_page page) t
      else record t { page = page }
  step t (type_keyword typed) = record t { keyword = trim typed }
  step t search =
      if is_empty t.keyword
      then send_load 0 (to_page 1) t
      else record t { searching = true; pending = found ∷ t.pending }
  step t refresh = send_load 0 (to_page 1) t
  step t (sort key) =
      if is_empty t.rows then t else record t { rows = sorted_by le key t.rows; loading = false }
  step t (view id) = send seen t
  step t (resend id) = send resent t
  step t (remove id) = send (removed id) t
  step t close = record t { modal = false }
  step t (pushed message) = record t { rows = insert_new message t.rows; page = 1 }
  step t (answer at a) = elim (take_out at t.pending) [
    | none ↦ t
    | some (w, rest) ↦ answered w a (record t { pending = rest })
  ]

  unfoldable pub run : Table → List Event → Table
  run t [] = t
  run t (e ∷ events) = run (step t e) events

-- The table once it is mounted: `loadMessages(0)` is on its way.
abbrev pub mounted : Table
mounted = record {
  rows = [];
  loading = true;
  seq = 1;
  page = 1;
  keyword = [];
  searching = false;
  viewed = none;
  modal = false;
  pending = load 1 0 nothing ∷ [];
}
