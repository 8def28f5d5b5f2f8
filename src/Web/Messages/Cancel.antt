-- ===== src/Web/Messages/Cancel.antt =====
-- A message table that cancels: a new load voids the loads that have no answer, so that no request
-- needs a number. It is what MessagesTable.jsx promises with `loadSeq`.
use message_pusher.Base.{
  ℕ, ◌-◌, Bool, true, false, List, [], ◌∷◌, map, Option, none, some, is_empty, length, eqb,
  if◌then◌else◌,
}
use message_pusher.Text.{Text, trim}
use message_pusher.Web.Paging.{Row, wants_more, sorted_by}
use message_pusher.Web.Messages.{
  After, nothing, to_page, stop_loading, Answer, append_new, without, insert_new, Event, pick_page,
  type_keyword, search, refresh, sort, view, resend, remove, close, pushed, answer, take_out,
}

-- A request without an answer: `live` is the load that counts, `void` a load that was cancelled.
pub data Ask : Type 0 where
  live : (start : ℕ) (after : After) → Ask
  void : (after : After) → Ask
  for_search for_row for_resend : Ask
  for_removal : (id : ℕ) → Ask

pub record Screen : Type 0 where
  pub rows : List Row
  pub loading : Bool
  pub page : ℕ
  pub keyword : Text
  pub searching : Bool
  pub viewed : Option Row
  pub modal : Bool
  pub asks : List Ask

abbrev pub cancel : Ask → Ask
cancel (live start after) = void after
cancel ask = ask

abbrev pub ask_load : ℕ → After → Screen → Screen
ask_load start after v = record v { loading = true; asks = live start after ∷ map cancel v.asks }

abbrev pub ask_for : Ask → Screen → Screen
ask_for ask v = record v { loading = true; asks = ask ∷ v.asks }

abbrev pub then_do : After → Screen → Screen
then_do nothing v = v
then_do (to_page page) v = record v { page = page }
then_do stop_loading v = record v { loading = false }

-- A page that was loaded: the first one replaces the rows.
abbrev pub joined : ℕ → Answer → List Row → List Row
joined start a rows =
    let shown = if eqb start 0 then a.rows else append_new rows a.rows in
    if a.success then shown else rows

unfoldable pub told : Ask → Answer → Screen → Screen
told (live start after) a v =
    then_do after (record v { loading = false; rows = joined start a v.rows })
told (void after) a v = then_do after v
told for_search a v =
    if a.success
    then record v { searching = false; rows = a.rows; page = 1 }
    else record v { searching = false }
told for_row a v =
    if a.success
    then record v { loading = false; viewed = a.row; modal = true }
    else record v { loading = false }
told for_resend a v = record v { loading = false }
told (for_removal id) a v =
    if a.success
    then ask_load 0 stop_loading (record v { rows = without id v.rows })
    else record v { loading = false }

module _ (le : Text → Text → Bool) where
  unfoldable pub turn : Screen → Event → Screen
  turn v (pick_page page) =
      if wants_more (length v.rows) page
      then ask_load (page - 1) (to_page page) v
      else record v { page = page }
  turn v (type_keyword typed) = record v { keyword = trim typed }
  turn v search =
      if is_empty v.keyword
      then ask_load 0 (to_page 1) v
      else record v { searching = true; asks = for_search ∷ v.asks }
  turn v refresh = ask_load 0 (to_page 1) v
  turn v (sort key) =
      if is_empty v.rows then v else record v { rows = sorted_by le key v.rows; loading = false }
  turn v (view id) = ask_for for_row v
  turn v (resend id) = ask_for for_resend v
  turn v (remove id) = ask_for (for_removal id) v
  turn v close = record v { modal = false }
  turn v (pushed message) = record v { rows = insert_new message v.rows; page = 1 }
  turn v (answer at a) = elim (take_out at v.asks) [
    | none ↦ v
    | some (ask, rest) ↦ told ask a (record v { asks = rest })
  ]

  unfoldable pub turns : Screen → List Event → Screen
  turns v [] = v
  turns v (e ∷ events) = turns (turn v e) events
