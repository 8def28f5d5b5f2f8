-- ===== src/Web/Items/Found.antt =====
-- An action on a row of web/src/components/ChannelsTable.jsx and WebhooksTable.jsx finds its row.
use message_pusher.Base.{
  ℕ, ◌≡◌, refl, ◌∙◌, Bool, true, false, List, [], ◌∷◌, ◌++◌, Option, none, some, length, is_empty,
  eqb, All, inl, inr, Bool-cases, Option-cases,
}
use message_pusher.Text.{Text}
use message_pusher.Web.Paging.{wants_more}
use message_pusher.Web.Messages.{take_out}
use message_pusher.Web.Messages.Numbers.{take_out-All}
use message_pusher.Web.Items.{
  Item, list_at, refs_from, has_item, find_ref, Target, the_id, the_object, Waiting, loads, manages,
  searches, Table, Answer, then_page, land, land_search, keys_of, changed, change_at, ref_of,
  land_action, answered, Event, pick_page, type_keyword, search, sort, sorted_refs, act, answer,
  is_row, step, run, mounted,
}
use message_pusher.Web.Items.Writes.{
  HasRow, has_item-append, change_at-has_item, any_mono, list_at-append, list_at-put,
}

-- Whatever has been changed: every array still has the rows that it had.
abbrev Keeps : List Item → List (List ℕ) → List Item → List (List ℕ) → Type 0
Keeps items lists more_items more_lists =
    (id list : ℕ)
    → HasRow id items (list_at list lists)
    → HasRow id more_items (list_at list more_lists)

-- The objects of a table that are new, and its arrays, keep its rows.
Keeps-items :
    (items more : List Item) (lists : List (List ℕ)) → Keeps items lists (items ++ more) lists
Keeps-items items more lists id list h =
    any_mono (has_item id items) (has_item id (items ++ more)) (list_at list lists)
      (λ ref. has_item-append id ref items more) h

land-Keeps :
    (start list : ℕ) (a : Answer) (t : Table)
    → Keeps t.items t.lists (land start list a t).items (land start list a t).lists
unfolding land
land-Keeps start list a t id l h =
    let kept = Keeps-items t.items a.items t.lists id l h in
    let refs = refs_from (length t.items) a.items in
    let has = has_item id (t.items ++ a.items) in
    elim (Bool-cases a.success) [
      | inr refused ↦ rw (land, refused) h
      | inl good ↦ elim (Bool-cases (eqb start 0)) [
        | inl first ↦ rw (land, good, first) (list_at-append has l t.lists (refs ∷ []) kept)
        | inr more ↦ rw (land, good, more) (list_at-put has l list t.lists refs kept)
      ]
    ]

land_search-Keeps :
    (a : Answer) (t : Table) → Keeps t.items t.lists (land_search a t).items (land_search a t).lists
unfolding land_search
land_search-Keeps a t id l h =
    let kept = Keeps-items t.items a.items t.lists id l h in
    let refs = refs_from (length t.items) a.items in
    elim (Bool-cases a.success) [
      | inr refused ↦ rw (land_search, refused) h
      | inl good ↦
          rw (land_search, good)
            (list_at-append (has_item id (t.items ++ a.items)) l t.lists (refs ∷ []) kept)
    ]

land_action-Keeps :
    (target : Target) (is_delete : Bool) (list : ℕ) (a : Answer) (t : Table)
    → Keeps t.items t.lists
        (land_action target is_delete list a t).items
        (land_action target is_delete list a t).lists
unfolding land_action
land_action-Keeps target is_delete list a t id l h = elim (Bool-cases a.success) [
  | inr refused ↦ rw (land_action, refused) h
  | inl good ↦ elim (Option-cases (ref_of target t.items (list_at list t.lists))) [
    | inl lost ↦ rw (land_action, good, lost) h
    | inr (ref, there) ↦
        let after = change_at ref (changed (keys_of target) is_delete a.item) t.items in
        let kept =
          any_mono (has_item id t.items) (has_item id after) (list_at l t.lists)
            (λ r e. change_at-has_item id ref r (keys_of target) is_delete a.item t.items ∙ e) h in
        rw (land_action, good, there)
          (list_at-append (has_item id after) l t.lists (list_at list t.lists ∷ []) kept)
  ]
]

then_page-same :
    (after : Option ℕ) (t : Table)
    → ((then_page after t).items ≡ t.items)
      × ((then_page after t).lists ≡ t.lists)
      × ((then_page after t).pending ≡ t.pending)
then_page-same none t = (refl, refl, refl)
then_page-same (some page) t = (refl, refl, refl)

answered-Keeps :
    (w : Waiting) (a : Answer) (t : Table)
    → Keeps t.items t.lists (answered w a t).items (answered w a t).lists
unfolding answered
answered-Keeps (loads start list none) a t = land-Keeps start list a t
answered-Keeps (loads start list (some page)) a t = land-Keeps start list a t
answered-Keeps (manages target is_delete list) a t = land_action-Keeps target is_delete list a t
answered-Keeps searches a t = land_search-Keeps a t

land-pending : (start list : ℕ) (a : Answer) (t : Table) → (land start list a t).pending ≡ t.pending
unfolding land
land-pending start list a t = elim (Bool-cases a.success) [
  | inr refused ↦ rw (land, refused) refl
  | inl good ↦ elim (Bool-cases (eqb start 0)) [
    | inl first ↦ rw (land, good, first) refl
    | inr more ↦ rw (land, good, more) refl
  ]
]

answered-pending : (w : Waiting) (a : Answer) (t : Table) → (answered w a t).pending ≡ t.pending
unfolding answered land_action land_search
answered-pending (loads start list none) a t = land-pending start list a t
answered-pending (loads start list (some page)) a t = land-pending start list a t
answered-pending searches a t = elim (Bool-cases a.success) [
  | inl good ↦ rw (land_search, good) refl
  | inr refused ↦ rw (land_search, refused) refl
]
answered-pending (manages target is_delete list) a t = elim (Bool-cases a.success) [
  | inr refused ↦ rw (land_action, refused) refl
  | inl good ↦ elim (Option-cases (ref_of target t.items (list_at list t.lists))) [
    | inl lost ↦ rw (land_action, good, lost) refl
    | inr (ref, there) ↦ rw (land_action, good, there) refl
  ]
]

-- An action by an id has a row in the array that it keeps.
abbrev IsReady : List Item → List (List ℕ) → Waiting → Type 0
IsReady items lists (manages (the_id id) is_delete list) = HasRow id items (list_at list lists)
IsReady items lists _ = Unit

abbrev AreReady : Table → Type 0
AreReady t = All (IsReady t.items t.lists) t.pending

IsReady-Keeps :
    (items more_items : List Item) (lists more_lists : List (List ℕ))
    → Keeps items lists more_items more_lists
    → (ws : List Waiting) → All (IsReady items lists) ws
    → All (IsReady more_items more_lists) ws
IsReady-Keeps items more_items lists more_lists keeps [] h = tt
IsReady-Keeps items more_items lists more_lists keeps (loads start list after ∷ ws) (h, hs) =
    (tt, IsReady-Keeps items more_items lists more_lists keeps ws hs)
IsReady-Keeps items more_items lists more_lists keeps (searches ∷ ws) (h, hs) =
    (tt, IsReady-Keeps items more_items lists more_lists keeps ws hs)
IsReady-Keeps items more_items lists more_lists keeps (manages (the_object ref) d list ∷ ws)
      (h, hs) =
    (tt, IsReady-Keeps items more_items lists more_lists keeps ws hs)
IsReady-Keeps items more_items lists more_lists keeps (manages (the_id id) d list ∷ ws) (h, hs) =
    (keeps id list h, IsReady-Keeps items more_items lists more_lists keeps ws hs)

answered-AreReady : (w : Waiting) (a : Answer) (t : Table) → AreReady t → AreReady (answered w a t)
answered-AreReady w a t h = rw (answered-pending w a t) (
    IsReady-Keeps t.items (answered w a t).items t.lists (answered w a t).lists
      (answered-Keeps w a t) t.pending h)

act-AreReady :
    (le : Text → Text → Bool) (target : Target) (is_delete : Bool) (t : Table)
    → AreReady t
    → AreReady (step le t (act target is_delete))
unfolding step
act-AreReady le (the_object ref) is_delete t h = elim (Bool-cases (is_row (the_object ref) t)) [
  | inl there ↦ rw (step, there) (tt, h)
  | inr gone ↦ rw (step, gone) h
]
act-AreReady le (the_id id) is_delete t h = elim (Bool-cases (is_row (the_id id) t)) [
  | inl there ↦ rw (step, there) (there, h)
  | inr gone ↦ rw (step, gone) h
]

step-AreReady :
    (le : Text → Text → Bool) (t : Table) (event : Event) → AreReady t → AreReady (step le t event)
unfolding step
step-AreReady le t (pick_page page) h =
    elim (Bool-cases (wants_more (length (list_at t.rows t.lists)) page)) [
      | inl more ↦ rw (step, more) (tt, h)
      | inr there ↦ rw (step, there) h
    ]
step-AreReady le t (type_keyword typed) h = h
step-AreReady le t search h = elim (Bool-cases (is_empty t.keyword)) [
  | inl blank ↦ rw (step, blank) (tt, h)
  | inr word ↦ rw (step, word) (tt, h)
]
step-AreReady le t (sort key) h = elim (Bool-cases (is_empty (list_at t.rows t.lists))) [
  | inl empty ↦ rw (step, empty) h
  | inr full ↦
      let refs = sorted_refs le key t.items (list_at t.rows t.lists) in
      rw (step, full)
        (IsReady-Keeps t.items t.items t.lists (t.lists ++ (refs ∷ []))
          (λ id l. list_at-append (has_item id t.items) l t.lists (refs ∷ [])) t.pending h)
]
step-AreReady le t (act target is_delete) h = act-AreReady le target is_delete t h
step-AreReady le t (answer at a) h = elim (Option-cases (take_out at t.pending)) [
  | inl out ↦ rw (step, out) h
  | inr ((w, rest), there) ↦
      let left = take_out-All (IsReady t.items t.lists) at t.pending rest w there h in
      rw (step, there) (answered-AreReady w a (record t { pending = rest }) left.1)
]

run-AreReady :
    (le : Text → Text → Bool) (events : List Event) (t : Table)
    → AreReady t
    → AreReady (run le t events)
unfolding run
run-AreReady le [] t h = h
run-AreReady le (event ∷ events) t h =
    run-AreReady le events (step le t event) (step-AreReady le t event h)

find_ref-HasRow :
    (id : ℕ) (items : List Item) (refs : List ℕ)
    → HasRow id items refs
    → (ref : ℕ) × (find_ref id items refs ≡ some ref)
unfolding find_ref
find_ref-HasRow id items [] h = let wrong : false ≡ true = h in cc wrong
find_ref-HasRow id items (ref ∷ refs) h = elim (Bool-cases (has_item id items ref)) [
  | inl here ↦ (ref, rw (find_ref, here) refl)
  | inr other ↦
      let later : HasRow id items refs = rw other at h in
      let (found, e) = find_ref-HasRow id items refs later in (found, rw (find_ref, other) e)
]

-- When an action on a row that was clicked is answered, its row is still in the array that the handler
-- has kept, whatever was loaded, searched, changed or deleted in between: the handler finds it, and
-- does not end with an exception.
pub run-find_ref :
    (le : Text → Text → Bool) (events : List Event) (at id list : ℕ) (is_delete : Bool)
    (rest : List Waiting)
    → take_out at (run le mounted events).pending ≡ some (manages (the_id id) is_delete list, rest)
    → (ref : ℕ) × (find_ref id
          (run le mounted events).items
          (list_at list (run le mounted events).lists)
        ≡ some ref)
run-find_ref le events at id list is_delete rest e =
    let t = run le mounted events in
    let ready =
      take_out-All (IsReady t.items t.lists) at t.pending rest (manages (the_id id) is_delete list)
        e (run-AreReady le events mounted (tt, tt)) in
    find_ref-HasRow id t.items (list_at list t.lists) ready.0
