-- ===== src/Web/Messages/Unique.antt =====
-- No message is shown in two rows.
use message_pusher.Base.{
  ℕ, ◌≡◌, ◌⊎◌, refl, sym, ap, ◌∙◌, Bool, true, false, not, List, [], ◌∷◌, map, filter, eqb, eqb_iff,
  arith, is_empty, length, All, inl, inr, Bool-cases, Option-cases,
}
use message_pusher.Text.{Text}
use message_pusher.Web.Paging.{Row, wants_more}
use message_pusher.Web.Paging.Distinct.{
  id_of, HasRow, AreDistinct, AreDistinct-append, AreDistinct-filter, sorted_by-AreDistinct,
}
use message_pusher.Web.Messages.{
  After, nothing, to_page, stop_loading, Waiting, load, found, seen, resent, removed, Table, Answer,
  has_id, append_new, land, finish, answered, replace_row, insert_new, Event, pick_page,
  type_keyword, search, refresh, sort, view, resend, remove, close, pushed, answer, take_out, step,
  run,
}

has_id_of : (id : ℕ) (rows : List Row) → HasRow id rows → has_id id rows ≡ true
has_id_of id [] h = absurd h
has_id_of id (row ∷ rows) (inl e) = let same = (eqb_iff row.id id).1 (sym e) in rw same refl
has_id_of id (row ∷ rows) (inr h) = let rest = has_id_of id rows h in ground arith

fresh_of : (id : ℕ) (rows : List Row) → has_id id rows ≡ false → ¬ HasRow id rows
fresh_of id rows e h = let wrong : true ≡ false = sym (has_id_of id rows h) ∙ e in cc wrong

-- What a filter keeps passes it.
HasRow-passes :
    (p : ℕ → Bool) (id : ℕ) (rows : List Row)
    → HasRow id (filter (λ (row : Row). p row.id) rows)
    → p id ≡ true
HasRow-passes p id [] h = absurd h
HasRow-passes p id (row ∷ rows) h = elim (Bool-cases (p row.id)) [
  | inr dropped ↦ HasRow-passes p id rows (rw dropped at h)
  | inl kept ↦
      let h1 : (id ≡ row.id) ⊎ HasRow id (filter (λ (r : Row). p r.id) rows) = rw kept at h in
      elim h1 [ inl e ↦ rw e kept | inr g ↦ HasRow-passes p id rows g ]
]

append_new-AreDistinct :
    (rows data_ : List Row)
    → AreDistinct rows
    → AreDistinct data_
    → AreDistinct (append_new rows data_)
append_new-AreDistinct rows data_ d e =
    AreDistinct-append rows (filter (λ (row : Row). not (has_id row.id rows)) data_) d
      (AreDistinct-filter (λ (row : Row). not (has_id row.id rows)) data_ e)
      (λ id h k.
        let fresh = HasRow-passes (λ i. not (has_id i rows)) id data_ k in
        let known = has_id_of id rows h in
        let wrong : not true ≡ true = rw known at fresh in cc wrong)

replace_row-ids :
    (message : Row) (rows : List Row) → map id_of (replace_row message rows) ≡ map id_of rows
unfolding replace_row
replace_row-ids message [] = refl
replace_row-ids message (row ∷ rows) = elim (Bool-cases (eqb row.id message.id)) [
  | inl same ↦ rw same (ap (λ i. i ∷ map id_of rows) (sym ((eqb_iff row.id message.id).0 same)))
  | inr other ↦ rw other (ap (λ l. row.id ∷ l) (replace_row-ids message rows))
]

insert_new-AreDistinct :
    (message : Row) (rows : List Row) → AreDistinct rows → AreDistinct (insert_new message rows)
unfolding insert_new
insert_new-AreDistinct message rows d = elim (Bool-cases (has_id message.id rows)) [
  | inl known ↦ rw (known, replace_row-ids message rows) d
  | inr new ↦ rw new (fresh_of message.id rows new, d)
]

land-AreDistinct :
    (seq start : ℕ) (a : Answer) (t : Table)
    → AreDistinct a.rows
    → AreDistinct t.rows
    → AreDistinct (land seq start a t).rows
unfolding land
land-AreDistinct seq start a t e d =
    let added = append_new-AreDistinct t.rows a.rows d e in
    elim (Bool-cases (eqb seq t.seq)) [
      | inr late ↦ rw late d
      | inl latest ↦ elim (Bool-cases a.success) [
        | inr refused ↦ rw (latest, refused) d
        | inl good ↦ elim (Bool-cases (eqb start 0)) [
          | inl first ↦ rw (latest, good, first) e
          | inr more ↦ rw (latest, good, more) added
        ]
      ]
    ]

finish-rows : (after : After) (t : Table) → (finish after t).rows ≡ t.rows
finish-rows nothing t = refl
finish-rows (to_page page) t = refl
finish-rows stop_loading t = refl

answered-AreDistinct :
    (w : Waiting) (a : Answer) (t : Table)
    → AreDistinct a.rows
    → AreDistinct t.rows
    → AreDistinct (answered w a t).rows
unfolding answered
answered-AreDistinct (load seq start after) a t e d =
    rw (finish-rows after (land seq start a t)) (land-AreDistinct seq start a t e d)
answered-AreDistinct found a t e d = elim (Bool-cases a.success) [
  | inl good ↦ rw good e
  | inr refused ↦ rw refused d
]
answered-AreDistinct seen a t e d = elim (Bool-cases a.success) [
  | inl good ↦ rw good d
  | inr refused ↦ rw refused d
]
answered-AreDistinct resent a t e d = d
answered-AreDistinct (removed id) a t e d = elim (Bool-cases a.success) [
  | inl good ↦ rw good (AreDistinct-filter (λ (row : Row). not (eqb row.id id)) t.rows d)
  | inr refused ↦ rw refused d
]

-- What is assumed of an event: the server lists no message twice in one answer.
abbrev pub IsSound : Event → Type 0
IsSound (answer at a) = AreDistinct a.rows
IsSound _ = Unit

step-AreDistinct :
    (le : Text → Text → Bool) (t : Table) (event : Event)
    → IsSound event
    → AreDistinct t.rows
    → AreDistinct (step le t event).rows
unfolding step
step-AreDistinct le t (pick_page page) h d = elim (Bool-cases (wants_more (length t.rows) page)) [
  | inl more ↦ rw more d
  | inr there ↦ rw there d
]
step-AreDistinct le t (type_keyword typed) h d = d
step-AreDistinct le t search h d = elim (Bool-cases (is_empty t.keyword)) [
  | inl blank ↦ rw blank d
  | inr some_word ↦ rw some_word d
]
step-AreDistinct le t refresh h d = d
step-AreDistinct le t (sort key) h d = elim (Bool-cases (is_empty t.rows)) [
  | inl empty ↦ rw empty d
  | inr full ↦ rw full (sorted_by-AreDistinct le key t.rows d)
]
step-AreDistinct le t (view id) h d = d
step-AreDistinct le t (resend id) h d = d
step-AreDistinct le t (remove id) h d = d
step-AreDistinct le t close h d = d
step-AreDistinct le t (pushed message) h d = insert_new-AreDistinct message t.rows d
step-AreDistinct le t (answer at a) h d = elim (Option-cases (take_out at t.pending)) [
  | inl nothing_there ↦ rw (step, nothing_there) d
  | inr ((w, rest), there) ↦
      rw (step, there) (answered-AreDistinct w a (record t { pending = rest }) h d)
]

-- If no single answer lists a message twice: in whatever order the requests are answered, and whatever
-- the stream brings and the user does, a table that shows each message in one row keeps doing so.
pub run-AreDistinct :
    (le : Text → Text → Bool) (events : List Event) (t : Table)
    → All IsSound events
    → AreDistinct t.rows
    → AreDistinct (run le t events).rows
unfolding run
run-AreDistinct le [] t h d = d
run-AreDistinct le (event ∷ events) t (h, hs) d =
    run-AreDistinct le events (step le t event) hs (step-AreDistinct le t event h d)
