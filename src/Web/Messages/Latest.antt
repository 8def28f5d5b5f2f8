-- ===== src/Web/Messages/Latest.antt =====
-- The request numbers of MessagesTable.jsx do what cancelling does.
use message_pusher.Base.{
  ℕ, zero, suc, ◌-◌, ◌≡◌, refl, ap, ◌∙◌, Bool, true, false, List, [], ◌∷◌, map, Option, none, some,
  eqb, arith, is_empty, length, All, inl, inr, Bool-cases, Option-cases, if◌then◌else◌,
}
use message_pusher.Text.{Text}
use message_pusher.Web.Paging.{wants_more}
use message_pusher.Web.Messages.{
  After, nothing, to_page, stop_loading, Waiting, load, found, seen, resent, removed, Table, Answer,
  send_load, append_new, land, finish, answered, without, Event, pick_page, type_keyword, search,
  refresh, sort, view, resend, remove, close, pushed, answer, take_out, step, run,
}
use message_pusher.Web.Messages.Cancel.{
  Ask, live, void, for_search, for_row, for_resend, for_removal, Screen, cancel, ask_load, then_do,
  told, turn, turns,
}
use message_pusher.Web.Messages.Numbers.{IsSent, AreSent, step-AreSent, take_out-All}

-- What a request is on the screen, by the number of the last load.
abbrev pub ask_of : ℕ → Waiting → Ask
ask_of seq (load q start after) = if eqb q seq then live start after else void after
ask_of seq found = for_search
ask_of seq seen = for_row
ask_of seq resent = for_resend
ask_of seq (removed id) = for_removal id

-- The table without its numbers.
abbrev pub screen_of : Table → Screen
screen_of t = record {
  rows = t.rows;
  loading = t.loading;
  page = t.page;
  keyword = t.keyword;
  searching = t.searching;
  viewed = t.viewed;
  modal = t.modal;
  asks = map (ask_of t.seq) t.pending;
}

ask_of-suc : (seq : ℕ) (w : Waiting) → IsSent seq w → ask_of (suc seq) w ≡ cancel (ask_of seq w)
ask_of-suc seq (load q start after) h = elim (Bool-cases (eqb q seq)) [
  | inl same ↦ let old : eqb q (suc seq) ≡ false = ground arith in rw (same, old) refl
  | inr other ↦ let old : eqb q (suc seq) ≡ false = ground arith in rw (other, old) refl
]
ask_of-suc seq found h = refl
ask_of-suc seq seen h = refl
ask_of-suc seq resent h = refl
ask_of-suc seq (removed id) h = refl

asks-suc :
    (seq : ℕ) (ws : List Waiting)
    → All (IsSent seq) ws
    → map (ask_of (suc seq)) ws ≡ map cancel (map (ask_of seq) ws)
asks-suc seq [] h = refl
asks-suc seq (w ∷ ws) (h, hs) = rw (ask_of-suc seq w h, asks-suc seq ws hs) refl

send_load-screen :
    (start : ℕ) (after : After) (t : Table)
    → AreSent t
    → screen_of (send_load start after t) ≡ ask_load start after (screen_of t)
send_load-screen start after t h =
    let own : eqb (suc t.seq) (suc t.seq) ≡ true = ground arith in
    rw (own, asks-suc t.seq t.pending h) refl

finish-screen :
    (after : After) (t : Table) → screen_of (finish after t) ≡ then_do after (screen_of t)
finish-screen nothing t = refl
finish-screen (to_page page) t = refl
finish-screen stop_loading t = refl

land-screen :
    (q start : ℕ) (after : After) (a : Answer) (t : Table)
    → screen_of (finish after (land q start a t))
      ≡ told (ask_of t.seq (load q start after)) a (screen_of t)
unfolding land told
land-screen q start after a t = elim (Bool-cases (eqb q t.seq)) [
  | inr late ↦ rw late (finish-screen after t)
  | inl latest ↦ elim (Bool-cases a.success) [
    | inl good ↦
        let shown = if eqb start 0 then a.rows else append_new t.rows a.rows in
        rw (latest, good) (finish-screen after (record t { loading = false; rows = shown }))
    | inr refused ↦ rw (latest, refused) (finish-screen after (record t { loading = false }))
  ]
]

answered-screen :
    (w : Waiting) (a : Answer) (t : Table)
    → AreSent t
    → screen_of (answered w a t) ≡ told (ask_of t.seq w) a (screen_of t)
unfolding answered told
answered-screen (load q start after) a t h = land-screen q start after a t
answered-screen found a t h = elim (Bool-cases a.success) [
  | inl good ↦ rw good refl
  | inr refused ↦ rw refused refl
]
answered-screen seen a t h = elim (Bool-cases a.success) [
  | inl good ↦ rw good refl
  | inr refused ↦ rw refused refl
]
answered-screen resent a t h = refl
answered-screen (removed id) a t h = elim (Bool-cases a.success) [
  | inl good ↦ rw good (send_load-screen 0 stop_loading (record t { rows = without id t.rows }) h)
  | inr refused ↦ rw refused refl
]

module _ {A B : Type 0} (f : A → B) where
  abbrev mapped : Option (A × List A) → Option (B × List B)
  mapped none = none
  mapped (some (w, ws)) = some (f w, map f ws)

  take_out-map : (at : ℕ) (ws : List A) → take_out at (map f ws) ≡ mapped (take_out at ws)
  unfolding take_out
  take_out-map at [] = refl
  take_out-map zero (w ∷ ws) = refl
  take_out-map (suc at) (w ∷ ws) = elim (Option-cases (take_out at ws)) [
    | inl out ↦ rw (take_out-map at ws, out) refl
    | inr (_, there) ↦ rw (take_out-map at ws, there) refl
  ]

step-screen :
    (le : Text → Text → Bool) (t : Table) (event : Event)
    → AreSent t
    → screen_of (step le t event) ≡ turn le (screen_of t) event
unfolding step turn
step-screen le t (pick_page page) h = elim (Bool-cases (wants_more (length t.rows) page)) [
  | inl more ↦ rw more (send_load-screen (page - 1) (to_page page) t h)
  | inr there ↦ rw there refl
]
step-screen le t (type_keyword typed) h = refl
step-screen le t search h = elim (Bool-cases (is_empty t.keyword)) [
  | inl blank ↦ rw blank (send_load-screen 0 (to_page 1) t h)
  | inr some_word ↦ rw some_word refl
]
step-screen le t refresh h = send_load-screen 0 (to_page 1) t h
step-screen le t (sort key) h = elim (Bool-cases (is_empty t.rows)) [
  | inl empty ↦ rw empty refl
  | inr full ↦ rw full refl
]
step-screen le t (view id) h = refl
step-screen le t (resend id) h = refl
step-screen le t (remove id) h = refl
step-screen le t close h = refl
step-screen le t (pushed message) h = refl
step-screen le t (answer at a) h = elim (Option-cases (take_out at t.pending)) [
  | inl out ↦ let gone = take_out-map (ask_of t.seq) at t.pending in rw (step, turn, gone, out) refl
  | inr ((w, rest), there) ↦
      let gone = take_out-map (ask_of t.seq) at t.pending in
      let left = take_out-All (IsSent t.seq) at t.pending rest w there h in
      rw (step, turn, gone, there) (answered-screen w a (record t { pending = rest }) left.1)
]

-- Whatever the user does and in whatever order answers and pushed messages come: from a table in which
-- no load that waits has a number above the last one given, a table with numbered requests shows what
-- a table shows that cancels every earlier load when it sends a new one.
pub run-screen :
    (le : Text → Text → Bool) (events : List Event) (t : Table)
    → AreSent t
    → screen_of (run le t events) ≡ turns le (screen_of t) events
unfolding run turns
run-screen le [] t h = refl
run-screen le (event ∷ events) t h =
    run-screen le events (step le t event) (step-AreSent le t event h)
    ∙ ap (λ v. turns le v events) (step-screen le t event h)
