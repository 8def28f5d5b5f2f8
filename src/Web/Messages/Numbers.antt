-- ===== src/Web/Messages/Numbers.antt =====
-- The numbers of the requests of MessagesTable.jsx: none is above `loadSeq`.
use message_pusher.Base.{
  ℕ, zero, suc, ◌≤◌, ◌-◌, ◌≡◌, subst, Bool, List, [], ◌∷◌, Option, none, some, eqb, arith, is_empty,
  length, All, inl, inr, Bool-cases, Option-cases,
}
use message_pusher.Text.{Text}
use message_pusher.Web.Paging.{wants_more}
use message_pusher.Web.Messages.{
  After, nothing, to_page, stop_loading, Waiting, load, found, seen, resent, removed, Table, Answer,
  send_load, land, finish, answered, Event, pick_page, type_keyword, search, refresh, sort, view,
  resend, remove, close, pushed, answer, take_out, step,
}

-- A load has a number that was given.
abbrev pub IsSent : ℕ → Waiting → Type 0
IsSent seq (load q start after) = q ≤ seq
IsSent seq _ = Unit

-- Every load that waits has one.
abbrev pub AreSent : Table → Type 0
AreSent t = All (IsSent t.seq) t.pending

IsSent-suc : (seq : ℕ) (ws : List Waiting) → All (IsSent seq) ws → All (IsSent (suc seq)) ws
IsSent-suc seq [] h = tt
IsSent-suc seq (load q start after ∷ ws) (h, hs) = (omega arith, IsSent-suc seq ws hs)
IsSent-suc seq (found ∷ ws) (h, hs) = (tt, IsSent-suc seq ws hs)
IsSent-suc seq (seen ∷ ws) (h, hs) = (tt, IsSent-suc seq ws hs)
IsSent-suc seq (resent ∷ ws) (h, hs) = (tt, IsSent-suc seq ws hs)
IsSent-suc seq (removed id ∷ ws) (h, hs) = (tt, IsSent-suc seq ws hs)

send_load-AreSent :
    (start : ℕ) (after : After) (t : Table) → AreSent t → AreSent (send_load start after t)
send_load-AreSent start after t h = (omega arith, IsSent-suc t.seq t.pending h)

module _ {A : Type 0} (P : A → Type 0) where
  -- What is taken out of a list and what is left have a property.
  abbrev TakenAll : Option (A × List A) → Type 0
  TakenAll none = Unit
  TakenAll (some (w, ws)) = P w × All P ws

  TakenAll-take_out : (at : ℕ) (ws : List A) → All P ws → TakenAll (take_out at ws)
  unfolding take_out
  TakenAll-take_out at [] h = tt
  TakenAll-take_out zero (w ∷ ws) (h, hs) = (h, hs)
  TakenAll-take_out (suc at) (w ∷ ws) (h, hs) =
      let rest = TakenAll-take_out at ws hs in
      elim (Option-cases (take_out at ws)) [
        | inl out ↦ rw out tt
        | inr ((v, vs), there) ↦
            let kept : P v × All P vs = rw there at rest in rw there (kept.0, (h, kept.1))
      ]

  pub take_out-All :
      (at : ℕ) (ws rest : List A) (w : A)
      → take_out at ws ≡ some (w, rest)
      → All P ws
      → P w × All P rest
  take_out-All at ws rest w e h = subst TakenAll e (TakenAll-take_out at ws h)

finish-AreSent : (after : After) (t : Table) → AreSent t → AreSent (finish after t)
finish-AreSent nothing t h = h
finish-AreSent (to_page page) t h = h
finish-AreSent stop_loading t h = h

land-AreSent : (q start : ℕ) (a : Answer) (t : Table) → AreSent t → AreSent (land q start a t)
unfolding land
land-AreSent q start a t h = elim (Bool-cases (eqb q t.seq)) [
  | inl latest ↦ rw latest h
  | inr late ↦ rw late h
]

answered-AreSent : (w : Waiting) (a : Answer) (t : Table) → AreSent t → AreSent (answered w a t)
unfolding answered
answered-AreSent (load q start after) a t h =
    finish-AreSent after (land q start a t) (land-AreSent q start a t h)
answered-AreSent found a t h = elim (Bool-cases a.success) [
  | inl good ↦ rw good h
  | inr refused ↦ rw refused h
]
answered-AreSent seen a t h = elim (Bool-cases a.success) [
  | inl good ↦ rw good h
  | inr refused ↦ rw refused h
]
answered-AreSent resent a t h = h
answered-AreSent (removed id) a t h = elim (Bool-cases a.success) [
  | inl good ↦ rw good (omega arith, IsSent-suc t.seq t.pending h)
  | inr refused ↦ rw refused h
]

pub step-AreSent :
    (le : Text → Text → Bool) (t : Table) (event : Event) → AreSent t → AreSent (step le t event)
unfolding step
step-AreSent le t (pick_page page) h = elim (Bool-cases (wants_more (length t.rows) page)) [
  | inl more ↦ rw more (send_load-AreSent (page - 1) (to_page page) t h)
  | inr there ↦ rw there h
]
step-AreSent le t (type_keyword typed) h = h
step-AreSent le t search h = elim (Bool-cases (is_empty t.keyword)) [
  | inl blank ↦ rw blank (send_load-AreSent 0 (to_page 1) t h)
  | inr some_word ↦ rw some_word (tt, h)
]
step-AreSent le t refresh h = send_load-AreSent 0 (to_page 1) t h
step-AreSent le t (sort key) h = elim (Bool-cases (is_empty t.rows)) [
  | inl empty ↦ rw empty h
  | inr full ↦ rw full h
]
step-AreSent le t (view id) h = (tt, h)
step-AreSent le t (resend id) h = (tt, h)
step-AreSent le t (remove id) h = (tt, h)
step-AreSent le t close h = h
step-AreSent le t (pushed message) h = h
step-AreSent le t (answer at a) h = elim (Option-cases (take_out at t.pending)) [
  | inl nothing_there ↦ rw (step, nothing_there) h
  | inr ((w, rest), there) ↦
      let left = take_out-All (IsSent t.seq) at t.pending rest w there h in
      rw (step, there) (answered-AreSent w a (record t { pending = rest }) left.1)
]
