-- ===== src/Web/Refresh/Count.antt =====
-- How often web/src/components/MessagesTable.jsx refreshes by itself.
use message_pusher.Base.{
  ℕ, ◌+◌, ◌-◌, ◌*◌, ◌≤◌, ◌≡◌, refl, sym, ap, subst, ◌∙◌, Bool, true, false, not, List, [], ◌∷◌, eqb,
  arith, inl, inr, Bool-cases, if_true, if_false, if◌then◌else◌,
}
use message_pusher.Web.Limit.{is_rate_limited}
use message_pusher.Web.Refresh.{
  toggle, refresh_seconds, Refresh, started, tick, Beat, second, pressed, beat, run,
}

-- The count is not above what is shown, and neither is above a minute.
abbrev pub IsSane : Refresh → Type 0
IsSane r = (r.seconds ≤ r.shown) × (r.shown ≤ refresh_seconds)

-- The seconds that the refreshes and the count account for.
abbrev used : Refresh → ℕ
used r = 61 * r.requests + (refresh_seconds - r.seconds)

tick-used :
    (limited now : ℕ) (r : Refresh)
    → IsSane r
    → IsSane (tick limited now r) × (used (tick limited now r) ≤ used r + 1)
unfolding tick
tick-used limited now r (low, high) = elim (Bool-cases (eqb r.seconds 0)) [
  | inr more ↦ rw (tick, more) ((ground arith, ground arith), ground arith)
  | inl zero_now ↦ elim (Bool-cases (is_rate_limited limited now)) [
    | inl paused ↦ rw (tick, zero_now, paused) ((omega arith, omega arith), ground arith)
    | inr free ↦ rw (tick, zero_now, free) ((omega arith, omega arith), ground arith)
  ]
]

tick-auto_refresh :
    (limited now : ℕ) (r : Refresh) → (tick limited now r).auto_refresh ≡ r.auto_refresh
unfolding tick
tick-auto_refresh limited now r = elim (Bool-cases (eqb r.seconds 0)) [
  | inr more ↦ rw (tick, more) refl
  | inl zero_now ↦ elim (Bool-cases (is_rate_limited limited now)) [
    | inl paused ↦ rw (tick, zero_now, paused) refl
    | inr free ↦ rw (tick, zero_now, free) refl
  ]
]

-- The seconds in which the refresh is switched on: every press of the button switches it over.
unfoldable pub on_seconds : Bool → List Beat → ℕ
on_seconds on [] = 0
on_seconds on (second limited now ∷ beats) =
    let rest = on_seconds on beats in if on then rest + 1 else rest
on_seconds on (pressed ∷ beats) = on_seconds (not on) beats

-- What a second may change, if it is switched on or not.
abbrev IsFair : ℕ → Refresh → Refresh → Type 0
IsFair spent r after =
    (IsSane after) × (used after ≤ used r + spent) × (after.auto_refresh ≡ r.auto_refresh)

tick-IsFair : (limited now : ℕ) (r : Refresh) → IsSane r → IsFair 1 r (tick limited now r)
tick-IsFair limited now r h =
    let (sane, less) = tick-used limited now r h in (sane, less, tick-auto_refresh limited now r)

beat-on :
    (limited now : ℕ) (r : Refresh)
    → IsSane r
    → r.auto_refresh ≡ true
    → IsFair 1 r (beat r (second limited now))
unfolding beat
beat-on limited now r h on =
    subst (IsFair 1 r) (sym (if_true (tick limited now r) r r.auto_refresh on))
      (tick-IsFair limited now r h)

beat-off :
    (limited now : ℕ) (r : Refresh)
    → IsSane r
    → r.auto_refresh ≡ false
    → IsFair 0 r (beat r (second limited now))
unfolding beat
beat-off limited now r h off =
    subst (IsFair 0 r) (sym (if_false (tick limited now r) r r.auto_refresh off))
      (h, omega arith, refl)

run-used :
    (beats : List Beat) (r : Refresh) (on : Bool)
    → IsSane r
    → r.auto_refresh ≡ on
    → IsSane (run r beats) × (used (run r beats) ≤ used r + on_seconds on beats)
unfolding run on_seconds beat
run-used [] r on h e = (h, omega arith)
run-used (second limited now ∷ beats) r true h e =
    let after = beat r (second limited now) in
    let (sane, less, same) = beat-on limited now r h e in
    let (kept, rest) = run-used beats after true sane (same ∙ e) in (kept, omega arith)
run-used (second limited now ∷ beats) r false h e =
    let after = beat r (second limited now) in
    let (sane, less, same) = beat-off limited now r h e in
    let (kept, rest) = run-used beats after false sane (same ∙ e) in (kept, omega arith)
run-used (pressed ∷ beats) r on (low, high) e =
    let (kept, rest) = run-used beats (toggle r) (not on) (omega arith, omega arith) (ap not e) in
    (kept, omega arith)

-- However often the button is pressed: for every refresh that the page has sent by itself, 61 seconds
-- have gone by in which the refresh was switched on; and the seconds that are shown are not below those
-- that are counted, and at most 60.
pub run-requests :
    (beats : List Beat)
    → (61 * (run started beats).requests ≤ on_seconds true beats) × IsSane (run started beats)
run-requests beats =
    let (sane, less) = run-used beats started true (omega arith, omega arith) refl in
    (omega arith, sane)
