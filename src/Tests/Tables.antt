-- ===== src/Tests/Tables.antt =====
-- The tables of the web client at concrete values.
use message_pusher.Base.{
  ℕ, ◌*◌, ◌≤◌, ◌≡◌, refl, Bool, true, false, List, [], ◌∷◌, none, filter, length, arith, inl, inr,
}
use message_pusher.Text.{Text}
use message_pusher.Web.Paging.{items_per_page, total_pages, Row, is_shown, paged}
use message_pusher.Web.Paging.Pages.{shown_to, shown_to-total_pages}
use message_pusher.Web.Paging.Distinct.{AreDistinct}
use message_pusher.Web.Messages.{Answer, Event, refresh, pushed, remove, answer, run, mounted}
use message_pusher.Web.Messages.Unique.{run-AreDistinct}
use message_pusher.Web.Messages.Latest.{screen_of, run-screen}
use message_pusher.Web.Messages.Cancel.{turns}
use message_pusher.Web.Stream.{Stream, opened_first, on_error, on_timer, connect}
use message_pusher.Web.Stream.Backoff.{
  Reached, mounted as first_mounted, fails, goes_off, Phase, backoff, Reached-Phase,
}
use message_pusher.Web.Refresh
use message_pusher.Web.Refresh.{started, Beat, second, pressed}
use message_pusher.Web.Refresh.Count.{IsSane, on_seconds, run-requests}

abbrev row_with : ℕ → Row
row_with id = record { id = id; field = λ _. []; deleted = false }

abbrev gone_row : Row
gone_row = record { id = 3; field = λ _. []; deleted = true }

abbrev three_rows : List Row
three_rows = row_with 1 ∷ gone_row ∷ row_with 2 ∷ []

shown_to-total_pages_example :
    (shown_to (total_pages (length three_rows)) three_rows ≡ filter is_shown three_rows)
    × ((page : ℕ) → length (paged page three_rows) ≤ items_per_page)
shown_to-total_pages_example = shown_to-total_pages three_rows

abbrev any_order : Text → Text → Bool
any_order a b = true

abbrev two_rows : List Row
two_rows = row_with 1 ∷ row_with 2 ∷ []

two_rows-AreDistinct : AreDistinct two_rows
two_rows-AreDistinct = (λ h. elim h [ inl e ↦ absurd (omega arith) | inr n ↦ n ], (λ h. h, tt))

abbrev page_of : List Row → Answer
page_of rows = record { success = true; rows = rows; row = none }

-- A second load is answered before the first one; a message is pushed twice, and one is deleted.
abbrev two_loads : List Event
two_loads =
    refresh
    ∷ answer 0 (page_of two_rows)
    ∷ answer 0 (page_of (row_with 2 ∷ []))
    ∷ pushed (row_with 5)
    ∷ pushed (row_with 5)
    ∷ remove 1
    ∷ answer 0 (page_of [])
    ∷ []

run-screen_example :
    screen_of (run any_order mounted two_loads) ≡ turns any_order (screen_of mounted) two_loads
run-screen_example = run-screen any_order two_loads mounted (omega arith, tt)

run-AreDistinct_example : AreDistinct (run any_order mounted two_loads).rows
run-AreDistinct_example =
    run-AreDistinct any_order two_loads mounted
      (tt, (two_rows-AreDistinct, ((λ h. h, tt), (tt, (tt, (tt, (tt, tt))))))) tt

-- The first source fails, the next one too.
abbrev failed_once : Stream
failed_once = on_error opened_first

abbrev failed_twice : Stream
failed_twice = on_error (on_timer failed_once)

two_failures : Reached 2 failed_twice
unfolding connect on_error
two_failures =
    fails 1 (on_timer failed_once)
      (goes_off 1 1000 failed_once (fails 0 opened_first first_mounted refl) refl) refl

Reached-Phase_example : (failed_twice.retry_delay ≡ backoff 2) × Phase 2 failed_twice
Reached-Phase_example = Reached-Phase 2 failed_twice two_failures

abbrev four_beats : List Beat
four_beats = second 0 1000 ∷ pressed ∷ pressed ∷ second 0 2000 ∷ []

run-requests_example :
    (61 * (Refresh.run started four_beats).requests ≤ on_seconds true four_beats)
    × IsSane (Refresh.run started four_beats)
run-requests_example = run-requests four_beats
