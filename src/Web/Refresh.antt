-- ===== src/Web/Refresh.antt =====
-- web/src/components/MessagesTable.jsx: the automatic refresh of the list, once a second.
pub mod Count
use message_pusher.Base.{ℕ, ◌-◌, ◌+◌, Bool, true, false, not, List, [], ◌∷◌, eqb, if◌then◌else◌}
use message_pusher.Web.Limit.{is_rate_limited}

-- AUTO_REFRESH_SECONDS
abbrev pub refresh_seconds : ℕ
refresh_seconds = 60

pub record Refresh : Type 0 where
  pub auto_refresh : Bool
  -- `autoRefreshSecondsRef.current`, which counts, and `autoRefreshSeconds`, which is shown. The state
  -- goes below 0 nowhere: `shown` is not below the count.
  pub seconds : ℕ
  pub shown : ℕ
  -- How often `refresh()` was called.
  pub requests : ℕ

abbrev pub started : Refresh
started = record {
  auto_refresh = true;
  seconds = refresh_seconds;
  shown = refresh_seconds;
  requests = 0;
}

-- The handler of the interval at a time, with `rateLimitedUntil`.
unfoldable pub tick : ℕ → ℕ → Refresh → Refresh
tick limited_until now r =
    if eqb r.seconds 0
    then if is_rate_limited limited_until now
      then record r { seconds = refresh_seconds; shown = refresh_seconds }
      else record r {
        seconds = refresh_seconds;
        shown = refresh_seconds;
        requests = r.requests + 1;
      }
    else record r { seconds = r.seconds - 1; shown = r.shown - 1 }

-- The button.
abbrev pub toggle : Refresh → Refresh
toggle r = record r { auto_refresh = not r.auto_refresh; shown = refresh_seconds }

-- A second goes by, at a time and with `rateLimitedUntil`, or the button is pressed.
pub data Beat : Type 0 where
  second : (limited_until now : ℕ) → Beat
  pressed : Beat

-- The interval only runs while `autoRefresh` is set.
unfoldable pub beat : Refresh → Beat → Refresh
beat r (second limited_until now) = if r.auto_refresh then tick limited_until now r else r
beat r pressed = toggle r

unfoldable pub run : Refresh → List Beat → Refresh
run r [] = r
run r (b ∷ beats) = run (beat r b) beats
