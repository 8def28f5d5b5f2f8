-- ===== src/Web/Limit.antt =====
-- web/src/helpers/api.js: the pause after the server has answered 429. Times are in milliseconds.
pub mod Cooldown
use message_pusher.Base.{
  ℕ, ◌+◌, ◌-◌, ◌*◌, ◌/◌, Bool, true, false, Option, none, some, eqb, ltb, if◌then◌else◌,
}

abbrev pub cooldown_ms : ℕ
cooldown_ms = 210 * 1000

-- `Date.now() < rateLimitedUntil`
unfoldable pub is_rate_limited : ℕ → ℕ → Bool
is_rate_limited limited_until now = ltb now limited_until

-- `Math.max(0, Math.ceil((rateLimitedUntil - Date.now()) / 1000))`: where the difference is negative,
-- the result is 0.
unfoldable pub remain_seconds : ℕ → ℕ → ℕ
remain_seconds limited_until now = (limited_until - now + 999) / 1000

-- What the interceptor makes of `rateLimitedUntil` when a request fails with this status.
unfoldable pub after_error : ℕ → ℕ → Option ℕ → ℕ
after_error limited_until now none = limited_until
after_error limited_until now (some status) =
    if eqb status 429 then now + cooldown_ms else limited_until
