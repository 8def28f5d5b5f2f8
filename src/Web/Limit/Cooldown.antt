-- ===== src/Web/Limit/Cooldown.antt =====
-- How long the client pauses, over any run of failing requests.
use message_pusher.Base.{ℕ, ◌+◌, ◌≤◌, ◌<◌, ◌≡◌, ◌↔◌, true, Option, none, some, arith}
use message_pusher.Web.Limit.{cooldown_ms, is_rate_limited, remain_seconds, after_error}

-- Time passes, and requests fail: from a clock and a `rateLimitedUntil` to later ones.
pub data Steps (start from : ℕ) : ℕ → ℕ → Type 0 where
  stay : Steps start from start from
  wait :
      (now limited more : ℕ) → Steps start from now limited → Steps start from (now + more) limited
  fail :
      (now limited : ℕ) (status : Option ℕ)
      → Steps start from now limited
      → Steps start from now (after_error limited now status)

after_error-bound :
    (limited now : ℕ) (status : Option ℕ)
    → limited ≤ now + cooldown_ms
    → after_error limited now status ≤ now + cooldown_ms
unfolding after_error
after_error-bound limited now none h = h
after_error-bound limited now (some status) h = ground arith

after_error-grows :
    (limited now : ℕ) (status : Option ℕ)
    → limited ≤ now + cooldown_ms
    → limited ≤ after_error limited now status
unfolding after_error
after_error-grows limited now none h = omega arith
after_error-grows limited now (some status) h = ground arith

-- The pause never ends later than one cooldown from now, and it never gets shorter.
Steps-bound :
    (start from now limited : ℕ)
    → from ≤ start + cooldown_ms
    → Steps start from now limited
    → (start ≤ now) × (limited ≤ now + cooldown_ms) × (from ≤ limited)
Steps-bound start from now limited h stay = (omega arith, h, omega arith)
Steps-bound start from _ limited h (wait now _ more s) =
    let (later, bound, kept) = Steps-bound start from now limited h s in
    (omega arith, omega arith, kept)
Steps-bound start from now _ h (fail _ limited status s) =
    let (later, bound, kept) = Steps-bound start from now limited h s in
    let grown = after_error-grows limited now status bound in
    (later, after_error-bound limited now status bound, omega arith)

-- In every run that starts without a pause, at most 210 seconds remain of one, and some remain
-- exactly while requests are held back.
pub remain_seconds_bound :
    (start now limited : ℕ)
    → Steps start 0 now limited
    → (remain_seconds limited now ≤ 210)
      × ((is_rate_limited limited now ≡ true) ↔ (0 < remain_seconds limited now))
unfolding remain_seconds is_rate_limited
remain_seconds_bound start now limited s =
    let (_, bound, _) = Steps-bound start 0 now limited (omega arith) s in
    (omega arith, (λ h. ground arith, λ h. ground arith))

-- After a 429 requests are held back for 210 seconds, whatever fails in between.
is_rate_limited_cooldown :
    (start from now limited : ℕ)
    → Steps start (after_error from start (some 429)) now limited
    → now < start + 210000
    → is_rate_limited limited now ≡ true
unfolding is_rate_limited after_error
is_rate_limited_cooldown start from now limited s early =
    let (_, _, kept) = Steps-bound start (start + cooldown_ms) now limited (omega arith) s in
    ground arith
