-- ===== src/Web/Stream.antt =====
-- web/src/components/MessagesTable.jsx: the message stream (SSE), which is opened again when it breaks.
-- Times are in milliseconds.
pub mod Backoff
use message_pusher.Base.{
  ℕ, zero, suc, ◌+◌, ◌*◌, Bool, true, false, Option, none, some, leb, if◌then◌else◌,
}

abbrev pub first_delay : ℕ
first_delay = 1000

abbrev pub last_delay : ℕ
last_delay = 60000

-- `Math.min(a, b)`
abbrev pub lower : ℕ → ℕ → ℕ
lower a b = if leb a b then a else b

-- The variables of the effect.
pub record Stream : Type 0 where
  -- There is an `eventSource` that is not closed.
  pub connected : Bool
  -- The timer that runs.
  pub retry_timer : Option ℕ
  pub retry_delay : ℕ
  pub retry_notified : Bool
  pub closed : Bool
  -- How often the user was warned.
  pub warnings : ℕ

unfoldable pub connect : Stream → Stream
connect s = if s.closed then s else record s { connected = true }

-- The effect itself.
abbrev pub opened_first : Stream
opened_first = connect record {
  connected = false;
  retry_timer = none;
  retry_delay = first_delay;
  retry_notified = false;
  closed = false;
  warnings = 0;
}

abbrev pub on_open : Stream → Stream
on_open s = record s { retry_delay = first_delay; retry_notified = false }

unfoldable pub on_error : Stream → Stream
on_error s = if s.closed then record s { connected = false } else record s {
  connected = false;
  retry_notified = true;
  warnings = if s.retry_notified then s.warnings else s.warnings + 1;
  retry_timer = some s.retry_delay;
  retry_delay = lower (s.retry_delay * 2) last_delay;
}

-- The timer has run down.
abbrev pub on_timer : Stream → Stream
on_timer s = connect (record s { retry_timer = none })

-- What the effect returns, for the end of the page.
abbrev pub unmount : Stream → Stream
unmount s = record s { closed = true; retry_timer = none; connected = false }
