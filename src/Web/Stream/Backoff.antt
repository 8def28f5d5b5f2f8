-- ===== src/Web/Stream/Backoff.antt =====
-- When the stream of web/src/components/MessagesTable.jsx is opened again.
use message_pusher.Base.{
  ℕ, zero, suc, ◌+◌, ◌*◌, ◌≡◌, refl, sym, ap, subst, ◌∙◌, true, false, none, some, arith, inl, inr,
  Bool-cases, if_false, if◌then◌else◌,
}
use message_pusher.Web.Stream.{
  last_delay, lower, Stream, connect, opened_first, on_open, on_error, on_timer, unmount,
}

-- What a page goes through, with the number of failures since the stream was last open. Only a
-- source that is not closed opens or fails, and only a timer that runs goes off.
pub data Reached : ℕ → Stream → Type 0 where
  mounted : Reached 0 opened_first
  opens : (k : ℕ) (s : Stream) → Reached k s → s.connected ≡ true → Reached 0 (on_open s)
  fails : (k : ℕ) (s : Stream) → Reached k s → s.connected ≡ true → Reached (suc k) (on_error s)
  goes_off :
      (k delay : ℕ) (s : Stream) → Reached k s → s.retry_timer ≡ some delay → Reached k (on_timer s)
  leaves : (k : ℕ) (s : Stream) → Reached k s → Reached k (unmount s)

-- 2 ^ k
abbrev pub doubled : ℕ → ℕ
doubled zero = 1
doubled (suc k) = 2 * doubled k

-- The pause before the attempt that follows k failures and one more.
abbrev pub backoff : ℕ → ℕ
backoff k = lower (1000 * doubled k) last_delay

backoff-suc : (k : ℕ) → lower (backoff k * 2) last_delay ≡ backoff (suc k)
backoff-suc k = ground arith

-- What holds of a stream after k failures.
pub data Phase : ℕ → Stream → Type 0 where
  is_connected :
      (k : ℕ) (s : Stream)
      → s.closed ≡ false
      → s.connected ≡ true
      → s.retry_timer ≡ none
      → Phase k s
  waits :
      (k : ℕ) (s : Stream)
      → s.closed ≡ false
      → s.connected ≡ false
      → s.retry_timer ≡ some (backoff k)
      → Phase (suc k) s
  is_left :
      (k : ℕ) (s : Stream)
      → s.closed ≡ true
      → s.connected ≡ false
      → s.retry_timer ≡ none
      → Phase k s

connect-Phase : (k : ℕ) (s : Stream) → s.closed ≡ false → s.retry_timer ≡ none → Phase k (connect s)
unfolding connect
connect-Phase k s here quiet =
    let linked = record s { connected = true } in
    subst (Phase k) (sym (if_false s linked s.closed here)) (is_connected k linked here refl quiet)

on_error-Phase :
    (k : ℕ) (s : Stream)
    → s.retry_delay ≡ backoff k
    → s.connected ≡ true
    → Phase k s
    → ((on_error s).retry_delay ≡ backoff (suc k)) × Phase (suc k) (on_error s)
unfolding on_error
on_error-Phase k s d c (is_connected _ _ here _ quiet) =
    let waiting = record s {
      connected = false;
      retry_notified = true;
      warnings = if s.retry_notified then s.warnings else s.warnings + 1;
      retry_timer = some s.retry_delay;
      retry_delay = lower (s.retry_delay * 2) last_delay;
    } in
    let next : waiting.retry_delay ≡ backoff (suc k) =
      ap (λ n. lower (n * 2) last_delay) d ∙ backoff-suc k in
    subst (λ t. (t.retry_delay ≡ backoff (suc k)) × Phase (suc k) t)
      (sym (if_false (record s { connected = false }) waiting s.closed here))
      (next, waits k waiting here refl (ap some d))
on_error-Phase k s d c (waits _ _ here broken timer) =
    let wrong : true ≡ false = sym c ∙ broken in cc wrong
on_error-Phase k s d c (is_left _ _ gone broken quiet) =
    let wrong : true ≡ false = sym c ∙ broken in cc wrong

on_open-Phase : (k : ℕ) (s : Stream) → s.connected ≡ true → Phase k s → Phase 0 (on_open s)
on_open-Phase k s c (is_connected _ _ here linked quiet) =
    is_connected 0 (on_open s) here linked quiet
on_open-Phase k s c (waits _ _ here broken timer) =
    let wrong : true ≡ false = sym c ∙ broken in cc wrong
on_open-Phase k s c (is_left _ _ gone broken quiet) =
    let wrong : true ≡ false = sym c ∙ broken in cc wrong

connect-delay : (s : Stream) → (connect s).retry_delay ≡ s.retry_delay
unfolding connect
connect-delay s = elim (Bool-cases s.closed) [
  | inl gone ↦ rw (connect, gone) refl
  | inr here ↦ rw (connect, here) refl
]

on_timer-Phase :
    (k delay : ℕ) (s : Stream)
    → s.retry_delay ≡ backoff k
    → s.retry_timer ≡ some delay
    → Phase k s
    → ((on_timer s).retry_delay ≡ backoff k) × Phase k (on_timer s)
on_timer-Phase k delay s d t (waits before _ here broken timer) = (
  connect-delay (record s { retry_timer = none }) ∙ d,
  connect-Phase k (record s { retry_timer = none }) here refl,
)
on_timer-Phase k delay s d t (is_connected _ _ here linked quiet) =
    let wrong : some delay ≡ none = sym t ∙ quiet in cc wrong
on_timer-Phase k delay s d t (is_left _ _ gone broken quiet) =
    let wrong : some delay ≡ none = sym t ∙ quiet in cc wrong

-- After k failures since the stream was last open: the next pause is 1000 * 2 ^ k milliseconds, at
-- most 60000. As long as the page is there, either a source is connected and no timer runs, or no
-- source is connected and one timer runs, for the pause of the last failure. Once the page is left,
-- no source is connected and no timer runs.
pub Reached-Phase : (k : ℕ) (s : Stream) → Reached k s → (s.retry_delay ≡ backoff k) × Phase k s
unfolding connect
Reached-Phase _ _ mounted = (refl, is_connected 0 opened_first refl refl refl)
Reached-Phase _ _ (opens k s r c) =
    let (d, phase) = Reached-Phase k s r in (refl, on_open-Phase k s c phase)
Reached-Phase _ _ (fails k s r c) =
    let (d, phase) = Reached-Phase k s r in on_error-Phase k s d c phase
Reached-Phase _ _ (goes_off k delay s r t) =
    let (d, phase) = Reached-Phase k s r in on_timer-Phase k delay s d t phase
Reached-Phase _ _ (leaves k s r) =
    let (d, phase) = Reached-Phase k s r in (d, is_left k (unmount s) refl refl refl)
