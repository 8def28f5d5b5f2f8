-- ===== src/Machine.antt =====
-- The machine under a script: processes, files and the clock. None of it is code of the repository.
use message_pusher.Base.{ℕ, ◌+◌, ◌≤◌, Bool, false, List, Option, none, some, eqb}
use message_pusher.Text.{Text}

-- A call of `spawnSync`: the program, its arguments, and the variables set for it alone.
pub record Command : Type 0 where
  pub program : Text
  pub args : List Text
  pub variables : List (Text × Text)

-- Its result: `none` is a process that was killed or did not start.
pub record Exit : Type 0 where
  pub status : Option ℕ
  pub stdout : Text
  pub stderr : Text

pub record Machine : Type 1 where
  pub World : Type 0
  -- `spawnSync`
  pub run : World → Command → World × Exit
  -- `existsSync`
  pub exists : World → Text → Bool
  -- `process.arch`
  pub arch : Text
  -- `openSync(path, 'a')` succeeds
  pub opens : World → Text → Bool
  -- `spawn('dockerd', args, { detached: true, … })`, and the exit code of the child that was
  -- started last, `none` while it runs
  pub spawn : World → List Text → World
  pub child_exit : World → Option ℕ
  -- `Date.now()`, and waiting for some milliseconds
  pub now : World → ℕ
  pub sleep : World → ℕ → World

-- Documented behaviour: a wait lasts at least as long as it was asked for, and no call sets the
-- clock back.
pub record ClockLaws (machine : Machine) : Type 0 where
  pub sleep_lasts :
      (w : machine.World) (ms : ℕ) → machine.now w + ms ≤ machine.now (machine.sleep w ms)
  pub run_goes_on :
      (w : machine.World) (c : Command) → machine.now w ≤ machine.now (machine.run w c).0

-- `result.status === 0`
unfoldable pub succeeded : Exit → Bool
succeeded e = elim e.status [ none ↦ false | some s ↦ eqb s 0 ]
