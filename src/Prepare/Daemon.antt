-- ===== src/Prepare/Daemon.antt =====
-- `ensureDaemon` of .forgejo/scripts/prepare.mjs: a reachable docker daemon, started if need be.
pub mod Ready
pub mod Waiting
use message_pusher.Base.{
  ℕ, zero, suc, ◌+◌, ◌-◌, ◌*◌, ◌/◌, Bool, true, false, not, ◌||◌, List, [], ◌∷◌, ◌++◌, Option, none,
  some, eqb, leb, ltb, is_empty, if◌then◌else◌,
}
use message_pusher.Text.{Text, txt, Env, or_text}
use message_pusher.Result.{
  Result, ok, err, no_docker_command, no_daemon, log_closed, daemon_failed, still_waiting,
}
use message_pusher.Config.Lists.{read_optional}
use message_pusher.Machine.{Machine}
use message_pusher.Endpoints.{DockerProbe, probe_docker, has_binary}
use message_pusher.Io.{Io, ◌>>=◌, ◌>>◌, give, throw, always}

-- What `ensureDaemon` returns.
pub record Daemon : Type 0 where
  pub docker : DockerProbe
  pub started : Bool
  pub driver : Text
  pub log : Text

-- How a wait for the daemon has ended: it is reachable, the child or the time is gone, or the
-- rounds counted out here have been used up (see Waiting).
pub data Wait : Type 0 where
  up : DockerProbe → Wait
  gave_up : Wait
  no_rounds : Wait

-- `child.exitCode !== null && child.exitCode !== 0`
abbrev pub has_crashed : Option ℕ → Bool
has_crashed none = false
has_crashed (some code) = not (eqb code 0)

abbrev pub poll_ms : ℕ
poll_ms = 2000

-- `explicitDriver ? [explicitDriver] : ['', 'vfs']`
abbrev pub attempts_of : Text → List Text
attempts_of driver = if is_empty driver then [] ∷ txt "vfs" ∷ [] else driver ∷ []

abbrev pub driver_args : Text → List Text
driver_args driver = if is_empty driver then [] else (txt "--storage-driver=" ++ driver) ∷ []

-- How long a wait may last: so many milliseconds, or without an end. Of a wait without an end the model
-- watches a number of rounds.
pub data Limit : Type 0 where
  within : (ms : ℕ) → Limit
  unending : (watched : ℕ) → Limit

-- What is made of `waitSeconds`: `waitSeconds * 1000` milliseconds, rounded up, as the clock shows whole
-- ones, for the first attempt, and `Math.round(waitSeconds / 2)` seconds.
pub record Waits : Type 0 where
  pub first : Limit
  pub half : Limit

-- The attempts after the first: `Math.max(30, half) * 1000`.
abbrev pub later_wait : Limit → Limit
later_wait (within half) = within (if ltb half 30 then 30000 else half * 1000)
later_wait (unending watched) = unending watched

-- `waits` is the arithmetic on `Number(text)`, if that is above 0; it may be Infinity.
abbrev pub wait_of : (Text → Option Waits) → Env → Waits
wait_of waits env = elim (waits (read_optional (env (txt "DOCKER_DIND_WAIT")))) [
  | none ↦ record { first = within 90000; half = within 45 }
  | some given ↦ given
]

-- `Date.now() >= deadline`; a deadline at Infinity is `none`.
abbrev pub is_due : Option ℕ → ℕ → Bool
is_due none now = false
is_due (some deadline) now = leb deadline now

abbrev pub log_path_of : Env → Text
log_path_of env = or_text (read_optional (env (txt "DOCKER_DIND_LOG"))) (txt "/var/log/dockerd.log")

module _ (machine : Machine) (env : Env) where
  -- The inner loop, for a number of rounds.
  unfoldable pub wait_daemon : ℕ → Option ℕ → machine.World → machine.World × Wait
  wait_daemon zero deadline w = (w, no_rounds)
  wait_daemon (suc rounds) deadline w =
      let (w1, docker) = probe_docker machine env w in
      let rest = wait_daemon rounds deadline (machine.sleep w1 poll_ms) in
      if has_crashed (machine.child_exit w)
      then (w, gave_up)
      else if docker.daemon
      then (w1, up docker)
      else if is_due deadline (machine.now w1)
      then (w1, gave_up)
      else rest

  -- One round for each millisecond until the deadline, and one for the last look.
  unfoldable pub await : Limit → machine.World → machine.World × Wait
  await (within ms) w = wait_daemon (suc ms) (some (machine.now w + ms)) w
  await (unending watched) w = wait_daemon watched none w

  abbrev pub started_with : Text → DockerProbe → Daemon
  started_with driver docker = record {
    docker = docker;
    started = true;
    driver = driver;
    log = log_path_of env;
  }

  -- The outer loop; `ms` is the time of the attempt that is next, `later` that of the others.
  unfoldable pub try_drivers : Limit → Limit → List Text → Io machine.World Daemon
  try_drivers ms later [] w = (w, err (daemon_failed (log_path_of env)))
  try_drivers ms later (driver ∷ drivers) w =
      let ended = await ms (machine.spawn w (driver_args driver)) in
      let rest = try_drivers later later drivers ended.0 in
      if machine.opens w (log_path_of env)
      then elim ended.1 [
        | up docker ↦ (ended.0, ok (started_with driver docker))
        | gave_up ↦ rest
        | no_rounds ↦ (ended.0, err still_waiting)
      ]
      else (w, err (log_closed (log_path_of env)))

  unfoldable pub start_daemon : (Text → Option Waits) → Io machine.World Daemon
  start_daemon seconds w =
      let (w1, there) = has_binary machine (txt "dockerd") w in
      let waits = wait_of seconds env in
      let started =
        try_drivers waits.first (later_wait waits.half)
          (attempts_of (read_optional (env (txt "DOCKER_DIND_STORAGE_DRIVER")))) w1 in
      if there then started else (w1, err no_daemon)

  unfoldable pub ensure_daemon : (Text → Option Waits) → Io machine.World Daemon
  ensure_daemon seconds w =
      let (w1, docker) = probe_docker machine env w in
      let found : Daemon = record { docker = docker; started = false; driver = []; log = [] } in
      let started = start_daemon seconds w1 in
      if not docker.cli
      then (w1, err no_docker_command)
      else if docker.daemon
      then (w1, ok found)
      else started
