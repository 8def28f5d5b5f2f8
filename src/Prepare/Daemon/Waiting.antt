-- ===== src/Prepare/Daemon/Waiting.antt =====
-- The loops of `ensureDaemon` end by themselves, unless DOCKER_DIND_WAIT is Infinity.
use message_pusher.Base.{
  ℕ, zero, suc, ◌+◌, ◌≤◌, ◌≡◌, ◌≢◌, false, List, [], ◌∷◌, Option, arith, ltb, some, subst, ◌*◌,
  if◌then◌else◌, inl, inr, Bool-cases,
}
use message_pusher.Text.{Text, txt, Env}
use message_pusher.Result.{err, still_waiting}
use message_pusher.Config.Lists.{read_optional}
use message_pusher.Machine.{Machine, ClockLaws}
use message_pusher.Endpoints.{
  probe_docker, probe_server, has_binary, binary_command, version_command,
}
use message_pusher.Prepare.Daemon.{
  no_rounds, wait_daemon, await, try_drivers, start_daemon, ensure_daemon, has_crashed, poll_ms,
  within, Waits, is_due, wait_of, later_wait, attempts_of, driver_args, log_path_of,
}
use message_pusher.Prepare.Daemon.Ready.{Wait-cases}

module _ (machine : Machine) (laws : ClockLaws machine) (env : Env) where
  has_binary-now :
      (binary : Text) (w : machine.World)
      → machine.now w ≤ machine.now (has_binary machine binary w).0
  unfolding has_binary
  has_binary-now binary w = laws.run_goes_on w (binary_command binary)

  probe_server-now :
      (w : machine.World) → machine.now w ≤ machine.now (probe_server machine env w).0
  unfolding probe_server
  probe_server-now w =
      let first = laws.run_goes_on w version_command in
      let second = has_binary-now (txt "buildx") (machine.run w version_command).0 in omega arith

  probe_docker-now :
      (w : machine.World) → machine.now w ≤ machine.now (probe_docker machine env w).0
  unfolding probe_docker
  probe_docker-now w =
      let first = has_binary-now (txt "docker") w in
      let second = probe_server-now (has_binary machine (txt "docker") w).0 in ground arith

  -- The world in which the next round of the loop begins.
  abbrev next_world : machine.World → machine.World
  next_world w = machine.sleep (probe_docker machine env w).0 poll_ms

  -- A loop that has used up its rounds has gone on from its first one.
  wait_daemon-eq-no_rounds :
      (rounds : ℕ) (deadline : Option ℕ) (w : machine.World)
      → (wait_daemon machine env (suc rounds) deadline w).1 ≡ no_rounds
      → (is_due deadline (machine.now (probe_docker machine env w).0) ≡ false)
        × ((wait_daemon machine env rounds deadline (next_world w)).1 ≡ no_rounds)
  unfolding wait_daemon
  wait_daemon-eq-no_rounds rounds deadline w h =
      let w1 = (probe_docker machine env w).0 in
      let seen = (probe_docker machine env w).1 in
      elim (Bool-cases (has_crashed (machine.child_exit w))) [
        | inl crashed ↦ let h1 = rw crashed at h in cc h1
        | inr running ↦ elim (Bool-cases seen.daemon) [
          | inl reachable ↦ let h1 = rw (running, reachable) at h in cc h1
          | inr silent ↦ elim (Bool-cases (is_due deadline (machine.now w1))) [
            | inl late ↦ let h1 = rw (running, silent, late) at h in cc h1
            | inr early ↦ (early, rw (running, silent, early) at h)
          ]
        ]
      ]

  -- Enough rounds reach the deadline: each that goes on waits.
  wait_daemon-rounds :
      (rounds deadline : ℕ) (w : machine.World)
      → deadline ≤ machine.now w + rounds
      → (wait_daemon machine env (suc rounds) (some deadline) w).1 ≢ no_rounds
  wait_daemon-rounds zero deadline w enough h =
      let (early, _) = wait_daemon-eq-no_rounds zero (some deadline) w h in
      let probed = probe_docker-now w in ground arith
  wait_daemon-rounds (suc rounds) deadline w enough h =
      let (early, h1) = wait_daemon-eq-no_rounds (suc rounds) (some deadline) w h in
      let probed = probe_docker-now w in
      let waited = laws.sleep_lasts (probe_docker machine env w).0 poll_ms in
      wait_daemon-rounds rounds deadline (next_world w) (omega arith) h1

  await-rounds : (ms : ℕ) (w : machine.World) → (await machine env (within ms) w).1 ≢ no_rounds
  unfolding await
  await-rounds ms w = wait_daemon-rounds ms (machine.now w + ms) w (omega arith)

  try_drivers-ends :
      (ms later : ℕ) (drivers : List Text) (w : machine.World)
      → (try_drivers machine env (within ms) (within later) drivers w).1 ≢ err still_waiting
  unfolding try_drivers
  try_drivers-ends ms later [] w h = cc
  try_drivers-ends ms later (driver ∷ drivers) w h =
      let started = machine.spawn w (driver_args driver) in
      let ended = await machine env (within ms) started in
      elim (Bool-cases (machine.opens w (log_path_of env))) [
        | inr closed ↦ let h1 = rw closed at h in cc h1
        | inl open_log ↦ elim (Wait-cases ended.1) [
          | inl (docker, e) ↦ let h1 = rw (open_log, e) at h in cc h1
          | inr (inl e) ↦
              let h1 = rw (open_log, e) at h in try_drivers-ends later later drivers ended.0 h1
          | inr (inr e) ↦ absurd (await-rounds ms started e)
        ]
      ]

  start_daemon-ends :
      (seconds : Text → Option Waits) (w : machine.World) (first half : ℕ)
      → wait_of seconds env ≡ record { first = within first; half = within half }
      → (start_daemon machine env seconds w).1 ≢ err still_waiting
  unfolding start_daemon
  start_daemon-ends seconds w first half finite h =
      let (w1, there) = has_binary machine (txt "dockerd") w in
      let drivers = attempts_of (read_optional (env (txt "DOCKER_DIND_STORAGE_DRIVER"))) in
      elim (Bool-cases there) [
        | inr missing ↦ let h1 = rw missing at h in cc h1
        | inl found ↦
            let h1 = rw found at h in
            try_drivers-ends first (if ltb half 30 then 30000 else half * 1000) drivers w1 (
              subst
                (λ waits.
                  (try_drivers machine env waits.first (later_wait waits.half) drivers w1).1
                  ≡ err still_waiting)
                finite h1)
      ]

  -- Where DOCKER_DIND_WAIT comes to a finite time, no wait is shorter than it was asked for and the
  -- clock is not set back, `ensureDaemon` ends: the number of rounds that each wait for `dockerd` is
  -- given here is never used up.
  pub ensure_daemon_ends :
      (seconds : Text → Option Waits) (w : machine.World) (first half : ℕ)
      → wait_of seconds env ≡ record { first = within first; half = within half }
      → (ensure_daemon machine env seconds w).1 ≢ err still_waiting
  unfolding ensure_daemon
  ensure_daemon_ends seconds w first half finite h =
      let seen = (probe_docker machine env w).1 in
      elim (Bool-cases seen.cli) [
        | inr none_there ↦ let h1 = rw none_there at h in cc h1
        | inl there ↦ elim (Bool-cases seen.daemon) [
          | inl reachable ↦ let h1 = rw (there, reachable) at h in cc h1
          | inr silent ↦
              let h1 = rw (there, silent) at h in
              start_daemon-ends seconds (probe_docker machine env w).0 first half finite h1
        ]
      ]
