-- ===== src/Prepare/Daemon/Ready.antt =====
-- What `ensureDaemon` returns is a daemon that has answered.
use message_pusher.Base.{
  ℕ, zero, suc, ◌≡◌, ◌⊎◌, refl, ap, true, false, List, [], ◌∷◌, Option, some, none, ◌+◌, arith, inl,
  inr, Bool-cases,
}
use message_pusher.Text.{Text, txt, Env}
use message_pusher.Result.{Result, ok}
use message_pusher.Config.Lists.{read_optional}
use message_pusher.Machine.{Machine}
use message_pusher.Endpoints.{DockerProbe, probe_docker, probe_server, has_binary}
use message_pusher.Prepare.Daemon.{
  Daemon, Limit, within, unending, Waits, is_due, Wait, up, gave_up, no_rounds, wait_daemon, await,
  try_drivers, start_daemon, ensure_daemon, has_crashed, poll_ms, wait_of, later_wait, attempts_of,
  driver_args, log_path_of, started_with,
}

up_injective : (a b : DockerProbe) → up a ≡ up b → a ≡ b
up_injective a b e = cc

ok_injective : (a b : Daemon) → ◌≡◌ {A = Result Daemon} (ok a) (ok b) → a ≡ b
ok_injective a b e = cc

pub Wait-cases : (o : Wait) → ((d : DockerProbe) × (o ≡ up d)) ⊎ (o ≡ gave_up) ⊎ (o ≡ no_rounds)
Wait-cases (up d) = inl (d, refl)
Wait-cases gave_up = inr (inl refl)
Wait-cases no_rounds = inr (inr refl)

module _ (machine : Machine) (env : Env) where
  -- A daemon is only ever seen by way of the command.
  pub probe_docker-cli :
      (w : machine.World)
      → (probe_docker machine env w).1.daemon ≡ true
      → (probe_docker machine env w).1.cli ≡ true
  unfolding probe_docker probe_server
  probe_docker-cli w h = ground arith

  -- The last look of a run: the probe that the world was left by.
  abbrev pub SeenBy : machine.World → DockerProbe → Type 0
  SeenBy w docker = (before : machine.World) × (probe_docker machine env before ≡ (w, docker))

  wait_daemon-up :
      (rounds : ℕ) (deadline : Option ℕ) (w : machine.World) (docker : DockerProbe)
      → (wait_daemon machine env rounds deadline w).1 ≡ up docker
      → (docker.daemon ≡ true) × SeenBy (wait_daemon machine env rounds deadline w).0 docker
  unfolding wait_daemon
  wait_daemon-up zero deadline w docker h = cc
  wait_daemon-up (suc rounds) deadline w docker h =
      let w1 = (probe_docker machine env w).0 in
      let seen = (probe_docker machine env w).1 in
      elim (Bool-cases (has_crashed (machine.child_exit w))) [
        | inl crashed ↦ let h1 = rw crashed at h in cc h1
        | inr running ↦ elim (Bool-cases seen.daemon) [
          | inl reachable ↦
              let h1 = rw (running, reachable) at h in
              let same : seen ≡ docker = up_injective seen docker h1 in
              rw (running, reachable) (rw (← same) (reachable, (w, refl)))
          | inr silent ↦ elim (Bool-cases (is_due deadline (machine.now w1))) [
            | inl late ↦ let h1 = rw (running, silent, late) at h in cc h1
            | inr early ↦
                let h1 = rw (running, silent, early) at h in
                rw (running, silent, early)
                  (wait_daemon-up rounds deadline (machine.sleep w1 poll_ms) docker h1)
          ]
        ]
      ]

  await-up :
      (limit : Limit) (w : machine.World) (docker : DockerProbe)
      → (await machine env limit w).1 ≡ up docker
      → (docker.daemon ≡ true) × SeenBy (await machine env limit w).0 docker
  unfolding await
  await-up (within ms) w docker h = wait_daemon-up (suc ms) (some (machine.now w + ms)) w docker h
  await-up (unending watched) w docker h = wait_daemon-up watched none w docker h

  IsReady : machine.World → Daemon → Type 0
  IsReady w d = (d.docker.daemon ≡ true) × SeenBy w d.docker

  try_drivers-IsReady :
      (ms later : Limit) (drivers : List Text) (w : machine.World) (d : Daemon)
      → (try_drivers machine env ms later drivers w).1 ≡ ok d
      → IsReady (try_drivers machine env ms later drivers w).0 d
  unfolding try_drivers IsReady
  try_drivers-IsReady ms later [] w d h = cc
  try_drivers-IsReady ms later (driver ∷ drivers) w d h =
      let ended = await machine env ms (machine.spawn w (driver_args driver)) in
      elim (Bool-cases (machine.opens w (log_path_of env))) [
        | inr closed ↦ let h1 = rw closed at h in cc h1
        | inl open_log ↦ elim (Wait-cases ended.1) [
          | inl (docker, e) ↦
              let h1 = rw (open_log, e) at h in
              let same : started_with machine env driver docker ≡ d = ok_injective _ d h1 in
              rw (open_log, e)
                (rw (← same) (await-up ms (machine.spawn w (driver_args driver)) docker e))
          | inr (inl e) ↦
              let h1 = rw (open_log, e) at h in
              rw (open_log, e) (try_drivers-IsReady later later drivers ended.0 d h1)
          | inr (inr e) ↦ let h1 = rw (open_log, e) at h in cc h1
        ]
      ]

  start_daemon-IsReady :
      (seconds : Text → Option Waits) (w : machine.World) (d : Daemon)
      → (start_daemon machine env seconds w).1 ≡ ok d
      → IsReady (start_daemon machine env seconds w).0 d
  unfolding start_daemon
  start_daemon-IsReady seconds w d h =
      let (w1, there) = has_binary machine (txt "dockerd") w in
      let driver = read_optional (env (txt "DOCKER_DIND_STORAGE_DRIVER")) in
      elim (Bool-cases (has_binary machine (txt "dockerd") w).1) [
        | inr missing ↦ let h1 = rw missing at h in cc h1
        | inl found ↦ rw found (
            try_drivers-IsReady (wait_of seconds env).first (later_wait (wait_of seconds env).half)
              (attempts_of driver) (has_binary machine (txt "dockerd") w).0 d (rw found at h))
      ]

  -- If `ensureDaemon` returns, the last thing that it has done is a look at docker, which is what it
  -- returns: the command was there, and a daemon has answered.
  pub ensure_daemon_ready :
      (seconds : Text → Option Waits) (w : machine.World) (d : Daemon)
      → (ensure_daemon machine env seconds w).1 ≡ ok d
      → (d.docker.cli ≡ true)
        × (d.docker.daemon ≡ true)
        × SeenBy (ensure_daemon machine env seconds w).0 d.docker
  unfolding ensure_daemon IsReady
  ensure_daemon_ready seconds w d h =
      let seen = (probe_docker machine env w).1 in
      elim (Bool-cases seen.cli) [
        | inr none_there ↦ let h1 = rw none_there at h in cc h1
        | inl there ↦ elim (Bool-cases seen.daemon) [
          | inl reachable ↦
              let h1 = rw (there, reachable) at h in
              let found : Daemon = record {
                docker = seen;
                started = false;
                driver = [];
                log = [];
              } in
              let same : found ≡ d = ok_injective found d h1 in
              rw (there, reachable) (rw (← same) (there, reachable, (w, refl)))
          | inr silent ↦
              let h1 = rw (there, silent) at h in
              let (up_now, (before, e)) =
                start_daemon-IsReady seconds (probe_docker machine env w).0 d h1 in
              let shown : (probe_docker machine env before).1 ≡ d.docker = ap (λ p. p.1) e in
              let cli_there : d.docker.cli ≡ true =
                rw (← shown) (probe_docker-cli before (rw (shown) up_now)) in
              rw (there, silent) (cli_there, up_now, (before, e))
        ]
      ]
