-- ===== src/Prepare/Steps/Ready.antt =====
-- What a `prepare` that returns has seen.
use message_pusher.Base.{◌≡◌, ap, ◌∙◌, Bool, true, List, [], Option}
use message_pusher.Text.{Text, txt, Env}
use message_pusher.Result.{Result, ok}
use message_pusher.Machine.{Machine}
use message_pusher.Io.{lift}
use message_pusher.Io.Laws.{>>=-eq-ok}
use message_pusher.Prepare.Arch.{requested_platforms}
use message_pusher.Prepare.Daemon.{Waits, Daemon, ensure_daemon}
use message_pusher.Prepare.Daemon.Ready.{SeenBy, ensure_daemon_ready}
use message_pusher.Prepare.Packages.{install_packages, ensure_buildx}
use message_pusher.Prepare.Packages.Buildx.{HasBuildx, ensure_buildx-HasBuildx}
use message_pusher.Prepare.Sources.{
  Applied, proxy_aliases, mirror_proxies, configure_package_sources,
}
use message_pusher.Prepare.Steps.{
  Prepared, prepare_handlers, prepare_platforms, prepare_packages, prepare_sources, prepare,
}

module _ (machine : Machine) (seconds : Text → Option Waits) (read_file : Text → Option Text)
    (env : Env) where
  -- A daemon has answered a look at docker, and this is what it said.
  abbrev pub DaemonAnswered : Text → Bool → Type 0
  DaemonAnswered server started =
      (d : Daemon) × (w : machine.World) × (d.docker.daemon ≡ true)
      × SeenBy machine env w d.docker
      × (d.docker.server ≡ server)
      × (d.started ≡ started)

  abbrev pub AsksFor : Text → List Text → Type 0
  AsksFor table platforms =
      requested_platforms (mirror_proxies proxy_aliases env) read_file table ≡ ok platforms

  ok_injective : (a b : Prepared) → ◌≡◌ {A = Result Prepared} (ok a) (ok b) → a ≡ b
  ok_injective a b e = cc

  prepare_packages-Prepared :
      (table arch : Text) (d : Daemon) (applied : Applied) (env' : Env) (buildx : Text)
      (w : machine.World) (s : Prepared)
      → (prepare_packages machine seconds read_file table arch d applied env' buildx w).1 ≡ ok s
      → (requested_platforms env' read_file table ≡ ok s.platforms)
        × (d.docker.server ≡ s.server)
        × (d.started ≡ s.daemon_started)
  prepare_packages-Prepared table arch d applied env' buildx w s h =
      let asked_packages = install_packages machine (env' (txt "DOCKER_JOB_PACKAGES")) [] in
      let (extra, _, h1, _) =
        >>=-eq-ok asked_packages
          (prepare_platforms machine seconds read_file table arch d applied env' buildx) w h in
      let (platforms, asked, h2, _) =
        >>=-eq-ok (lift (requested_platforms env' read_file table))
          (prepare_handlers machine seconds read_file arch d applied env' buildx extra.packages)
          (asked_packages w).0 h1 in
      let same = ok_injective _ s h2 in
      (
        asked ∙ ap (λ (p : Prepared). ok p.platforms) same,
        ap (λ (p : Prepared). p.server) same,
        ap (λ (p : Prepared). p.daemon_started) same,
      )

  -- If `prepare` returns, then a daemon has answered, which is the one that its summary is about, a
  -- `docker buildx version` has succeeded, and the platforms of the summary are those that are asked
  -- for under the environment with the proxies' lower-case names.
  pub prepare_ready :
      (table arch : Text) (w : machine.World) (s : Prepared)
      → (prepare machine seconds read_file env table arch w).1 ≡ ok s
      → DaemonAnswered s.server s.daemon_started
        × ((wb : machine.World) × HasBuildx machine (mirror_proxies proxy_aliases env) wb)
        × AsksFor table s.platforms
  unfolding prepare configure_package_sources
  prepare_ready table arch w s h =
      let (d, started, h1, _) =
        >>=-eq-ok (ensure_daemon machine env seconds)
          (prepare_sources machine seconds read_file env table arch) w h in
      let w1 = (ensure_daemon machine env seconds w).0 in
      let (w2, (applied, env')) = configure_package_sources machine env w1 in
      let (buildx, built, h2, _) =
        >>=-eq-ok (ensure_buildx machine env')
          (prepare_packages machine seconds read_file table arch d applied env') w2 h1 in
      let w3 = (ensure_buildx machine env' w2).0 in
      let (_, answered, seen) = ensure_daemon_ready machine env seconds w d started in
      let (asked, server, own) =
        prepare_packages-Prepared table arch d applied env' buildx w3 s h2 in
      (
        (d, w1, answered, seen, server, own),
        (w3, ensure_buildx-HasBuildx machine env' w2 buildx built),
        asked,
      )
