-- ===== src/Prepare/Steps.antt =====
-- `prepare` of .forgejo/scripts/prepare.mjs: its steps in order, and the summary it returns.
pub mod Ready
use message_pusher.Base.{ℕ, Bool, true, false, List, [], ◌∷◌, ◌++◌, Option, is_empty, if◌then◌else◌}
use message_pusher.Text.{Text, txt, Env, join}
use message_pusher.Machine.{Machine}
use message_pusher.Result.{Result, ok}
use message_pusher.Io.{Io, ◌>>=◌, lift}
use message_pusher.Prepare.Arch.{requested_platforms, host_arch}
use message_pusher.Prepare.Daemon.{Waits, Daemon, ensure_daemon}
use message_pusher.Prepare.Packages.{Installed, install_packages, ensure_buildx}
use message_pusher.Prepare.Sources.{Applied, configure_package_sources}
use message_pusher.Prepare.Binfmt.{Binfmt, ensure_binfmt}

pub record Prepared : Type 0 where
  pub server : Text
  pub daemon_started : Bool
  pub buildx : Text
  pub packages : List Text
  pub package_sources : Applied
  pub platforms : List Text
  pub binfmt : Text

abbrev pub binfmt_state : Binfmt → Text
binfmt_state b =
    if b.skipped
    then txt "skipped"
    else if is_empty b.remaining
    then txt "ok"
    else txt "missing:" ++ join (txt ",") b.remaining

module _ (machine : Machine) (seconds : Text → Option Waits) (read_file : Text → Option Text) where
  -- `arch || hostArch(run)`
  abbrev pub host_of : Text → machine.World → machine.World × Text
  host_of arch w = let found = host_arch machine w in if is_empty arch then found else (w, arch)

  -- The steps after the package sources, the last one first; `env` is the environment they leave.
  abbrev pub prepare_handlers :
      Text → Daemon → Applied → Env → Text → List Text → List Text → Io machine.World Prepared
  prepare_handlers arch daemon applied env buildx packages platforms w =
      let (w1, host) = host_of arch w in
      let (w2, binfmt) = ensure_binfmt machine env host platforms w1 in
      (
        w2,
        ok (record {
          server = daemon.docker.server;
          daemon_started = daemon.started;
          buildx = buildx;
          packages = packages;
          package_sources = applied;
          platforms = platforms;
          binfmt = binfmt_state binfmt;
        }),
      )

  abbrev pub prepare_platforms :
      Text → Text → Daemon → Applied → Env → Text → Installed → Io machine.World Prepared
  prepare_platforms table arch daemon applied env buildx extra = do
    platforms ← lift (requested_platforms env read_file table)
    prepare_handlers arch daemon applied env buildx extra.packages platforms

  abbrev pub prepare_packages :
      Text → Text → Daemon → Applied → Env → Text → Io machine.World Prepared
  prepare_packages table arch daemon applied env buildx = do
    extra ← install_packages machine (env (txt "DOCKER_JOB_PACKAGES")) []
    prepare_platforms table arch daemon applied env buildx extra

  abbrev pub prepare_sources : Env → Text → Text → Daemon → Io machine.World Prepared
  prepare_sources env table arch daemon w =
      let (w', (applied, env')) = configure_package_sources machine env w in
      (ensure_buildx machine env' >>= prepare_packages table arch daemon applied env') w'

  unfoldable pub prepare : Env → Text → Text → Io machine.World Prepared
  prepare env table arch = ensure_daemon machine env seconds >>= prepare_sources env table arch
