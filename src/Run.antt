-- ===== src/Run.antt =====
-- .forgejo/scripts/run.mjs: the entry point that the workflow calls with the name of a subcommand.
pub mod Complete
use message_pusher.Base.{
  ℕ, ◌-◌, take, length, Bool, true, false, not, List, [], ◌∷◌, ◌++◌, map, Option, none, some,
  filter, is_empty, if◌then◌else◌,
}
use message_pusher.Text.{Text, txt, Env, ◌==◌, includes, ends_with, drop_end_while, or_text}
use message_pusher.Config.Lists.{or_empty}
use message_pusher.Config.Images.{is_slash}
use message_pusher.Paths.{Paths}
use message_pusher.Machine.{Machine, Command, Exit}
use message_pusher.Endpoints.{probe_docker}

-- PROGRAMS
abbrev pub programs : List (Text × Text)
programs =
    (txt "locate-action", txt "locate-action.mjs")
    ∷ (txt "plan-matrix", txt "matrix.mjs")
    ∷ (txt "prepare", txt "prepare.mjs")
    ∷ (txt "resolve", txt "resolve.mjs")
    ∷ (txt "preflight", txt "preflight.mjs")
    ∷ (txt "login", txt "login.mjs")
    ∷ (txt "meta", txt "meta.mjs")
    ∷ (txt "build-push", txt "build-push.mjs")
    ∷ (txt "publish", txt "publish.mjs")
    ∷ (txt "summary", txt "summary.mjs")
    ∷ []

-- REQUIRED_SCRIPTS
abbrev pub required_scripts : List Text
required_scripts =
    txt "endpoints.mjs"
    ∷ txt "locate-action.mjs"
    ∷ txt "run.mjs"
    ∷ txt "config.mjs"
    ∷ txt "matrix.mjs"
    ∷ txt "prepare.mjs"
    ∷ txt "resolve.mjs"
    ∷ txt "preflight.mjs"
    ∷ txt "login.mjs"
    ∷ txt "meta.mjs"
    ∷ txt "build-push.mjs"
    ∷ txt "publish.mjs"
    ∷ txt "summary.mjs"
    ∷ []

-- SUBCOMMANDS
abbrev pub subcommands : List Text
subcommands =
    txt "locate-action"
    ∷ txt "verify-action"
    ∷ txt "plan-matrix"
    ∷ txt "prepare"
    ∷ txt "resolve"
    ∷ txt "preflight"
    ∷ txt "login"
    ∷ txt "meta"
    ∷ txt "build-push"
    ∷ txt "publish"
    ∷ txt "summary"
    ∷ []

-- `PROGRAMS[name]`; `none` is undefined
unfoldable pub program_of : List (Text × Text) → Text → Option Text
program_of [] name = none
program_of ((n, file) ∷ table) name = if n == name then some file else program_of table name

-- The process of run.mjs: `HERE`, and `process.cwd()`.
pub record Process : Type 0 where
  pub here : Text
  pub cwd : Text

-- A call of `spawn` with the node that runs: the program's file and its working directory.
pub record Spawn : Type 0 where
  pub file : Text
  pub cwd : Text

-- What a dispatch comes to: an exit code of its own, or that of the process it runs.
pub data Outcome : Type 0 where
  exits : (code : ℕ) → Outcome
  runs : (child : Spawn) → Outcome

-- `workspaceDir`
unfoldable pub workspace_dir : Process → Env → Text
workspace_dir process env =
    drop_end_while is_slash (or_text (or_empty (env (txt "GITHUB_WORKSPACE"))) process.cwd)

-- `HERE.replace(/\/scripts$/, '')`
abbrev pub strip_scripts : Text → Text
strip_scripts here = if ends_with here (txt "/scripts") then take (length here - 8) here else here

-- The exit code that `runCommand` resolves to: `none` is a child that did not start, and a child
-- that was killed has no code.
unfoldable pub run_command_code : Option (Option ℕ) → ℕ
run_command_code none = 127
run_command_code (some none) = 1
run_command_code (some (some code)) = code

-- `join(dir, 'scripts', name)`
abbrev pub script_path : Paths → Text → Text → Text
script_path paths dir name = paths.join_path (paths.join_path dir (txt "scripts")) name

module _ (machine : Machine) (paths : Paths) (process : Process) where
  -- `runSubprocessProgram`; `join(HERE, undefined)` throws, and the last line exits with 1
  unfoldable pub run_subprocess_program : Text → Env → machine.World → Outcome
  run_subprocess_program name env w = elim (program_of programs name) [
    | none ↦ exits 1
    | some program ↦
        let path = paths.join_path process.here program in
        let child : Spawn = record { file = path; cwd = workspace_dir process env } in
        if machine.exists w path then runs child else exits 1
  ]

  -- `(env.GITHUB_ACTION_PATH || HERE.replace(/\/scripts$/, '')).replace(/\/+$/, '')`
  abbrev pub action_dir : Env → Text
  action_dir env =
      drop_end_while is_slash
        (or_text (or_empty (env (txt "GITHUB_ACTION_PATH"))) (strip_scripts process.here))

  abbrev pub missing_scripts : Text → machine.World → List Text
  missing_scripts dir w =
      filter (λ name. not (machine.exists w (script_path paths dir name))) required_scripts

  -- `verifyAction`; the look at docker is only printed
  unfoldable pub verify_action : Env → machine.World → machine.World × ℕ
  verify_action env w =
      let probed = (probe_docker machine env w).0 in
      if is_empty (missing_scripts (action_dir env) w) then (probed, 0) else (w, 1)

  unfoldable pub dispatch : Text → Env → machine.World → machine.World × Outcome
  dispatch name env w =
      let (w', code) = verify_action env w in
      let run = run_subprocess_program name env w in
      if not (includes subcommands name)
      then (w, exits 2)
      else if name == txt "verify-action"
      then (w', exits code)
      else (w, run)
