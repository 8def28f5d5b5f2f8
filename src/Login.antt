-- ===== src/Login.antt =====
-- .forgejo/scripts/login.mjs: `docker login` for every registry that has credentials.
pub mod Calls
use message_pusher.Base.{
  ℕ, Bool, true, false, List, [], ◌∷◌, ◌++◌, map, Option, none, some, eqb, is_empty, filter,
  if◌then◌else◌,
}
use message_pusher.Text.{Text, txt, Env}
use message_pusher.Config.Lists.{or_empty, is_nonempty}
use message_pusher.Config.Images.{Registry}
use message_pusher.State.{State}
use message_pusher.Docker.{exit_status}

-- What is not code of the repository: `spawnSync('docker', argv, { input })`.
pub record Client : Type 1 where
  pub World : Type 0
  pub run : World → List Text → Text → World × Option ℕ

unfoldable pub login_argv : Registry → List Text
login_argv r = txt "login" ∷ r.registry ∷ txt "-u" ∷ r.user ∷ txt "--password-stdin" ∷ []

unfoldable pub plan_logins : State → List Registry
plan_logins state = filter (λ (r : Registry). r.enabled) state.registries

unfoldable pub mask_commands : List Text → List Text
mask_commands tokens = map (λ token. txt "::add-mask::" ++ token) (filter is_nonempty tokens)

-- `process.env[entry.tokenVar] || ''`
abbrev pub token_of : Env → Registry → Text
token_of env r = or_empty (env r.token_var)

-- A call: the command line, and what the command reads from its standard input.
abbrev pub Call : Type 0
Call = List Text × Text

abbrev pub call_of : Env → Registry → Call
call_of env r = (login_argv r, token_of env r ++ txt "\n")

-- What the program does outside: a line for the runner, or a call of docker.
pub data Step : Type 0 where
  masked : (line : Text) → Step
  called : (call : Call) → Step

module _ (client : Client) where
  -- What `main` leaves behind: the exit code, what it has done in order, and the world.
  pub record LoginOutcome : Type 0 where
    pub code : ℕ
    pub steps : List Step
    pub world : client.World

  abbrev pub stop : LoginOutcome → LoginOutcome
  stop o = record o { code = 1 }

  -- The loop over the plan; a missing token is an exception of `login`.
  unfoldable pub login_each : Env → List Registry → LoginOutcome → LoginOutcome
  login_each env [] o = o
  login_each env (r ∷ plan) o =
      let call = call_of env r in
      let (w, status) = client.run o.world call.0 call.1 in
      let next : LoginOutcome = record o { steps = o.steps ++ called call ∷ []; world = w } in
      let rest = login_each env plan next in
      if is_empty (token_of env r)
      then stop o
      else if eqb (exit_status status) 0
      then rest
      else stop next

  unfoldable pub login_main : Env → State → client.World → LoginOutcome
  login_main env state w =
      let plan = plan_logins state in
      let start : LoginOutcome = record { code = 0; steps = []; world = w } in
      let begun : LoginOutcome = record start {
        steps = map masked (mask_commands (map (token_of env) plan));
      } in
      let run = login_each env plan begun in
      if state.dry_run then start else if is_empty plan then stop start else run
