-- ===== src/Run/Complete.antt =====
-- After `verify-action`, every subcommand finds its program.
use message_pusher.Base.{
  ℕ, ◌≡◌, ◌≢◌, refl, ap, Bool, true, false, not, ◌||◌, Option, none, some, all, filter-eq-nil,
  is_empty, IsIn, inl, inr, Bool-cases, Option-cases, subst, all-IsIn, is_empty-eq-true,
}
use message_pusher.Text.{Text, txt, Env, ◌==◌, includes, drop_end_while}
use message_pusher.Text.Laws.{==_false, includes_iff, includes-eq-false}
use message_pusher.Paths.{Paths}
use message_pusher.Machine.{Machine}
use message_pusher.Run.{
  programs, required_scripts, subcommands, program_of, Process, Spawn, exits, runs, workspace_dir,
  run_subprocess_program, action_dir, script_path, missing_scripts, verify_action, dispatch,
}

-- A subcommand has a program that is among the required scripts.
abbrev is_required : Option Text → Bool
is_required none = false
is_required (some file) = includes required_scripts file

abbrev is_served : Text → Bool
is_served name = name == txt "verify-action" || is_required (program_of programs name)

all_served : all is_served subcommands ≡ true
unfolding ◌==◌ includes program_of
all_served = refl

program_of_subcommand :
    (name : Text)
    → IsIn name subcommands
    → name ≢ txt "verify-action"
    → (file : Text) × (program_of programs name ≡ some file) × IsIn file required_scripts
program_of_subcommand name i other =
    let served : (name == txt "verify-action" || is_required (program_of programs name)) ≡ true =
      all-IsIn is_served subcommands name all_served i in
    let has : is_required (program_of programs name) ≡ true =
      rw (==_false name (txt "verify-action") other) at served in
    elim (Option-cases (program_of programs name)) [
      | inl missing ↦
          let wrong : is_required none ≡ true = subst (λ o. is_required o ≡ true) missing has in
          cc wrong
      | inr (file, found) ↦
          let listed : is_required (some file) ≡ true =
            subst (λ o. is_required o ≡ true) found has in
          (file, found, (includes_iff required_scripts file).0 listed)
    ]

module _ (machine : Machine) (paths : Paths) (process : Process) where
  verify_action-IsIn :
      (env : Env) (w : machine.World) (file : Text)
      → (verify_action machine paths process env w).1 ≡ 0
      → IsIn file required_scripts
      → machine.exists w (script_path paths (action_dir machine paths process env) file) ≡ true
  unfolding verify_action
  verify_action-IsIn env w file h i =
      let dir = action_dir machine paths process env in
      elim (Bool-cases (is_empty (missing_scripts machine paths process dir w))) [
        | inr some_missing ↦ let h1 = rw some_missing at h in cc h1
        | inl none_missing ↦
            let there =
              filter-eq-nil (λ name. not (machine.exists w (script_path paths dir name)))
                required_scripts
                (is_empty-eq-true (missing_scripts machine paths process dir w) none_missing) file
                i in
            not-eq-false _ there
      ]
    where
      not-eq-false : (b : Bool) → not b ≡ false → b ≡ true
      not-eq-false true e = refl
      not-eq-false false e = cc

  run_subprocess_program-runs :
      (env : Env) (w : machine.World) (name file : Text)
      → program_of programs name ≡ some file
      → machine.exists w (paths.join_path process.here file) ≡ true
      → run_subprocess_program machine paths process name env w
        ≡ runs
            (record { file = paths.join_path process.here file; cwd = workspace_dir process env })
  unfolding run_subprocess_program program_of workspace_dir ◌==◌ drop_end_while
  run_subprocess_program-runs env w name file found there = rw (found, there) refl

  dispatch-verify :
      (env : Env) (w : machine.World)
      → (dispatch machine paths process (txt "verify-action") env w).1 ≡ exits 0
      → (verify_action machine paths process env w).1 ≡ 0
  unfolding dispatch includes ◌==◌
  dispatch-verify env w h = exits_injective _ 0 h
    where
      exits_injective : (a b : ℕ) → exits a ≡ exits b → a ≡ b
      exits_injective a b e = cc

  -- If `verify-action` ends with 0 for the directory that run.mjs is in, then every other subcommand
  -- comes to a process that runs a file which exists, in the directory of the workspace.
  pub dispatch_complete :
      (env : Env) (w : machine.World) (name : Text)
      → ((file : Text)
          → script_path paths (action_dir machine paths process env) file
            ≡ paths.join_path process.here file)
      → (dispatch machine paths process (txt "verify-action") env w).1 ≡ exits 0
      → IsIn name subcommands
      → name ≢ txt "verify-action"
      → (child : Spawn) × (dispatch machine paths process name env w ≡ (w, runs child))
        × (machine.exists w child.file ≡ true)
        × (child.cwd ≡ workspace_dir process env)
  unfolding dispatch
  dispatch_complete env w name same verified i other =
      let (file, found, required) = program_of_subcommand name i other in
      let known : includes subcommands name ≡ true = (includes_iff subcommands name).1 i in
      let there : machine.exists w (paths.join_path process.here file) ≡ true =
        rw (same file) at
          (verify_action-IsIn env w file (dispatch-verify env w verified) required) in
      let child : Spawn = record {
        file = paths.join_path process.here file;
        cwd = workspace_dir process env;
      } in
      (
        child,
        rw (known, ==_false name (txt "verify-action") other)
            (ap (λ o. (w, o)) (run_subprocess_program-runs env w name file found there)),
        there,
        refl,
      )

  -- Any other name ends with code 2, and nothing is run.
  dispatch_unknown :
      (env : Env) (w : machine.World) (name : Text)
      → ¬ IsIn name subcommands
      → dispatch machine paths process name env w ≡ (w, exits 2)
  unfolding dispatch
  dispatch_unknown env w name other = rw (includes-eq-false subcommands name other) refl
