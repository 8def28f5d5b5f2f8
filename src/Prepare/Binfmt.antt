-- ===== src/Prepare/Binfmt.antt =====
-- `ensureBinfmt` of .forgejo/scripts/prepare.mjs: QEMU handlers for foreign architectures.
pub mod Handled
use message_pusher.Base.{
  Bool, true, false, not, List, [], ◌∷◌, ◌++◌, Option, none, some, filter, is_empty, if◌then◌else◌,
}
use message_pusher.Text.{Text, txt, Env, ◌==◌, includes, join, or_text}
use message_pusher.Config.Lists.{read_optional, is_truthy}
use message_pusher.Machine.{Machine, Command, Exit, succeeded}
use message_pusher.Endpoints.{command}
use message_pusher.Prepare.Arch.{arches_of, binfmt_handler, host_arch}

-- `join(BINFMT_ROOT, binfmtHandler(arch))`; an architecture is a piece between slashes.
abbrev pub handler_path : Text → Text
handler_path arch = txt "/proc/sys/fs/binfmt_misc/" ++ binfmt_handler arch

-- What `ensureBinfmt` returns.
pub record Binfmt : Type 0 where
  pub skipped : Bool
  pub wanted : List Text
  pub registered : List Text
  pub remaining : List Text
  pub error : Text

abbrev pub nothing_done : Bool → List Text → Binfmt
nothing_done skipped wanted = record {
  skipped = skipped;
  wanted = wanted;
  registered = [];
  remaining = [];
  error = [];
}

abbrev pub foreign_arches : Text → List Text → List Text
foreign_arches host platforms = filter (λ a. not (a == host)) (arches_of platforms)

abbrev pub install_command : Env → List Text → Command
install_command env missing =
    let image =
      or_text (read_optional (env (txt "DOCKER_BINFMT_IMAGE"))) (txt "tonistiigi/binfmt") in
    command (txt "docker") (
      txt "run"
      ∷ txt "--privileged"
      ∷ txt "--rm"
      ∷ image
      ∷ txt "--install"
      ∷ join (txt ",") missing
      ∷ [])

module _ (machine : Machine) (env : Env) where
  -- `candidates.filter((candidate) => !exists(join(root, binfmtHandler(candidate))))`
  abbrev pub without_handler : machine.World → List Text → List Text
  without_handler w = filter (λ a. not (machine.exists w (handler_path a)))

  -- The call of docker, and a second look.
  abbrev pub register : List Text → List Text → machine.World → machine.World × Binfmt
  register wanted missing w =
      let (w', e) = machine.run w (install_command env missing) in
      let remaining = without_handler w' missing in
      (
        w',
        record {
          skipped = false;
          wanted = wanted;
          registered = filter (λ a. not (includes remaining a)) missing;
          remaining = remaining;
          error = if succeeded e then [] else e.stderr;
        },
      )

  -- Everything after the host's architecture is known.
  unfoldable pub ensure_handlers : Text → List Text → machine.World → machine.World × Binfmt
  ensure_handlers host platforms w =
      let wanted = foreign_arches host platforms in
      let missing = without_handler w wanted in
      let done = register wanted missing w in
      if is_truthy (env (txt "DOCKER_SKIP_BINFMT"))
      then (w, nothing_done true wanted)
      else if is_empty missing
      then (w, nothing_done false wanted)
      else done

  unfoldable pub ensure_binfmt : Text → List Text → machine.World → machine.World × Binfmt
  ensure_binfmt arch platforms w =
      let (w1, found) = host_arch machine w in
      let asked = ensure_handlers found platforms w1 in
      let given = ensure_handlers arch platforms w in if is_empty arch then asked else given
