-- ===== src/Prepare/Packages.antt =====
-- .forgejo/scripts/prepare.mjs, lines 110-143 and 224-281: package managers, extra packages, and the
-- buildx plugin.
pub mod Buildx
use message_pusher.Base.{
  ℕ, Bool, true, false, not, ◌&&◌, ◌||◌, List, [], ◌∷◌, ◌++◌, map, Option, none, some, eqb,
  is_empty, filter, if◌then◌else◌,
}
use message_pusher.Text.{Text, txt, Env, ◌==◌, trim, split_runs, is_space, join, or_text}
use message_pusher.Result.{Result, ok, err, no_manager, install_failed, no_buildx}
use message_pusher.Config.Lists.{read_optional, or_empty, is_item}
use message_pusher.Machine.{Machine, Command, Exit, succeeded}
use message_pusher.Endpoints.{command, has_binary}
use message_pusher.Prepare.Arch.{host_arch}
use message_pusher.Io.{Io}

abbrev pub managers : List Text
managers = txt "apk" ∷ txt "apt-get" ∷ txt "dnf" ∷ txt "yum" ∷ []

-- `packageManagerInstall`
unfoldable pub package_manager_install : Text → List Text → Option Command
package_manager_install manager packages =
    if manager == txt "apk"
    then some (command (txt "apk") (txt "add" ∷ txt "--no-cache" ∷ packages))
    else if manager == txt "apt-get"
    then some (
        command (txt "sh") (
          txt "-c"
          ∷ (txt "apt-get update && apt-get install -y --no-install-recommends "
              ++ join (txt " ") packages)
          ∷ []))
    else if manager == txt "dnf"
    then some (command (txt "dnf") (txt "install" ∷ txt "-y" ∷ packages))
    else if manager == txt "yum"
    then some (command (txt "yum") (txt "install" ∷ txt "-y" ∷ packages))
    else none

abbrev pub is_package_separator : ℕ → Bool
is_package_separator c = is_space c || eqb c b',' || eqb c b';'

-- The packages that `DOCKER_JOB_PACKAGES` names.
abbrev pub wanted_packages : List Text → Option Text → List Text
wanted_packages packages raw =
    if is_empty packages
    then filter is_item (map trim (split_runs is_package_separator false (or_empty raw)))
    else packages

pub record Installed : Type 0 where
  pub manager : Text
  pub packages : List Text

abbrev pub installed : Text → List Text → Installed
installed manager packages = record { manager = manager; packages = packages }

abbrev pub buildx_url : Env → Text → Text
buildx_url env arch =
    or_text (read_optional (env (txt "DOCKER_BUILDX_URL")))
      (txt "https://github.com/docker/buildx/releases/latest/download/buildx-linux-" ++ arch)

abbrev pub buildx_dest : Env → Text
buildx_dest env =
    or_text (read_optional (env (txt "DOCKER_BUILDX_PATH")))
      (txt "/usr/local/libexec/docker/cli-plugins/docker-buildx")

abbrev pub download_command : Text → Text → Command
download_command url dest = command (txt "sh") (
    txt "-c"
    ∷ (txt "mkdir -p \"$(dirname '"
        ++ dest
        ++ txt "')\" && curl -fsSL '"
        ++ url
        ++ txt "' -o '"
        ++ dest
        ++ txt "' && chmod +x '"
        ++ dest
        ++ txt "'")
    ∷ [])

module _ (machine : Machine) where
  -- The loop of `detectManager`; the empty text is no manager.
  unfoldable pub first_manager : List Text → machine.World → machine.World × Text
  first_manager [] w = (w, [])
  first_manager (name ∷ names) w =
      let (w', there) = has_binary machine name w in
      let rest = first_manager names w' in if there then (w', name) else rest

  unfoldable pub detect_manager : machine.World → machine.World × Text
  detect_manager w = first_manager managers w

  -- `packageManagerInstallRun`
  unfoldable pub package_manager_install_run : Text → List Text → machine.World → machine.World
  package_manager_install_run manager packages w = elim (package_manager_install manager packages) [
    | none ↦ w
    | some c ↦ (machine.run w c).0
  ]

  -- The call that installs, and what its result means.
  abbrev pub install_with : Text → List Text → Io machine.World Installed
  install_with manager wanted w = elim (package_manager_install manager wanted) [
    | none ↦ (w, err (install_failed manager wanted))
    | some c ↦
        let (w', e) = machine.run w c in
        (
          w',
          if succeeded e
              then ok (installed manager wanted)
              else err (install_failed manager wanted),
        )
  ]

  unfoldable pub install_packages : Option Text → List Text → Io machine.World Installed
  install_packages raw packages w =
      let wanted = wanted_packages packages raw in
      let (w', manager) = detect_manager w in
      let done = install_with manager wanted w' in
      if is_empty wanted
      then (w, ok (installed [] []))
      else if is_empty manager
      then (w', err (no_manager wanted))
      else done

  -- The attempt with the package manager.
  abbrev pub install_buildx : Text → machine.World → machine.World
  install_buildx manager w =
      let by_apk =
        machine.run w
          (command (txt "apk") (txt "add" ∷ txt "--no-cache" ∷ txt "docker-cli-buildx" ∷ [])) in
      let by_other = package_manager_install_run manager (txt "docker-buildx-plugin" ∷ []) w in
      if manager == txt "apk" then by_apk.0 else if is_empty manager then w else by_other

  -- The attempt with the release binary.
  abbrev pub download_buildx : Env → Io machine.World Text
  download_buildx env w =
      let (w1, arch) = host_arch machine w in
      let w2 = (machine.run w1 (download_command (buildx_url env arch) (buildx_dest env))).0 in
      let (w3, there) = has_binary machine (txt "buildx") w2 in
      (w3, if there then ok (txt "download") else err no_buildx)

  unfoldable pub ensure_buildx : Env → Io machine.World Text
  ensure_buildx env w =
      let (w1, shipped) = has_binary machine (txt "buildx") w in
      let (w2, manager) = detect_manager w1 in
      let (w3, packaged) = has_binary machine (txt "buildx") (install_buildx manager w2) in
      let downloaded = download_buildx env w3 in
      if shipped
      then (w1, ok (txt "image"))
      else if packaged
      then (w3, ok (or_text manager (txt "image")))
      else downloaded
