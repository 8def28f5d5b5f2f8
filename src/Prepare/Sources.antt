-- ===== src/Prepare/Sources.antt =====
-- `configurePackageSources` of .forgejo/scripts/prepare.mjs: package sources and proxies. What its
-- scripts do to the files of the container is up to the shell.
use message_pusher.Base.{◌&&◌, List, [], ◌∷◌, some, if◌then◌else◌}
use message_pusher.Text.{Text, txt, Env, ◌==◌, or_text}
use message_pusher.Config.Lists.{read_optional, is_nonempty}
use message_pusher.Machine.{Machine, Command}

-- PROXY_ALIASES
abbrev pub proxy_aliases : List (Text × Text)
proxy_aliases =
    (txt "HTTP_PROXY", txt "http_proxy")
    ∷ (txt "HTTPS_PROXY", txt "https_proxy")
    ∷ (txt "NO_PROXY", txt "no_proxy")
    ∷ (txt "ALL_PROXY", txt "all_proxy")
    ∷ []

-- `env[name] = value`
unfoldable pub set_variable : Env → Text → Text → Env
set_variable env name value asked = if asked == name then some value else env asked

unfoldable pub mirror_proxies : List (Text × Text) → Env → Env
mirror_proxies [] env = env
mirror_proxies ((upper, lower) ∷ aliases) env =
    let value = read_optional (env upper) in
    mirror_proxies aliases (if is_nonempty value then set_variable env lower value else env)

pub record Applied : Type 0 where
  pub apk : Text
  pub apt : Text
  pub yum : Text

-- `apply(root, script)`
abbrev pub source_command : Text → Text → Command
source_command root script = record {
  program = txt "sh";
  args = txt "-c" ∷ script ∷ [];
  variables = (txt "SOURCE_ROOT", root) ∷ [];
}

abbrev pub apk_script : Text
apk_script =
    txt
      "grep -q \"^${SOURCE_ROOT}/\" /etc/apk/repositories || sed -i \"s|^https\\?://|${SOURCE_ROOT}/|\" /etc/apk/repositories"

abbrev pub apt_script : Text
apt_script =
    txt
      "if ! grep -rqs -e \"URIs: ${SOURCE_ROOT}/\" -e \"^deb ${SOURCE_ROOT}/\" /etc/apt/sources.list /etc/apt/sources.list.d 2>/dev/null; then for f in /etc/apt/sources.list /etc/apt/sources.list.d/*.sources /etc/apt/sources.list.d/*.list; do [ -f \"$f\" ] || continue; sed -i -E \"s|URIs:[[:space:]]*https?://|URIs: ${SOURCE_ROOT}/|g; s|^deb[[:space:]]+https?://|deb ${SOURCE_ROOT}/|g\" \"$f\"; done; fi"

abbrev pub yum_script : Text
yum_script =
    txt
      "grep -rqs \"^baseurl=${SOURCE_ROOT}/\" /etc/yum.repos.d 2>/dev/null || sed -i -E \"s|^baseurl=https?://|baseurl=${SOURCE_ROOT}/|\" /etc/yum.repos.d/*.repo"

module _ (machine : Machine) where
  -- One of the three blocks: a root and a place that exists.
  unfoldable pub apply_source : Text → Text → Text → machine.World → machine.World × Text
  apply_source root place script w =
      let after = (machine.run w (source_command root script)).0 in
      if is_nonempty root && machine.exists w place then (after, root) else (w, [])

  -- The roots that were applied, and the environment with the proxies' other names.
  unfoldable pub configure_package_sources : Env → machine.World → machine.World × (Applied × Env)
  configure_package_sources env w =
      let apk_root =
        or_text (read_optional (env (txt "APK_REPO"))) (read_optional (env (txt "APK_PROXY"))) in
      let apt_root = read_optional (env (txt "APT_PROXY")) in
      let yum_root = read_optional (env (txt "YUM_REPO")) in
      let (w1, apk) = apply_source apk_root (txt "/etc/apk/repositories") apk_script w in
      let (w2, apt) = apply_source apt_root (txt "/etc/apt") apt_script w1 in
      let (w3, yum) = apply_source yum_root (txt "/etc/yum.repos.d") yum_script w2 in
      (w3, (record { apk = apk; apt = apt; yum = yum }, mirror_proxies proxy_aliases env))
