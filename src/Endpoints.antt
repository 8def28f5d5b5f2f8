-- ===== src/Endpoints.antt =====
-- .forgejo/scripts/endpoints.mjs: which endpoint variables name a mirror, and what the runner can do.
use message_pusher.Base.{
  ℕ, Bool, true, false, not, ◌&&◌, ◌||◌, List, [], ◌∷◌, ◌++◌, Option, none, some, eqb, is_empty,
  all, if◌then◌else◌, drop,
}
use message_pusher.Text.{
  Text, txt, Env, ◌==◌, trim, split_on, ends_with, drop_while, drop_end_while, take_while, to_lower,
  is_upper, is_space, is_line_end, or_text, starts_with,
}
use message_pusher.Config.Lists.{read_optional, is_nonempty}
use message_pusher.Config.Images.{is_slash}
use message_pusher.Machine.{Machine, Command, succeeded}

-- `env[name] ?? env[name.toLowerCase()]`
abbrev pub given_value : Env → Text → Option Text
given_value env name = elim (env name) [ some value ↦ some value | none ↦ env (to_lower name) ]

-- `envValue`
unfoldable pub env_value : Env → List Text → Text
env_value env [] = []
env_value env (name ∷ names) =
    let value = read_optional (given_value env name) in
    let rest = env_value env names in
    if is_nonempty value then drop_end_while is_slash value else rest

-- `goProxyFrom`
unfoldable pub go_proxy_from : Env → Text
unfolding env_value
go_proxy_from env = env_value env (txt "GOPROXY" ∷ [])

-- The object that `parseOsRelease` fills: the pair that was assigned last stands first.
abbrev pub OsRelease : Type 0
OsRelease = List (Text × Text)

-- `String(release[key] || '')`
unfoldable pub release_value : OsRelease → Text → Text
release_value [] key = []
release_value ((k, v) ∷ release) key = if k == key then v else release_value release key

abbrev pub is_key_unit : ℕ → Bool
is_key_unit c = is_upper c || eqb c b'_'

abbrev pub is_quote : ℕ → Bool
is_quote c = eqb c b'"' || eqb c b'\''

-- `.replace(/^["']|["']$/g, '')`: a quote at the start, and one at the end of what is left.
abbrev pub strip_head_quote : Text → Text
strip_head_quote [] = []
strip_head_quote (c ∷ s) = if is_quote c then s else c ∷ s

unfoldable pub strip_last_quote : Text → Text
strip_last_quote [] = []
strip_last_quote (c ∷ []) = if is_quote c then [] else c ∷ []
strip_last_quote (c ∷ d ∷ s) = c ∷ strip_last_quote (d ∷ s)

-- What follows the key: `\s*=\s*(.*?)\s*$`.
abbrev pub value_after : Text → Option Text
value_after [] = none
value_after (c ∷ s) =
    if eqb c b'=' && all (λ u. not (is_line_end u)) (trim s) then some (trim s) else none

-- One line: `/^\s*([A-Z_]+)\s*=\s*(.*?)\s*$/`.
unfoldable pub release_line : Text → Option (Text × Text)
release_line line =
    let text = drop_while is_space line in
    let key = take_while is_key_unit text in
    let rest = drop_while is_space (drop_while is_key_unit text) in
    if is_empty key then none else elim (value_after rest) [
      | none ↦ none
      | some value ↦ some (key, strip_last_quote (strip_head_quote value))
    ]

unfoldable pub release_lines : OsRelease → List Text → OsRelease
release_lines out [] = out
release_lines out (line ∷ lines) = elim (release_line line) [
  | none ↦ release_lines out lines
  | some pair ↦ release_lines (pair ∷ out) lines
]

unfoldable pub parse_os_release : Text → OsRelease
parse_os_release text = release_lines [] (split_on (λ c. eqb c 10) text)

pub data Manager : Type 0 where
  apt npm : Manager

-- MANAGER_PROXY_VARS
abbrev pub proxy_vars : Manager → List Text
proxy_vars apt = txt "APT_PROXY" ∷ []
proxy_vars npm = txt "NPM_PROXY" ∷ []

-- `/\/(?:debian|ubuntu|debian-security)$/`
abbrev pub has_distro_path : Text → Bool
has_distro_path url =
    ends_with url (txt "/debian")
    || ends_with url (txt "/ubuntu")
    || ends_with url (txt "/debian-security")

abbrev pub distro_path : Text → OsRelease → Text
distro_path url release =
    if has_distro_path url
    then []
    else if release_value release (txt "ID") == txt "ubuntu"
    then txt "/ubuntu"
    else txt "/debian"

-- `expandEndpoint`: no address or one.
unfoldable pub expand_endpoint : Manager → Text → OsRelease → List Text
expand_endpoint manager base release =
    let url = drop_end_while is_slash base in
    if is_empty url
    then []
    else elim manager [ apt ↦ (url ++ distro_path url release) ∷ [] | npm ↦ url ∷ [] ]

abbrev pub suite_of : OsRelease → Text
suite_of release =
    or_text (release_value release (txt "VERSION_CODENAME"))
      (release_value release (txt "VERSION_ID"))

unfoldable pub endpoint_probe_url : Manager → Text → OsRelease → Text
endpoint_probe_url apt endpoint release =
    if is_empty (suite_of release)
    then []
    else endpoint ++ (txt "/dists/" ++ (suite_of release ++ txt "/InRelease"))
endpoint_probe_url npm endpoint release = endpoint ++ txt "/-/ping"

-- `fetch(url)`: `response.ok`, or `none` if there was no answer.
abbrev pub Fetch : Type 0
Fetch = Text → Option Bool

-- No answer keeps the value as a mirror.
abbrev pub answers : Option Bool → Bool
answers none = true
answers (some fine) = fine

abbrev pub probe_at : Fetch → Text → Bool
probe_at fetch url = if is_empty url then true else answers (fetch url)

abbrev pub probe_first : Manager → Fetch → OsRelease → List Text → Bool
probe_first manager fetch release [] = false
probe_first manager fetch release (endpoint ∷ _) =
    probe_at fetch (endpoint_probe_url manager endpoint release)

-- `probeEndpoint`
unfoldable pub probe_endpoint : Text → Manager → Fetch → OsRelease → Bool
probe_endpoint base manager fetch release =
    probe_first manager fetch release (expand_endpoint manager base release)

-- `source`: the empty text, `proxy`, or `proxy-as-mirror`.
pub data Source : Type 0 where
  unset as_proxy as_mirror : Source

pub record Resolution : Type 0 where
  pub mirror : List Text
  pub proxy : Text
  pub source : Source

abbrev pub is_mirror : Resolution → Bool
is_mirror r = elim r.source [ unset ↦ false | as_proxy ↦ false | as_mirror ↦ true ]

-- `resolveEndpoint`
unfoldable pub resolve_endpoint : Manager → Env → Fetch → OsRelease → Resolution
resolve_endpoint manager env fetch release =
    let candidate = env_value env (proxy_vars manager) in
    if is_empty candidate
    then record { mirror = []; proxy = []; source = unset }
    else if probe_endpoint candidate manager fetch release
    then record {
      mirror = expand_endpoint manager candidate release;
      proxy = [];
      source = as_mirror;
    }
    else record { mirror = []; proxy = candidate; source = as_proxy }

-- A program and its arguments, with no variables of its own.
abbrev pub command : Text → List Text → Command
command program args = record { program = program; args = args; variables = [] }

-- `hasBinary(binary)` runs one of these.
abbrev pub binary_command : Text → Command
binary_command binary =
    if binary == txt "buildx"
    then command (txt "docker") (txt "buildx" ∷ txt "version" ∷ [])
    else command (txt "sh") (txt "-c" ∷ (txt "command -v " ++ binary) ∷ [])

abbrev pub version_command : Command
version_command =
    command (txt "docker") (txt "version" ∷ txt "--format" ∷ txt "{{.Server.Version}}" ∷ [])

-- What `probeDocker` returns. `socket_present` is `none` where no socket was looked for.
pub record DockerProbe : Type 0 where
  pub cli : Bool
  pub daemon : Bool
  pub buildx : Bool
  pub server : Text
  pub host : Text
  pub socket_path : Text
  pub socket_present : Option Bool

abbrev pub no_docker : DockerProbe
no_docker = record {
  cli = false;
  daemon = false;
  buildx = false;
  server = [];
  host = [];
  socket_path = [];
  socket_present = none;
}

-- The socket that DOCKER_HOST names, or the usual one.
abbrev pub socket_of : Text → Text
socket_of host =
    if starts_with host (txt "unix://")
    then drop 7 host
    else if is_empty host
    then txt "/var/run/docker.sock"
    else []

module _ (machine : Machine) where
  unfoldable pub has_binary : Text → machine.World → machine.World × Bool
  has_binary binary w = let (w', e) = machine.run w (binary_command binary) in (w', succeeded e)

  -- What follows the test for the command itself.
  unfoldable pub probe_server : Env → machine.World → machine.World × DockerProbe
  probe_server env w =
      let (w1, version) = machine.run w version_command in
      let host = read_optional (env (txt "DOCKER_HOST")) in
      let path = socket_of host in
      let present = machine.exists w1 path in
      let (w2, buildx) = has_binary (txt "buildx") w1 in
      (
        w2,
        record {
          cli = true;
          daemon = succeeded version;
          buildx = buildx;
          server = if succeeded version then trim version.stdout else [];
          host = host;
          socket_path = path;
          socket_present = if is_empty path then none else some present;
        },
      )

  unfoldable pub probe_docker : Env → machine.World → machine.World × DockerProbe
  probe_docker env w =
      let (w', cli) = has_binary (txt "docker") w in
      let found = probe_server env w' in if cli then found else (w', no_docker)
