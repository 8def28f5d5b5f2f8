-- ===== src/Locate.antt =====
-- .forgejo/scripts/locate-action.mjs: where in a checkout the copied Action is.
pub mod Search
pub mod Candidates
use message_pusher.Base.{
  ℕ, zero, suc, Bool, true, false, not, ◌&&◌, ◌||◌, List, [], ◌∷◌, ◌++◌, Option, none, some, find?,
  is_empty, if◌then◌else◌,
}
use message_pusher.Text.{Text, txt, Env, ◌==◌, includes, drop_end_while, or_text}
use message_pusher.Config.Lists.{read_optional, or_empty}
use message_pusher.Config.Images.{is_slash}
use message_pusher.Paths.{Paths}

-- An entry of a directory: its name, and `isDirectory()`.
pub record Entry : Type 0 where
  pub name : Text
  pub is_directory : Bool

-- The files that the program looks at: `readdirSync`, which is `none` if it throws, `existsSync`, and
-- `process.cwd()`.
pub record FileSystem : Type 0 where
  pub entries : Text → Option (List Entry)
  pub exists : Text → Bool
  pub cwd : Text

-- `candidates.find(test) || ''`
unfoldable pub first_that : (Text → Bool) → List Text → Text
first_that test candidates = elim (find? test candidates) [ none ↦ [] | some dir ↦ dir ]

module _ (files : FileSystem) (paths : Paths) where
  -- `isActionDir`; a join of three parts joins the first two first
  unfoldable pub is_action_dir : Text → Bool
  is_action_dir dir =
      not (is_empty dir)
      && files.exists (paths.join_path dir (txt "workflows"))
      && files.exists (paths.join_path (paths.join_path dir (txt "scripts")) (txt "build-push.mjs"))

  -- The loop over the entries of one directory: what is found, and what is looked into next.
  unfoldable pub scan_entries : Text → List Entry → List Text × List Text
  scan_entries dir [] = ([], [])
  scan_entries dir (entry ∷ entries) =
      let child = paths.join_path dir entry.name in
      let (found, next) = scan_entries dir entries in
      if not entry.is_directory
      then (found, next)
      else if entry.name == txt ".forgejo"
      then (child ∷ found, next)
      else (found, child ∷ next)

  abbrev pub entries_of : Text → List Entry
  entries_of dir = elim (files.entries dir) [ none ↦ [] | some entries ↦ entries ]

  -- The loop over the directories of one level.
  unfoldable pub scan_level : List Text → List Text × List Text
  scan_level [] = ([], [])
  scan_level (dir ∷ level) =
      let (found, next) = scan_entries dir (entries_of dir) in
      let (later, deeper) = scan_level level in (found ++ later, next ++ deeper)

  -- The loop over the depths; an empty level ends it.
  unfoldable pub search : ℕ → List Text → List Text
  search zero level = []
  search (suc depth) level =
      let (found, next) = scan_level level in
      let deeper = search depth next in if is_empty level then [] else found ++ deeper

  unfoldable pub find_forgejo_dirs : Text → ℕ → List Text
  find_forgejo_dirs root max_depth = search max_depth (root ∷ [])

  abbrev pub clean : Text → Text
  clean dir = drop_end_while is_slash (paths.resolve_path dir)

  -- `push(dir)`
  unfoldable pub push : List Text → Text → List Text
  push candidates dir =
      if is_empty dir || includes candidates (clean dir)
      then candidates
      else candidates ++ (clean dir ∷ [])

  unfoldable pub push_all : List Text → List Text → List Text
  push_all candidates [] = candidates
  push_all candidates (dir ∷ dirs) = push_all (push candidates dir) dirs

  -- The directories next to the workspace, and next to those above it.
  unfoldable pub above : ℕ → Text → List Text
  above zero walk = []
  above (suc steps) walk =
      let rest = above steps (paths.dirname walk) in
      if is_empty walk || walk == txt "/" || paths.dirname walk == walk
      then []
      else paths.join_path walk (txt ".forgejo") ∷ rest

  abbrev pub workspace_of : Env → Text
  workspace_of env = clean (
      or_text (or_empty (env (txt "GITHUB_WORKSPACE")))
        (or_text (or_empty (env (txt "PWD"))) files.cwd))

  -- What is tried, in this order.
  unfoldable pub locations : Env → List Text
  locations env =
      let workspace = workspace_of env in
      read_optional (env (txt "GITHUB_ACTION_PATH"))
      ∷ paths.join_path workspace (txt ".forgejo")
      ∷ (find_forgejo_dirs workspace 6 ++ above 3 (paths.dirname workspace))

  unfoldable pub locate_candidates : Env → List Text
  locate_candidates env = push_all [] (locations env)

  -- The first candidate that is the Action, or the empty text.
  unfoldable pub locate_action_dir : Env → Text
  locate_action_dir env = first_that is_action_dir (locate_candidates env)

  -- What the program hands on: the directory and the file of the variant table; `none` is exit code 1.
  unfoldable pub locate_main : Env → Option (Text × Text)
  locate_main env =
      let dir = locate_action_dir env in
      if is_empty dir then none else some (dir, paths.join_path dir (txt "variants.txt"))
