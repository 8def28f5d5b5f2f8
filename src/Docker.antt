-- ===== src/Docker.antt =====
-- The `docker` command as the scripts see it (`runDocker` and `refExists` of
-- .forgejo/scripts/build-push.mjs): a process that may change the world outside and has an exit
-- status. The calls that were made are kept in order.
use message_pusher.Base.{ℕ, Bool, List, [], ◌∷◌, ◌++◌, Option, none, some, eqb}
use message_pusher.Text.{Text, txt}

-- What is not code of the repository: `spawnSync('docker', argv)`, whose status is `none` if the
-- process was killed or did not start, and the digest in a metadata file, if it can be read.
pub record Docker : Type 1 where
  pub World : Type 0
  pub run : World → List Text → World × Option ℕ
  pub metadata_digest : World → Text → Option Text

-- `result.status === 0 ? 0 : result.status ?? 1`
unfoldable pub exit_status : Option ℕ → ℕ
exit_status none = 1
exit_status (some s) = s

abbrev pub inspect_argv : Text → List Text
inspect_argv ref = txt "buildx" ∷ txt "imagetools" ∷ txt "inspect" ∷ ref ∷ []

module _ (docker : Docker) where
  pub record Session : Type 0 where
    pub world : docker.World
    pub calls : List (List Text)

  unfoldable pub run_docker : List Text → Session → Session × ℕ
  run_docker argv s =
      let (w, status) = docker.run s.world argv in
      (record { world = w; calls = s.calls ++ argv ∷ [] }, exit_status status)

  -- `refExists`
  unfoldable pub ref_exists : Text → Session → Session × Bool
  ref_exists ref s = let (s', status) = run_docker (inspect_argv ref) s in (s', eqb status 0)

  -- `digestFromMetadata(JSON.parse(readFileSync(file)))`, or the empty text if that throws
  abbrev pub digest_of : Session → Text → Text
  digest_of s file = elim (docker.metadata_digest s.world file) [ none ↦ [] | some d ↦ d ]
