-- ===== src/Tests/Login.antt =====
-- A concrete login at ghcr.io.
use message_pusher.Base.{ℕ, suc, true, false, [], ◌∷◌, none, some}
use message_pusher.Text.{txt, Env, ◌==◌}
use message_pusher.Config.Images.{ghcr, dockerhub, Registry}
use message_pusher.State.{State}
use message_pusher.Login.{Client}

-- It counts the calls, and every call succeeds.
abbrev counting : Client
counting = record { World = ℕ; run = λ n argv input. (suc n, some 0) }

abbrev on_ghcr : Registry
on_ghcr = record {
  id = ghcr;
  registry = txt "ghcr.io";
  token_var = txt "GHCR_TOKEN";
  user = txt "me";
  namespace = txt "me";
  enabled = true;
}

abbrev not_on_hub : Registry
not_on_hub = record {
  id = dockerhub;
  registry = txt "docker.io";
  token_var = txt "DOCKERHUB_TOKEN";
  user = [];
  namespace = [];
  enabled = false;
}

abbrev login_state : State
login_state = record {
  version = txt "1.2.3";
  tag = txt "v1.2.3";
  prerelease = false;
  sha = txt "abcdef";
  short_sha = txt "abc";
  repo = txt "o/app";
  repo_name = txt "app";
  server_url = txt "https://x";
  ref_ = txt "refs/tags/v1.2.3";
  is_tag_event = true;
  is_branch_event = false;
  is_pr_event = false;
  dry_run = false;
  variants = [];
  registries = on_ghcr ∷ not_on_hub ∷ [];
  images = [];
  options = record {
    context = txt ".";
    platforms = [];
    build_args = [];
    dry_run = false;
    push = true;
  };
  builds = [];
}

abbrev token_env : Env
token_env name = elim (name == txt "GHCR_TOKEN") [ true ↦ some (txt "secret") | false ↦ none ]
