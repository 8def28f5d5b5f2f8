-- ===== src/Paths.antt =====
-- The functions of `node:path` that the scripts call. None of it is code of the repository.
use message_pusher.Base.{Bool}
use message_pusher.Text.{Text}

pub record Paths : Type 0 where
  -- `join(a, b)`
  pub join_path : Text → Text → Text
  -- `resolve(a)`, with the process's working directory in it
  pub resolve_path : Text → Text
  pub dirname : Text → Text
  pub is_absolute : Text → Bool
