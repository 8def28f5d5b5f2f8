-- ===== src/Runtime.antt =====
-- What meta.mjs takes from the JavaScript runtime and the model does not define: doubles, the
-- collation order of `localeCompare`, and regular expressions that a repository writes.
use message_pusher.Base.{ℕ, Bool, Option, List}
use message_pusher.Text.{Text}
use message_pusher.Result.{Result}

pub record Runtime : Type 1 where
  pub Number : Type 0
  -- A whole number as a double.
  pub number : ℕ → Number
  -- `Number(text)`
  pub to_number : Text → Number
  pub is_finite : Number → Bool
  -- `a <= b`, `a < b` and `Math.max(a, b)`
  pub num_le : Number → Number → Bool
  pub num_lt : Number → Number → Bool
  pub num_max : Number → Number → Number
  -- `a.localeCompare(b) <= 0`
  pub locale_le : Text → Text → Bool
  -- `new RegExp(pattern).exec(value)`: an error for a bad pattern, `none` if nothing matches, else
  -- the match and its groups, each of which may be undefined.
  pub exec_regex : Text → Text → Result (Option (List (Option Text)))
