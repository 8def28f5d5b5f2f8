-- ===== src/Config/Tags.antt =====
-- .forgejo/scripts/config.mjs: docker tag names (`sanitizeTagName`) and the staging tags of a build.
pub mod Laws
pub mod Staging
use message_pusher.Base.{
  ℕ, Bool, true, false, not, ◌&&◌, ◌||◌, List, [], ◌∷◌, ◌++◌, map, eqb, ltb, is_empty, length,
  if◌then◌else◌,
}
use message_pusher.Text.{Text, txt, trim, drop_while, is_lower, is_upper, is_digit}
use message_pusher.Result.{Result, ok, err, traverse, ◌>>=◌, bad_tag_name, tag_too_long}

-- `[A-Za-z0-9_.-]`
abbrev pub is_tag_unit : ℕ → Bool
is_tag_unit c = is_upper c || is_lower c || is_digit c || eqb c b'_' || eqb c b'.' || eqb c b'-'

-- `[.-]`
abbrev pub is_dot_or_dash : ℕ → Bool
is_dot_or_dash c = eqb c b'.' || eqb c b'-'

-- `.replace(/[^A-Za-z0-9_.-]+/g, '-')`; `inside` says that the run already has its dash
unfoldable pub collapse : Bool → Text → Text
collapse inside [] = []
collapse inside (c ∷ s) = elim (is_tag_unit c) [
  | true ↦ c ∷ collapse false s
  | false ↦ let rest = collapse true s in if inside then rest else b'-' ∷ rest
]

abbrev pub max_tag_length : ℕ
max_tag_length = 128

-- The two checks at the end of `sanitizeTagName`.
abbrev pub check_tag_name : Text → Text → Result Text
check_tag_name value name =
    if is_empty name
    then err (bad_tag_name value)
    else if ltb max_tag_length (length name)
    then err (tag_too_long name)
    else ok name

unfoldable pub sanitize_tag_name : Text → Result Text
unfolding trim collapse drop_while
sanitize_tag_name value =
    check_tag_name value (drop_while is_dot_or_dash (collapse false (trim value)))

-- `shortSha || 'nosha'`
abbrev pub sha_or_nosha : Text → Text
sha_or_nosha short_sha = if is_empty short_sha then txt "nosha" else short_sha

-- What the template of `stagingTagName` holds.
abbrev pub staging_text : Text → Text → Text → Text
staging_text version short_sha variant =
    txt "staging-" ++ (version ++ (txt "-" ++ (sha_or_nosha short_sha ++ (txt "-" ++ variant))))

unfoldable pub staging_tag_name : Text → Text → Text → Result Text
unfolding sanitize_tag_name
staging_tag_name version short_sha variant =
    sanitize_tag_name (staging_text version short_sha variant)
