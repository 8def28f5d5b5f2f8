-- ===== src/Config/Variants.antt =====
-- .forgejo/scripts/config.mjs: the variant table (`variantTableRaw`, `parseVariants`) and the
-- selection of variants.
pub mod Table
pub mod Select
use message_pusher.Base.{
  ℕ, zero, suc, Bool, true, false, not, ◌&&◌, ◌||◌, List, [], ◌∷◌, ◌++◌, map, Option, none, some,
  eqb, ltb, is_empty, length, filter, all, if◌then◌else◌,
}
use message_pusher.Text.{Text, txt, Env, ◌==◌, includes, trim, split_on, is_lower, is_digit}
use message_pusher.Result.{
  Result, ok, err, guard, traverse, ◌>>=◌, ◌>>◌, no_variants, bad_variant_name, duplicate_variant,
  several_defaults, no_default, unknown_variants,
}
use message_pusher.Config.Lists.{
  KeyValue, read_optional, split_list, split_lines, parse_variant_build_args, parse_platforms,
}

pub record Variant : Type 0 where
  pub name : Text
  pub dockerfile : Text
  pub target : Text
  pub suffix : Text
  pub is_default : Bool
  pub build_args : List KeyValue
  pub platforms : List Text

abbrev pub default_variants : Text
default_variants =
    txt
      "alpine|Dockerfile.alpine||-alpine|false||linux/amd64,linux/arm64\ntrixie-slim|Dockerfile.trixie-slim||-trixie-slim|true||linux/amd64,linux/arm64"

-- `variantTableRaw`: `read_file` answers `none` where `readFileSync` throws.
unfoldable pub variant_table_raw : Env → (Text → Option Text) → Text
variant_table_raw env read_file =
    let explicit = read_optional (env (txt "DOCKER_VARIANTS")) in
    let file = read_optional (env (txt "DOCKER_VARIANTS_FILE")) in
    let from_file : Text = elim (read_file file) [
      | none ↦ default_variants
      | some text ↦ if is_empty (read_optional (some text)) then default_variants else text
    ] in
    if not (is_empty explicit)
    then explicit
    else if is_empty file
    then default_variants
    else from_file

abbrev pub is_variant_head : ℕ → Bool
is_variant_head c = is_lower c || is_digit c

abbrev pub is_variant_unit : ℕ → Bool
is_variant_unit c = is_lower c || is_digit c || eqb c b'.' || eqb c b'_' || eqb c b'-'

-- `/^[a-z0-9][a-z0-9._-]*$/`
unfoldable pub is_variant_name : Text → Bool
is_variant_name [] = false
is_variant_name (c ∷ s) = is_variant_head c && all is_variant_unit s

-- Column `i` of a row, or the empty text.
abbrev pub column : ℕ → List Text → Text
column i [] = []
column zero (x ∷ xs) = x
column (suc i) (x ∷ xs) = column i xs

abbrev pub suffix_of : Text → Text → Text
suffix_of name column =
    if is_empty column then txt "-" ++ name else if column == txt "none" then [] else column

-- One row; `seen` holds the names of the rows above it.
unfoldable pub parse_row : List Text → Text → Result Variant
parse_row seen line = do
  let parts = map trim (split_on (λ c. eqb c b'|') line)
  let name = column 0 parts
  guard (is_variant_name name) (bad_variant_name name)
  guard (not (includes seen name)) (duplicate_variant name)
  build_args ← parse_variant_build_args (column 5 parts)
  platforms ← parse_platforms (column 6 parts)
  ok (record {
    name = name;
    dockerfile = if is_empty (column 1 parts) then txt "Dockerfile." ++ name else column 1 parts;
    target = column 2 parts;
    suffix = suffix_of name (column 3 parts);
    is_default = column 4 parts == txt "true";
    build_args = build_args;
    platforms = platforms;
  })

-- The loop of `parseVariants`.
unfoldable pub parse_rows : List Text → List Text → Result (List Variant)
parse_rows seen [] = ok []
parse_rows seen (line ∷ lines) = do
  v ← parse_row seen line
  vs ← parse_rows (v.name ∷ seen) lines
  ok (v ∷ vs)

abbrev pub names_of : List Variant → List Text
names_of = map (λ (v : Variant). v.name)

-- `variants[0].isDefault = true`
abbrev pub default_first : List Variant → List Variant
default_first [] = []
default_first (v ∷ vs) = record v { is_default = true } ∷ vs

abbrev pub flagged : List Variant → List Variant
flagged = filter (λ (v : Variant). v.is_default)

-- What follows the loop of `parseVariants`: exactly one default variant.
unfoldable pub settle_default : List Variant → Result (List Variant)
settle_default variants =
    if ltb 1 (length (flagged variants))
    then err (several_defaults (names_of (flagged variants)))
    else if eqb (length (flagged variants)) 0 && ltb 1 (length variants)
    then err (no_default (names_of variants))
    else if eqb (length (flagged variants)) 0
    then ok (default_first variants)
    else ok variants

unfoldable pub parse_variants : Text → Result (List Variant)
parse_variants raw = do
  let lines = split_lines (some raw)
  guard (not (is_empty lines)) no_variants
  variants ← parse_rows [] lines
  settle_default variants

-- `variantSelection`: the variants named in `raw`, all of them if it names none.
unfoldable pub variant_selection : List Variant → Option Text → Result (List Variant)
variant_selection variants raw =
    let wanted = split_list raw in
    let unknown = filter (λ name. not (includes (names_of variants) name)) wanted in
    if is_empty wanted
    then ok variants
    else if not (is_empty unknown)
    then err (unknown_variants unknown (names_of variants))
    else ok (filter (λ (v : Variant). includes wanted v.name) variants)
