-- ===== src/Tests/Config.antt =====
-- Concrete variant tables, tag names and images of config.mjs.
use message_pusher.Base.{
  ◌≡◌, ◌≢◌, ◌↔◌, refl, true, false, List, [], ◌∷◌, none, some, All, IsIn, inl, inr,
}
use message_pusher.Text.{
  Text, txt, Env, ◌==◌, includes, trim, is_space, drop_while, drop_end_while, split_on, split_runs,
  starts_with, strip_prefix, has_unit, index_of, to_lower, lower_unit,
}
use message_pusher.Result.{ok, err, Error, traverse}
use message_pusher.Config.Lists.{
  read_optional, split_list, split_lines, parse_key_value, parse_variant_build_args,
  is_platform_part, is_platform, check_platform, parse_platforms,
}
use message_pusher.Config.Variants.{
  Variant, is_variant_name, parse_row, parse_rows, settle_default, parse_variants, names_of,
  variant_selection,
}
use message_pusher.Config.Variants.Table.{IsTable, parse_variants-IsTable}
use message_pusher.Config.Variants.Select.{variant_selection_unknown}
use message_pusher.Config.Tags.{collapse, sanitize_tag_name, staging_tag_name}
use message_pusher.Config.Tags.Laws.{IsTagName, AreTagUnits, sanitize_tag_name_iff}
use message_pusher.Config.Tags.Staging.{staging_tag_name_injective}
use message_pusher.Config.Images.{
  ghcr, Registry, Image, ghcr_namespace_from, registries_from, normalize_image_base,
  check_image_base, strip_image_base, first_piece, is_image_name, derived_image, images_from,
}
use message_pusher.Config.Images.Enabled.{HasCredentials, images_from-HasCredentials}

abbrev table : Text
table = txt "alpine|||none|false||linux/amd64\nslim|D||-s|true|A=1|"

abbrev alpine : Variant
alpine = record {
  name = txt "alpine";
  dockerfile = txt "Dockerfile.alpine";
  target = [];
  suffix = [];
  is_default = false;
  build_args = [];
  platforms = txt "linux/amd64" ∷ [];
}

abbrev slim : Variant
slim = record {
  name = txt "slim";
  dockerfile = txt "D";
  target = [];
  suffix = txt "-s";
  is_default = true;
  build_args = record { key = txt "A"; value = txt "1" } ∷ [];
  platforms = [];
}

abbrev two_variants : List Variant
two_variants = alpine ∷ slim ∷ []

table_parsed : parse_variants table ≡ ok two_variants
unfolding parse_variants split_lines starts_with trim is_space drop_while drop_end_while split_on
    parse_rows parse_row is_variant_name includes ◌==◌ parse_variant_build_args traverse
    parse_key_value index_of parse_platforms check_platform is_platform is_platform_part
    settle_default
table_parsed = refl

parse_variants-IsTable_example : IsTable two_variants
parse_variants-IsTable_example = parse_variants-IsTable table two_variants table_parsed

only_slim : variant_selection two_variants (some (txt "slim,")) ≡ ok (slim ∷ [])
unfolding variant_selection split_list split_runs starts_with trim is_space drop_while
    drop_end_while includes ◌==◌
only_slim = refl

wanted_slim : split_list (some (txt "slim,")) ≡ txt "slim" ∷ []
unfolding split_list split_runs starts_with trim is_space drop_while drop_end_while
wanted_slim = refl

names_wanted : split_list (some (txt "slim,")) ≢ []
names_wanted e = cc (wanted_slim, e)

slim_wanted : IsIn (txt "slim") (split_list (some (txt "slim,")))
slim_wanted = rw wanted_slim (inl refl)

slim_unknown : IsIn (txt "slim") (names_of (alpine ∷ [])) → ⊥
slim_unknown (inl e) = cc
slim_unknown (inr i) = i

variant_selection_unknown_example :
    (e : Error) × (variant_selection (alpine ∷ []) (some (txt "slim,")) ≡ err e)
variant_selection_unknown_example =
    variant_selection_unknown (alpine ∷ []) (some (txt "slim,")) (txt "slim") slim_wanted
      slim_unknown

sanitize_tag_name_iff_example :
    (((v : Text) × (sanitize_tag_name v ≡ ok (txt "v1.2"))) ↔ IsTagName (txt "v1.2"))
    × ((sanitize_tag_name (txt "v1.2") ≡ ok (txt "v1.2")) ↔ IsTagName (txt "v1.2"))
sanitize_tag_name_iff_example = sanitize_tag_name_iff (txt "v1.2")

abbrev legal_version : AreTagUnits (txt "1.2")
legal_version = (refl, (refl, (refl, tt)))

slim_staged : staging_tag_name (txt "1.2") (txt "ab") (txt "ab") ≡ ok (txt "staging-1.2-ab-ab")
unfolding staging_tag_name sanitize_tag_name trim is_space drop_while drop_end_while collapse
slim_staged = refl

staging_tag_name_injective_example : txt "ab" ≡ txt "ab"
staging_tag_name_injective_example =
    staging_tag_name_injective (txt "1.2") (txt "ab") legal_version (refl, (refl, tt)) (txt "ab")
      (txt "ab") (txt "staging-1.2-ab-ab") (refl, (refl, tt)) (refl, (refl, tt)) slim_staged
      slim_staged

normalized : normalize_image_base (txt " https://Docker.io/Me/App/ ") ≡ ok (txt "me/app")
unfolding normalize_image_base check_image_base strip_image_base first_piece is_image_name trim
    is_space drop_while drop_end_while to_lower lower_unit starts_with strip_prefix has_unit ◌==◌
normalized = refl

abbrev ghcr_env : Env
ghcr_env name = elim (name == txt "GHCR_TOKEN") [
  | true ↦ some (txt "t")
  | false ↦ elim (name == txt "GITHUB_REPOSITORY") [ true ↦ some (txt "Me/App") | false ↦ none ]
]

abbrev ghcr_registries : List Registry
ghcr_registries = registries_from ghcr_env

abbrev ghcr_images : List Image
ghcr_images = record { base = txt "ghcr.io/me/app"; registry_id = ghcr; preview = false } ∷ []

images_found : images_from ghcr_env ghcr_registries (txt "App") false ≡ ok ghcr_images
unfolding images_from registries_from ghcr_namespace_from split_list split_runs read_optional
    traverse derived_image normalize_image_base check_image_base strip_image_base first_piece
    is_image_name trim is_space drop_while drop_end_while split_on to_lower lower_unit starts_with
    strip_prefix has_unit ◌==◌
images_found = refl

images_from-HasCredentials_example : All (HasCredentials ghcr_registries) ghcr_images
images_from-HasCredentials_example =
    images_from-HasCredentials ghcr_env ghcr_registries (txt "App") ghcr_images images_found
