-- ===== src/Prepare/Arch.antt =====
-- .forgejo/scripts/prepare.mjs, lines 58-108: architectures, their QEMU handlers, and the platforms
-- that a run asks for.
pub mod Laws
pub mod Handlers
use message_pusher.Base.{
  Bool, true, false, not, List, [], ◌∷◌, ◌++◌, map, Option, none, some, filter, if◌then◌else◌,
}
use message_pusher.Text.{Text, txt, Env, ◌==◌, split_on, to_lower}
use message_pusher.Result.{Result, ok, err, ◌>>=◌}
use message_pusher.Config.Lists.{read_optional, is_nonempty, platforms_for}
use message_pusher.Text.{or_text}
use message_pusher.Config.Images.{BuildOptions, is_slash, second_piece, build_options_from}
use message_pusher.Config.Variants.{Variant, variant_table_raw, parse_variants}
use message_pusher.Machine.{Machine, Exit, succeeded}
use message_pusher.Meta.Expressions.{dedupe}
use message_pusher.Endpoints.{command}

-- ARCH_ALIASES
abbrev pub arch_aliases : List (Text × Text)
arch_aliases =
    (txt "x86_64", txt "amd64")
    ∷ (txt "amd64", txt "amd64")
    ∷ (txt "x64", txt "amd64")
    ∷ (txt "aarch64", txt "arm64")
    ∷ (txt "arm64", txt "arm64")
    ∷ (txt "armv7l", txt "arm")
    ∷ (txt "armv6l", txt "arm")
    ∷ (txt "i386", txt "386")
    ∷ (txt "i686", txt "386")
    ∷ (txt "ia32", txt "386")
    ∷ []

-- `table[key] || key`, for a table without empty values. The names that every object inherits are
-- no machine names.
unfoldable pub alias_of : List (Text × Text) → Text → Text
alias_of [] value = value
alias_of ((name, arch) ∷ aliases) value = if name == value then arch else alias_of aliases value

unfoldable pub normalize_arch : Text → Text
unfolding alias_of
normalize_arch machine = alias_of arch_aliases (to_lower (read_optional (some machine)))

-- `String(platform).split('/')[1]`, or the empty text
abbrev pub arch_part : Text → Text
arch_part platform = second_piece (split_on is_slash platform)

abbrev pub arch_of : Text → Text
arch_of platform = normalize_arch (arch_part platform)

unfoldable pub arches_of : List Text → List Text
arches_of platforms = filter is_nonempty (dedupe (map arch_of platforms))

unfoldable pub binfmt_handler : Text → Text
unfolding ◌==◌
binfmt_handler arch =
    if arch == txt "amd64"
    then txt "qemu-x86_64"
    else if arch == txt "386"
    then txt "qemu-i386"
    else if arch == txt "arm64"
    then txt "qemu-aarch64"
    else txt "qemu-" ++ arch

-- The platforms of all variants.
unfoldable pub variant_platforms : BuildOptions → List Variant → List Text
variant_platforms options [] = []
variant_platforms options (v ∷ variants) =
    platforms_for v.platforms options.platforms ++ variant_platforms options variants

unfoldable pub requested_platforms : Env → (Text → Option Text) → Text → Result (List Text)
requested_platforms env read_file table = do
  options ← build_options_from env false
  variants ← parse_variants (or_text table (variant_table_raw env read_file))
  ok (dedupe (variant_platforms options variants ++ options.platforms))

module _ (machine : Machine) where
  unfoldable pub host_arch : machine.World → machine.World × Text
  host_arch w =
      let (w', e) = machine.run w (command (txt "uname") (txt "-m" ∷ [])) in
      (w', normalize_arch (if succeeded e then e.stdout else machine.arch))
