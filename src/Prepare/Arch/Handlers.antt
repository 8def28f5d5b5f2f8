-- ===== src/Prepare/Arch/Handlers.antt =====
-- Which architecture a QEMU handler belongs to.
use message_pusher.Base.{
  ◌≡◌, ◌≢◌, refl, sym, ◌∙◌, ap, Bool, true, false, not, ◌&&◌, ◌||◌, List, [], ◌∷◌, some, arith, inl,
  inr, Bool-cases, if◌then◌else◌, drop,
}
use message_pusher.Text.{Text, txt, ◌==◌, to_lower}
use message_pusher.Text.Laws.{==_iff, ==_false}
use message_pusher.Config.Lists.{read_optional}
use message_pusher.Prepare.Arch.{arch_aliases, alias_of, normalize_arch, binfmt_handler}

-- The table leads to no `bad`, and has an entry of that name.
abbrev leads_elsewhere : List (Text × Text) → Text → Bool
leads_elsewhere [] bad = true
leads_elsewhere ((name, arch) ∷ aliases) bad = not (arch == bad) && leads_elsewhere aliases bad

abbrev has_name : List (Text × Text) → Text → Bool
has_name [] value = false
has_name ((name, arch) ∷ aliases) value = name == value || has_name aliases value

alias_of-has_name :
    (aliases : List (Text × Text)) (bad value : Text)
    → leads_elsewhere aliases bad ≡ true
    → alias_of aliases value ≡ bad
    → (value ≡ bad) × (has_name aliases value ≡ false)
unfolding alias_of
alias_of-has_name [] bad value clear h = (h, refl)
alias_of-has_name ((name, arch) ∷ aliases) bad value clear h = elim (Bool-cases (name == value)) [
  | inl found ↦
      let same : arch ≡ bad = ground arith in
      let t = (==_iff arch bad).1 same in absurd (ground arith)
  | inr other ↦ let rest = alias_of-has_name aliases bad value in ground arith
]

abbrev IsAliased : Text → Type 0
IsAliased bad = (leads_elsewhere arch_aliases bad ≡ true) × (has_name arch_aliases bad ≡ true)

normalize_arch-ne : (machine bad : Text) → IsAliased bad → normalize_arch machine ≢ bad
unfolding normalize_arch
normalize_arch-ne machine bad (clear, named) h =
    let value = to_lower (read_optional (some machine)) in
    let (same, unnamed) = alias_of-has_name arch_aliases bad value clear h in
    let unnamed' : has_name arch_aliases bad ≡ false =
      ap (has_name arch_aliases) (sym same) ∙ unnamed in
    cc (named, unnamed')

abbrev intel_64 : Text
intel_64 = txt "x86_64"

abbrev intel_32 : Text
intel_32 = txt "i386"

abbrev arm_64 : Text
arm_64 = txt "aarch64"

intel_64-IsAliased : IsAliased intel_64
unfolding ◌==◌
intel_64-IsAliased = (refl, refl)

intel_32-IsAliased : IsAliased intel_32
unfolding ◌==◌
intel_32-IsAliased = (refl, refl)

arm_64-IsAliased : IsAliased arm_64
unfolding ◌==◌
arm_64-IsAliased = (refl, refl)

-- The architecture that a handler stands for.
abbrev plain_arch : Text → Text
plain_arch name =
    if name == intel_64
    then txt "amd64"
    else if name == intel_32
    then txt "386"
    else if name == arm_64
    then txt "arm64"
    else name

unfoldable pub arch_of_handler : Text → Text
unfolding ◌==◌
arch_of_handler handler = plain_arch (drop 5 handler)

plain_arch_id : (x : Text) → x ≢ intel_64 → x ≢ intel_32 → x ≢ arm_64 → plain_arch x ≡ x
plain_arch_id x a b c = rw (==_false x intel_64 a, ==_false x intel_32 b, ==_false x arm_64 c) refl

binfmt_handler_id :
    (x : Text) → x ≢ intel_64 → x ≢ intel_32 → x ≢ arm_64 → arch_of_handler (binfmt_handler x) ≡ x
unfolding arch_of_handler binfmt_handler
binfmt_handler_id x a b c = elim (Bool-cases (x == txt "amd64")) [
  | inl e ↦ rw e (sym ((==_iff x (txt "amd64")).0 e))
  | inr e ↦ elim (Bool-cases (x == txt "386")) [
    | inl f ↦ rw (e, f) (sym ((==_iff x (txt "386")).0 f))
    | inr f ↦ elim (Bool-cases (x == txt "arm64")) [
      | inl g ↦ rw (e, f, g) (sym ((==_iff x (txt "arm64")).0 g))
      | inr g ↦ rw (e, f, g) (plain_arch_id x a b c)
    ]
  ]
]

-- From the handler of a normalized architecture its name can be read back; so no two of them share
-- a handler.
pub arch_of_handler-binfmt_handler :
    (machine : Text)
    → arch_of_handler (binfmt_handler (normalize_arch machine)) ≡ normalize_arch machine
arch_of_handler-binfmt_handler machine =
    binfmt_handler_id (normalize_arch machine)
      (normalize_arch-ne machine intel_64 intel_64-IsAliased)
      (normalize_arch-ne machine intel_32 intel_32-IsAliased)
      (normalize_arch-ne machine arm_64 arm_64-IsAliased)
