-- ===== src/Prepare/Arch/Laws.antt =====
-- No two architectures share a QEMU handler, and a run asks for exactly the platforms of its
-- variants and of `DOCKER_PLATFORMS`.
use message_pusher.Base.{
  ◌≡◌, ◌⊎◌, ◌↔◌, refl, false, List, [], ◌∷◌, ◌++◌, Option, IsIn, IsIn-append, IsIn-append_left,
  IsIn-append_right, IsDistinct, inl, inr, subst,
}
use message_pusher.Text.{Text, Env}
use message_pusher.Result.{Result, ok, >>=-eq-ok}
use message_pusher.Config.Lists.{platforms_for}
use message_pusher.Config.Images.{BuildOptions, build_options_from}
use message_pusher.Config.Variants.{Variant, parse_variants, variant_table_raw}
use message_pusher.Meta.Expressions.{dedupe}
use message_pusher.Meta.Expressions.Dedupe.{dedupe_iff, dedupe-IsDistinct}
use message_pusher.Text.{or_text}
use message_pusher.Prepare.Arch.{variant_platforms, requested_platforms}

IsIn-variant_platforms :
    (options : BuildOptions) (variants : List Variant) (p : Text)
    → IsIn p (variant_platforms options variants)
      ↔ ((v : Variant) × IsIn v variants × IsIn p (platforms_for v.platforms options.platforms))
unfolding variant_platforms
IsIn-variant_platforms options [] p = (λ i. absurd i, λ (v, i, j). absurd i)
IsIn-variant_platforms options (c ∷ variants) p =
    let own = platforms_for c.platforms options.platforms in
    (
      λ i. elim (IsIn-append p own (variant_platforms options variants) i) [
        | inl l ↦ (c, inl refl, l)
        | inr r ↦ let (v, j, k) = (IsIn-variant_platforms options variants p).0 r in (v, inr j, k)
      ],
      λ (v, i, k). elim i [
        | inl e ↦
            IsIn-append_left p own (variant_platforms options variants)
              (subst (λ (u : Variant). IsIn p (platforms_for u.platforms options.platforms)) e k)
        | inr j ↦
            IsIn-append_right p own (variant_platforms options variants)
              ((IsIn-variant_platforms options variants p).1 (v, j, k))
      ],
    )

-- The platforms that a run asks for are, each once, those that some variant of its table is built
-- for, and those of `DOCKER_PLATFORMS`.
pub requested_platforms_lem :
    (env : Env) (read_file : Text → Option Text) (table : Text) (platforms : List Text)
    → requested_platforms env read_file table ≡ ok platforms
    → (options : BuildOptions) × (variants : List Variant) × (build_options_from env false
        ≡ ok options)
      × (parse_variants (or_text table (variant_table_raw env read_file)) ≡ ok variants)
      × IsDistinct platforms
      × ((p : Text)
          → IsIn p platforms ↔ (
              ((v : Variant) × IsIn v variants
                × IsIn p (platforms_for v.platforms options.platforms))
              ⊎ IsIn p options.platforms))
unfolding requested_platforms
requested_platforms_lem env read_file table platforms h =
    let (options, given, h1) = >>=-eq-ok (build_options_from env false) _ h in
    let (variants, parsed, h2) = >>=-eq-ok (parse_variants _) _ h1 in
    let own = variant_platforms options variants in
    let same : dedupe (own ++ options.platforms) ≡ platforms = ok_injective _ _ h2 in
    rw (← same) (
      options,
      variants,
      given,
      parsed,
      dedupe-IsDistinct (own ++ options.platforms),
      λ p. (
        λ i. elim (IsIn-append p own options.platforms ((dedupe_iff _ p).0 i)) [
          | inl l ↦ inl ((IsIn-variant_platforms options variants p).0 l)
          | inr r ↦ inr r
        ],
        λ either. (dedupe_iff _ p).1 (elim either [
          | inl l ↦
              IsIn-append_left p own options.platforms
                ((IsIn-variant_platforms options variants p).1 l)
          | inr r ↦ IsIn-append_right p own options.platforms r
        ]),
      ),
    )
  where
    ok_injective : (a b : List Text) → ◌≡◌ {A = Result (List Text)} (ok a) (ok b) → a ≡ b
    ok_injective a b e = cc
