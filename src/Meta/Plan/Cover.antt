-- ===== src/Meta/Plan/Cover.antt =====
-- Every variant of the state has its build, with all of the state's images.
use message_pusher.Base.{
  ◌≡◌, ◌∙◌, sym, ap, List, [], ◌∷◌, Option, map, IsIn, not, is_empty, is_empty-eq-true, subst, true,
}
use message_pusher.Text.{Text, join}
use message_pusher.Result.{
  Result, ok, >>=-eq-ok, guard-eq-ok, IsIn-traverse_intro, no_tags, duplicate_tags,
}
use message_pusher.Runtime.{Runtime}
use message_pusher.Config.Lists.{KeyValue, parse_key_values}
use message_pusher.Config.Variants.{Variant}
use message_pusher.State.{State, Build}
use message_pusher.Meta.Expressions.{assert_supported_expressions, general_expressions}
use message_pusher.Meta.Rules.{Rule, Flavor, parse_tag_rules, parse_flavor}
use message_pusher.Meta.Generate.{BaseTag, generate_tags}
use message_pusher.Meta.Plan.{
  ctx_of, build_labels, build_of, plan_build, plan_builds, variant_tag_names, find_duplicate_tags,
  or_default, default_tags, default_flavor, check_rules, space, value_of, compute_builds,
}

module _ (runtime : Runtime) (state : State) where
  -- A build is one of this state for a variant.
  abbrev pub IsBuildOf : Variant → Build → Type 0
  IsBuildOf v b =
      (labels : List KeyValue) × (names : List Text) × (b ≡ build_of state labels v names)

  plan_build-IsBuildOf :
      (tags : List (BaseTag runtime)) (labels : List KeyValue) (v : Variant) (b : Build)
      → plan_build runtime state tags labels v ≡ ok b
      → IsBuildOf v b
  unfolding plan_build
  plan_build-IsBuildOf tags labels v b h =
      let (names, _, h1) = >>=-eq-ok (variant_tag_names runtime tags v state.is_tag_event) _ h in
      (labels, names, sym (ok_injective (build_of state labels v names) b h1))
    where
      ok_injective : (a b : Build) → ◌≡◌ {A = Result Build} (ok a) (ok b) → a ≡ b
      ok_injective a b e = cc

  plan_builds-cover :
      (rules : List Rule) (flavor : Flavor) (custom : List KeyValue) (now : Text)
      (builds : List Build) (v : Variant)
      → plan_builds runtime state rules flavor custom now ≡ ok builds
      → IsIn v state.variants
      → (b : Build) × IsIn b builds × IsBuildOf v b
  unfolding plan_builds
  plan_builds-cover rules flavor custom now builds v h i =
      let (tags, _, h1) = >>=-eq-ok (generate_tags runtime rules flavor (ctx_of state)) _ h in
      let (_, h2) = guard-eq-ok (not (is_empty tags)) no_tags _ h1 in
      let labels = build_labels state custom now in
      let (b, j, e) =
        IsIn-traverse_intro (plan_build runtime state tags labels) state.variants builds v h2 i in
      (b, j, plan_build-IsBuildOf tags labels v b e)

  -- What a plan that is returned has passed.
  pub compute_builds-planned :
      (tags_raw flavor_raw labels_raw : Option Text) (now : Text) (builds : List Build)
      → compute_builds runtime state tags_raw flavor_raw labels_raw now ≡ ok builds
      → (rules : List Rule) × (flavor : Flavor) × (custom : List KeyValue) × (plan_builds runtime
            state rules flavor custom now
          ≡ ok builds)
        × (find_duplicate_tags builds ≡ [])
  unfolding compute_builds
  compute_builds-planned tags_raw flavor_raw labels_raw now builds h =
      let (rules, _, h1) = >>=-eq-ok (parse_tag_rules (or_default tags_raw default_tags)) _ h in
      let (flavor, _, h2) = >>=-eq-ok (parse_flavor (or_default flavor_raw default_flavor)) _ h1 in
      let (_, _, h3) = >>=-eq-ok (check_rules rules) _ h2 in
      let (_, _, h4) =
        >>=-eq-ok
          (assert_supported_expressions (join space (flavor.prefix ∷ flavor.suffix ∷ []))
            general_expressions)
          _ h3 in
      let (custom, _, h5) = >>=-eq-ok (parse_key_values labels_raw) _ h4 in
      let (_, _, h6) =
        >>=-eq-ok
          (assert_supported_expressions (join space (map value_of custom)) general_expressions) _
          h5 in
      let (planned, made, h7) =
        >>=-eq-ok (plan_builds runtime state rules flavor custom now) _ h6 in
      let (clean, h8) =
        guard-eq-ok (is_empty (find_duplicate_tags planned))
          (duplicate_tags (find_duplicate_tags planned)) _ h7 in
      let same : planned ≡ builds = ok_injective planned builds h8 in
      (
        rules,
        flavor,
        custom,
        made ∙ ap ok same,
        is_empty-eq-true (find_duplicate_tags builds)
            (subst (λ l. is_empty (find_duplicate_tags l) ≡ true) same clean),
      )
    where
      ok_injective : (a b : List Build) → ◌≡◌ {A = Result (List Build)} (ok a) (ok b) → a ≡ b
      ok_injective a b e = cc

  pub compute_builds-cover :
      (tags_raw flavor_raw labels_raw : Option Text) (now : Text) (builds : List Build)
      (v : Variant)
      → compute_builds runtime state tags_raw flavor_raw labels_raw now ≡ ok builds
      → IsIn v state.variants
      → (b : Build) × IsIn b builds × IsBuildOf v b
  compute_builds-cover tags_raw flavor_raw labels_raw now builds v h i =
      let (rules, flavor, custom, made, _) =
        compute_builds-planned tags_raw flavor_raw labels_raw now builds h in
      plan_builds-cover rules flavor custom now builds v made i
