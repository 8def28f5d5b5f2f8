-- ===== src/Matrix/Agreement.antt =====
-- matrix.mjs and resolve.mjs read one variant table.
use message_pusher.Base.{
  ◌≡◌, refl, ◌∙◌, ap, not, List, [], Option, some, is_empty, Bool-cases, inl, inr,
}
use message_pusher.Text.{Text, txt, Env}
use message_pusher.Result.{Result, ok, >>=-eq-ok, guard-eq-ok}
use message_pusher.Config.Lists.{read_optional}
use message_pusher.Config.Images.{images_from, build_options_from}
use message_pusher.Config.Variants.{
  Variant, names_of, variant_table_raw, parse_variants, variant_selection,
}
use message_pusher.State.{State}
use message_pusher.Resolve.{
  dispatch_input, variant_table, resolve_version, resolve_release, is_dry_run, release_of,
}
use message_pusher.Matrix.{Matrix, plan_matrix}

same_table :
    (env : Env) (read_file : Text → Option Text)
    → variant_table env read_file [] ≡ variant_table_raw env read_file
unfolding variant_table_raw
same_table env read_file =
    elim (Bool-cases (is_empty (read_optional (env (txt "DOCKER_VARIANTS"))))) [
      | inl e ↦ rw e refl
      | inr e ↦ rw e refl
    ]

ok_same : {A : Type 0} (a b : A) (r : Result A) → r ≡ ok a → r ≡ ok b → a ≡ b
ok_same a b r e f = cc

Selected : Env → (Text → Option Text) → (Text → Option Text) → List Variant → Type 0
Selected env inputs read_file variants =
    (parsed : List Variant) × (parse_variants (variant_table_raw env read_file) ≡ ok parsed)
    × (variant_selection parsed (some (dispatch_input env inputs (txt "VARIANTS"))) ≡ ok variants)

module _ (env : Env) (inputs read_file : Text → Option Text) where
  of_release :
      (state : State)
      → resolve_release env inputs read_file [] ≡ ok state
      → Selected env inputs read_file state.variants
  unfolding resolve_release Selected
  of_release state h =
      let (named, _, h1) = >>=-eq-ok (resolve_version _ _ _) _ h in
      let (parsed, e, h2) = >>=-eq-ok (parse_variants _) _ h1 in
      let (variants, f, h3) = >>=-eq-ok (variant_selection parsed _) _ h2 in
      let (images, _, h4) = >>=-eq-ok (images_from env _ _ (is_dry_run env inputs)) _ h3 in
      let (options, _, h5) = >>=-eq-ok (build_options_from env (is_dry_run env inputs)) _ h4 in
      let given = release_of env (is_dry_run env inputs) named variants images options in
      let same : given ≡ state = ok_same given state (ok given) refl h5 in
      rw (← same) (parsed, rw (same_table env read_file) at e, f)

  of_matrix :
      (m : Matrix)
      → plan_matrix env inputs read_file [] ≡ ok m
      → Selected env inputs read_file m.variants × (m.variant ≡ names_of m.variants)
  unfolding plan_matrix Selected
  of_matrix m h =
      let (parsed, e, h1) = >>=-eq-ok (parse_variants _) _ h in
      let (variants, f, h2) = >>=-eq-ok (variant_selection parsed _) _ h1 in
      let (_, h3) = guard-eq-ok (not (is_empty variants)) _ _ h2 in
      let given : Matrix = record { variant = names_of variants; variants = variants } in
      let same : given ≡ m = ok_same given m (ok given) refl h3 in
      rw (← same) ((parsed, e, f), refl)

  -- The matrix that is planned and the release that is resolved never disagree: if both succeed in
  -- one environment, the jobs of the matrix are for exactly the variants of the release.
  pub plan_matrix-agrees :
      (m : Matrix) (state : State)
      → plan_matrix env inputs read_file [] ≡ ok m
      → resolve_release env inputs read_file [] ≡ ok state
      → (m.variants ≡ state.variants) × (m.variant ≡ names_of state.variants)
  unfolding Selected
  plan_matrix-agrees m state planned resolved =
      let ((parsed, e, f), named) = of_matrix m planned in
      let (table, e', f') = of_release state resolved in
      let same : parsed ≡ table = ok_same parsed table _ e e' in
      let agreed : m.variants ≡ state.variants =
        ok_same m.variants state.variants _ f (rw (← same) at f') in
      (agreed, named ∙ ap names_of agreed)
