-- ===== src/Config/Variants/Select.antt =====
-- What `variantSelection` keeps, and when it refuses.
use message_pusher.Base.{
  ◌≡◌, ◌≢◌, ◌↔◌, refl, Bool, true, false, not, List, [], ◌∷◌, Option, arith, is_empty, filter,
  if◌then◌else◌, All, All-of_IsIn, IsIn, IsIn-filter, IsIn-filter_intro, filter-eq-nil,
}
use message_pusher.Text.{Text, includes}
use message_pusher.Text.Laws.{includes_iff, includes-eq-false}
use message_pusher.Result.{ok, err, Error, unknown_variants}
use message_pusher.Config.Lists.{split_list}
use message_pusher.Config.Variants.{Variant, names_of, variant_selection}

module _ (vs : List Variant) (raw : Option Text) where
  abbrev is_wanted : Variant → Bool
  is_wanted v = includes (split_list raw) v.name

  abbrev is_unknown : Text → Bool
  is_unknown name = not (includes (names_of vs) name)

  known_of_not_unknown : (n : Text) → is_unknown n ≡ false → IsIn n (names_of vs)
  known_of_not_unknown n h = (includes_iff (names_of vs) n).0 (ground arith)

  selection-eq-ok :
      (ws : List Variant)
      → split_list raw ≢ []
      → variant_selection vs raw ≡ ok ws
      → (filter is_unknown (split_list raw) ≡ []) × (ws ≡ filter is_wanted vs)
  unfolding variant_selection
  selection-eq-ok ws ne h = ground arith

  -- If names are wanted and all are known, exactly the variants with a wanted name are kept.
  pub variant_selection_sound :
      (ws : List Variant)
      → split_list raw ≢ []
      → variant_selection vs raw ≡ ok ws
      → All (λ n. IsIn n (names_of vs)) (split_list raw)
        × ((v : Variant) → IsIn v ws ↔ (IsIn v vs × IsIn v.name (split_list raw)))
  variant_selection_sound ws ne h =
      let (known, e) = selection-eq-ok ws ne h in
      (
        All-of_IsIn _ (split_list raw)
            λ n m. known_of_not_unknown n (filter-eq-nil is_unknown (split_list raw) known n m),
        λ v. rw e (
          λ m.
              let (i, t) = IsIn-filter is_wanted v vs m in
              (i, (includes_iff (split_list raw) v.name).0 t),
          λ (i, w). IsIn-filter_intro is_wanted v vs i ((includes_iff (split_list raw) v.name).1 w),
        ),
      )

  -- A wanted name that no variant has is an error.
  pub variant_selection_unknown :
      (n : Text)
      → IsIn n (split_list raw)
      → ¬ IsIn n (names_of vs)
      → (e : Error) × (variant_selection vs raw ≡ err e)
  unfolding variant_selection
  variant_selection_unknown n m fresh =
      let t : is_unknown n ≡ true = rw (includes-eq-false (names_of vs) n fresh) refl in
      let found = IsIn-filter_intro is_unknown n (split_list raw) m t in
      go (split_list raw) (filter is_unknown (split_list raw)) m found
    where
      go :
          (wanted unknown : List Text)
          → IsIn n wanted
          → IsIn n unknown
          → (e : Error) × ((if is_empty wanted
                then ok vs
                else if not (is_empty unknown)
                then err (unknown_variants unknown (names_of vs))
                else ok (filter is_wanted vs))
              ≡ err e)
      go [] unknown m f = absurd m
      go (w ∷ ws) [] m f = absurd f
      go (w ∷ ws) (u ∷ us) m f = (unknown_variants (u ∷ us) (names_of vs), refl)
