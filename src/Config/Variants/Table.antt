-- ===== src/Config/Variants/Table.antt =====
-- What a variant table that `parseVariants` accepts is like.
use message_pusher.Base.{
  ◌≡◌, ◌≢◌, ◌⊎◌, refl, sym, true, false, not, List, [], ◌∷◌, some, arith, is_empty, length, All,
  IsIn, IsDistinct, inl, inr, IsIn-map_inv, All-IsIn,
}
use message_pusher.Text.{Text, includes}
use message_pusher.Text.Laws.{includes_not}
use message_pusher.Result.{ok, >>=-eq-ok, guard-eq-ok}
use message_pusher.Config.Lists.{split_lines}
use message_pusher.Config.Variants.{
  Variant, is_variant_name, parse_row, parse_rows, names_of, default_first, flagged, settle_default,
  parse_variants,
}

abbrev pub HasVariantName : Variant → Type 0
HasVariantName v = is_variant_name v.name ≡ true

-- A table fit for publishing.
pub record IsTable (vs : List Variant) : Type 0 where
  pub named : All HasVariantName vs
  pub distinct : IsDistinct (names_of vs)
  pub one_default : length (flagged vs) ≡ 1

-- A parsed row has a legal name that no row above it has.
pub parse_row-eq-ok :
    (seen : List Text) (line : Text) (v : Variant)
    → parse_row seen line ≡ ok v
    → HasVariantName v × ¬ IsIn v.name seen
unfolding parse_row
parse_row-eq-ok seen line v h =
    let facts : HasVariantName v × (includes seen v.name ≡ false) = ground arith in
    (facts.0, includes_not seen v.name facts.1)

-- A name that no variant has is not among the names.
name_fresh :
    (n : Text) (vs : List Variant) → All (λ (v : Variant). v.name ≢ n) vs → ¬ IsIn n (names_of vs)
name_fresh n vs h m =
    let (v, i, e) = IsIn-map_inv (λ (v : Variant). v.name) n vs m in
    All-IsIn (λ (v : Variant). v.name ≢ n) v vs h i (sym e)

module _ (n : Text) (seen : List Text) where
  weaken_head :
      (vs : List Variant)
      → All (λ (v : Variant). ¬ IsIn v.name (n ∷ seen)) vs
      → All (λ (v : Variant). v.name ≢ n) vs
  weaken_head [] h = tt
  weaken_head (v ∷ vs) (p, h) = (λ e. p (inl e), weaken_head vs h)

  weaken_tail :
      (vs : List Variant)
      → All (λ (v : Variant). ¬ IsIn v.name (n ∷ seen)) vs
      → All (λ (v : Variant). ¬ IsIn v.name seen) vs
  weaken_tail [] h = tt
  weaken_tail (v ∷ vs) (p, h) = (λ m. p (inr m), weaken_tail vs h)

-- Rows have legal names, different from one another and from those seen before.
pub parse_rows_names :
    (seen lines : List Text) (vs : List Variant)
    → parse_rows seen lines ≡ ok vs
    → All HasVariantName vs
      × IsDistinct (names_of vs)
      × All (λ (v : Variant). ¬ IsIn v.name seen) vs
unfolding parse_rows
parse_rows_names seen [] [] h = (tt, tt, tt)
parse_rows_names seen [] (v ∷ vs) h = cc
parse_rows_names seen (line ∷ lines) vs h =
    let (v, row, h1) = >>=-eq-ok (parse_row seen line) _ h in
    let (ws, rest, h2) = >>=-eq-ok (parse_rows (v.name ∷ seen) lines) _ h1 in
    let (valid, fresh) = parse_row-eq-ok seen line v row in
    let (named, distinct, unseen) = parse_rows_names (v.name ∷ seen) lines ws rest in
    let e : vs ≡ v ∷ ws = ground arith in
    rw e (
      (valid, named),
      (λ m. name_fresh v.name ws (weaken_head v.name seen ws unseen) m, distinct),
      (fresh, weaken_tail v.name seen ws unseen),
    )

parse_rows-nonempty :
    (lines : List Text) (vs : List Variant)
    → parse_rows [] lines ≡ ok vs
    → not (is_empty lines) ≡ true
    → vs ≢ []
unfolding parse_rows
parse_rows-nonempty [] vs h filled = cc
parse_rows-nonempty (line ∷ lines) vs h filled = ground arith

module _ (vs : List Variant) where
  names-default_first : names_of (default_first vs) ≡ names_of vs
  names-default_first = go vs
    where
      go : (vs : List Variant) → names_of (default_first vs) ≡ names_of vs
      go [] = refl
      go (v ∷ vs) = refl

HasVariantName-default_first :
    (vs : List Variant) → All HasVariantName vs → All HasVariantName (default_first vs)
HasVariantName-default_first [] h = tt
HasVariantName-default_first (v ∷ vs) h = h

-- `settleDefault` changes only who is the default, and leaves exactly one.
settle_default-one :
    (vs ws : List Variant)
    → vs ≢ []
    → settle_default vs ≡ ok ws
    → (length (flagged ws) ≡ 1) × ((ws ≡ vs) ⊎ (ws ≡ default_first vs))
unfolding settle_default
settle_default-one [] ws ne h = absurd (ne refl)
settle_default-one (v ∷ []) ws ne h = ground arith
settle_default-one (v ∷ w ∷ vs) ws ne h = ground arith

-- `parseVariants` accepts only tables with legal, different names and exactly one default variant,
-- the owner of `latest`.
pub parse_variants-IsTable :
    (raw : Text) (vs : List Variant) → parse_variants raw ≡ ok vs → IsTable vs
unfolding parse_variants
parse_variants-IsTable raw vs h =
    let lines = split_lines (some raw) in
    let (filled, h1) = guard-eq-ok (not (is_empty lines)) _ _ h in
    let (us, rows, settled) = >>=-eq-ok (parse_rows [] lines) settle_default h1 in
    let (named, distinct, _) = parse_rows_names [] lines us rows in
    let (one, source) =
      settle_default-one us vs (parse_rows-nonempty lines us rows filled) settled in
    elim source [
      | inl e ↦ record { named = rw e named; distinct = rw e distinct; one_default = one }
      | inr e ↦ record {
        named = rw e (HasVariantName-default_first us named);
        distinct = rw (e, names-default_first us) distinct;
        one_default = one;
      }
    ]
