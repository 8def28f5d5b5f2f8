-- ===== src/Meta/Plan/Names.antt =====
-- The tags of one variant, and the whole plan of `computeBuilds`.
use message_pusher.Base.{
  ◌≡◌, ◌↔◌, ◌⊎◌, refl, sym, ◌∙◌, Bool, not, List, [], ◌∷◌, ◌++◌, Option, arith, if◌then◌else◌,
  filter, IsIn, All, All-of_IsIn, IsDistinct, IsIn-append, IsIn-append_left, IsIn-append_right,
  IsIn-map, IsIn-map_inv, IsIn-filter, IsIn-filter_intro, map, true, false, inl, inr,
}
use message_pusher.Text.{Text}
use message_pusher.Result.{Result, ok, traverse, >>=-eq-ok, IsIn-traverse, IsIn-traverse_intro}
use message_pusher.Config.Tags.{sanitize_tag_name}
use message_pusher.Config.Tags.Laws.{IsTagName, sanitize_tag_name-IsTagName}
use message_pusher.Config.Variants.{Variant}
use message_pusher.State.{State, Build}
use message_pusher.Runtime.{Runtime}
use message_pusher.Meta.Expressions.{dedupe}
use message_pusher.Meta.Expressions.Dedupe.{dedupe_iff, dedupe-IsDistinct}
use message_pusher.Meta.Generate.{BaseTag}
use message_pusher.Meta.Plan.{suffixed, wanted_names, variant_tag_names, compute_builds}
use message_pusher.Meta.Plan.Cover.{compute_builds-planned}
use message_pusher.Meta.Plan.Duplicates.{NoSharedTag, find_duplicate_tags_iff}

ok_injective : (a b : Text) → ◌≡◌ {A = Result Text} (ok a) (ok b) → a ≡ b
ok_injective a b e = cc

module _ (runtime : Runtime) (tags : List (BaseTag runtime)) (v : Variant)
    (is_tag_event : Bool) where
  names_parts :
      (names : List Text)
      → variant_tag_names runtime tags v is_tag_event ≡ ok names
      → (raw_names : List Text) × (traverse sanitize_tag_name
            (wanted_names runtime tags v is_tag_event)
          ≡ ok raw_names)
        × (names ≡ dedupe raw_names)
  unfolding variant_tag_names
  names_parts names h =
      let (raw_names, e, h1) =
        >>=-eq-ok (traverse sanitize_tag_name (wanted_names runtime tags v is_tag_event)) _ h in
      (raw_names, e, ground arith)

  -- What a variant asks for: as the default one every tag as it is, and with or without that every tag
  -- that is not marked as `latest`, with its suffix, and on a tag event its own name.
  abbrev pub IsAsked : Text → Type 0
  IsAsked w =
      ((v.is_default ≡ true) × (t : BaseTag runtime) × IsIn t tags × (w ≡ t.name))
      ⊎ ((t : BaseTag runtime) × IsIn t tags × (t.is_latest ≡ false) × (w ≡ t.name ++ v.suffix))
      ⊎ ((is_tag_event ≡ true) × (w ≡ v.name))

  abbrev name_of : BaseTag runtime → Text
  name_of t = t.name

  abbrev name_with : BaseTag runtime → Text
  name_with t = t.name ++ v.suffix

  abbrev is_unmarked : BaseTag runtime → Bool
  is_unmarked t = not t.is_latest

  abbrev own_name : Bool → List Text
  own_name event = if event then v.name ∷ [] else []

  unmarked_of : (b : Bool) → not b ≡ true → b ≡ false
  unmarked_of true h = cc h
  unmarked_of false h = refl

  suffixed_iff :
      (w : Text)
      → IsIn w (suffixed runtime tags v.suffix)
        ↔ ((t : BaseTag runtime) × IsIn t tags × (t.is_latest ≡ false) × (w ≡ t.name ++ v.suffix))
  suffixed_iff w = (
    λ i.
        let (t, j, e) = IsIn-map_inv name_with w (filter is_unmarked tags) i in
        let (k, q) = IsIn-filter is_unmarked t tags j in (t, k, unmarked_of t.is_latest q, e),
    λ (t, i, q, e).
        let j = IsIn-filter_intro is_unmarked t tags i (rw q refl) in
        rw e (IsIn-map name_with t (filter is_unmarked tags) j),
  )

  own_iff : (w : Text) (event : Bool) → IsIn w (own_name event) ↔ ((event ≡ true) × (w ≡ v.name))
  own_iff w true = (λ i. elim i [ inl e ↦ (refl, e) | inr n ↦ absurd n ], λ (_, e). inl e)
  own_iff w false = (λ i. absurd i, λ (h, _). cc h)

  abbrev IsSuffixed : Text → Type 0
  IsSuffixed w =
      (t : BaseTag runtime) × IsIn t tags × (t.is_latest ≡ false) × (w ≡ t.name ++ v.suffix)

  base_iff :
      (w : Text) (default_one : Bool)
      → IsIn w (
          if default_one
          then map name_of tags ++ suffixed runtime tags v.suffix
          else suffixed runtime tags v.suffix)
        ↔ (((default_one ≡ true) × (t : BaseTag runtime) × IsIn t tags × (w ≡ t.name))
            ⊎ IsSuffixed w)
  base_iff w false = (
    λ i. inr ((suffixed_iff w).0 i),
    λ h. elim h [ inl (wrong, _, _, _) ↦ cc wrong | inr k ↦ (suffixed_iff w).1 k ],
  )
  base_iff w true = (
    λ i. elim (IsIn-append w (map name_of tags) (suffixed runtime tags v.suffix) i) [
      | inl l ↦ let (t, k, e) = IsIn-map_inv name_of w tags l in inl (refl, t, k, e)
      | inr r ↦ inr ((suffixed_iff w).0 r)
    ],
    λ h. elim h [
      | inl (_, t, k, e) ↦
          IsIn-append_left w (map name_of tags) (suffixed runtime tags v.suffix)
            (rw e (IsIn-map name_of t tags k))
      | inr k ↦
          IsIn-append_right w (map name_of tags) (suffixed runtime tags v.suffix)
            ((suffixed_iff w).1 k)
    ],
  )

  wanted_names_iff : (w : Text) → IsIn w (wanted_names runtime tags v is_tag_event) ↔ IsAsked w
  wanted_names_iff w =
      let base =
        if v.is_default
        then map name_of tags ++ suffixed runtime tags v.suffix
        else suffixed runtime tags v.suffix in
      let own = own_name is_tag_event in
      let (to_base, of_base) = base_iff w v.is_default in
      let (to_own, of_own) = own_iff w is_tag_event in
      (
        λ i. elim (IsIn-append w base own i) [
          | inl l ↦ elim (to_base l) [ inl d ↦ inl d | inr k ↦ inr (inl k) ]
          | inr r ↦ inr (inr (to_own r))
        ],
        λ h. elim h [
          | inl d ↦ IsIn-append_left w base own (of_base (inl d))
          | inr (inl k) ↦ IsIn-append_left w base own (of_base (inr k))
          | inr (inr e) ↦ IsIn-append_right w base own (of_own e)
        ],
      )

  -- A variant's tags are exactly what it asks for, made legal, each once: as the default variant every
  -- base tag, and like every variant each base tag that is not marked as `latest` with its suffix, and
  -- on a tag event its own name.
  pub variant_tag_names_lem :
      (names : List Text)
      → variant_tag_names runtime tags v is_tag_event ≡ ok names
      → IsDistinct names
        × All IsTagName names
        × ((n : Text) → IsIn n names ↔ ((w : Text) × IsAsked w × (sanitize_tag_name w ≡ ok n)))
  variant_tag_names_lem names h =
      let wanted = wanted_names runtime tags v is_tag_event in
      let (raw_names, e, same) = names_parts names h in
      let from = λ (n : Text) (i : IsIn n (dedupe raw_names)).
        IsIn-traverse sanitize_tag_name wanted raw_names n e ((dedupe_iff raw_names n).0 i) in
      rw same (
        dedupe-IsDistinct raw_names,
        All-of_IsIn IsTagName (dedupe raw_names)
            λ n i. sanitize_tag_name-IsTagName (from n i).0 n (from n i).2,
        λ n. (
          λ i. let (w, j, named) = from n i in (w, (wanted_names_iff w).0 j, named),
          λ (w, asked, named).
              let i = (wanted_names_iff w).1 asked in
              let (m, j, named') = IsIn-traverse_intro sanitize_tag_name wanted raw_names w e i in
              let q : m ≡ n = ok_injective m n (sym named' ∙ named) in
              (dedupe_iff raw_names n).1 (rw q at j),
        ),
      )

-- A plan that `computeBuilds` accepts shares no tag name between two variants.
pub compute_builds-NoSharedTag :
    (runtime : Runtime) (state : State) (tags_raw flavor_raw labels_raw : Option Text) (now : Text)
    (builds : List Build)
    → compute_builds runtime state tags_raw flavor_raw labels_raw now ≡ ok builds
    → NoSharedTag builds
compute_builds-NoSharedTag runtime state tags_raw flavor_raw labels_raw now builds h =
    let (_, _, _, _, clean) =
      compute_builds-planned runtime state tags_raw flavor_raw labels_raw now builds h in
    (find_duplicate_tags_iff builds).0 clean
