-- ===== src/Meta/Generate/Sorted.antt =====
-- The whole of `generateTags`: the loop, `latest` and the sort.
use message_pusher.Base.{
  ◌≡◌, ◌⊎◌, refl, sym, ◌∙◌, true, List, [], ◌∷◌, map, none, some, arith, IsIn, All, IsDistinct,
  Bool-cases, Option-cases, inl, inr,
}
use message_pusher.Text.{Text}
use message_pusher.Result.{ok, >>=-eq-ok}
use message_pusher.Runtime.{Runtime}
use message_pusher.Meta.Rules.{Rule, Flavor}
use message_pusher.Meta.RuleTag.{Ctx}
use message_pusher.Meta.Generate.{
  BaseTag, add, Collected, add_rules, add_latest, insert_tag, sort_tags, generate_tags, before,
  wants_latest, latest_name,
}
use message_pusher.Meta.Generate.Laws.{
  Tags, tag_name_of, LegalTag, IsTagSet, add-IsTagSet, Round, add_rules_keep, Round-IsTagSet,
  Unmarked, add-Unmarked,
}

module _ (runtime : Runtime) where
  insert_All :
      (P : BaseTag runtime → Type 0) (a : BaseTag runtime) (tags : Tags runtime)
      → P a
      → All P tags
      → All P (insert_tag runtime a tags)
  unfolding insert_tag
  insert_All P a [] p h = (p, tt)
  insert_All P a (b ∷ tags) p (q, h) = elim (Bool-cases (before runtime a b)) [
    | inl e ↦ rw e (p, (q, h))
    | inr e ↦ rw e (q, insert_All P a tags p h)
  ]

  pub sort_All :
      (P : BaseTag runtime → Type 0) (tags : Tags runtime)
      → All P tags
      → All P (sort_tags runtime tags)
  unfolding sort_tags
  sort_All P [] h = tt
  sort_All P (a ∷ tags) (p, h) = insert_All P a (sort_tags runtime tags) p (sort_All P tags h)

  insert_names :
      (a : BaseTag runtime) (tags : Tags runtime) (n : Text)
      → IsIn n (map (tag_name_of runtime) (insert_tag runtime a tags))
      → (n ≡ a.name) ⊎ IsIn n (map (tag_name_of runtime) tags)
  unfolding insert_tag
  insert_names a [] n i = i
  insert_names a (b ∷ tags) n i = elim (Bool-cases (before runtime a b)) [
    | inl e ↦ rw e at i
    | inr e ↦
        let j : (n ≡ b.name) ⊎ IsIn n (map (tag_name_of runtime) (insert_tag runtime a tags)) =
          rw e at i in
        elim j [
          | inl q ↦ inr (inl q)
          | inr k ↦ elim (insert_names a tags n k) [ inl q ↦ inl q | inr l ↦ inr (inr l) ]
        ]
  ]

  insert-IsDistinct :
      (a : BaseTag runtime) (tags : Tags runtime)
      → ¬ IsIn a.name (map (tag_name_of runtime) tags)
      → IsDistinct (map (tag_name_of runtime) tags)
      → IsDistinct (map (tag_name_of runtime) (insert_tag runtime a tags))
  unfolding insert_tag
  insert-IsDistinct a [] fresh h = (λ m. m, tt)
  insert-IsDistinct a (b ∷ tags) fresh (new, h) = elim (Bool-cases (before runtime a b)) [
    | inl e ↦ rw e (fresh, (new, h))
    | inr e ↦ rw e (
      λ i. elim (insert_names a tags b.name i) [ inl q ↦ fresh (inl (sym q)) | inr j ↦ new j ],
      insert-IsDistinct a tags (λ j. fresh (inr j)) h,
    )
  ]

  sort_names :
      (tags : Tags runtime) (n : Text)
      → IsIn n (map (tag_name_of runtime) (sort_tags runtime tags))
      → IsIn n (map (tag_name_of runtime) tags)
  unfolding sort_tags
  sort_names [] n i = i
  sort_names (a ∷ tags) n i = elim (insert_names a (sort_tags runtime tags) n i) [
    | inl q ↦ inl q
    | inr j ↦ inr (sort_names tags n j)
  ]

  sort-IsDistinct :
      (tags : Tags runtime)
      → IsDistinct (map (tag_name_of runtime) tags)
      → IsDistinct (map (tag_name_of runtime) (sort_tags runtime tags))
  unfolding sort_tags
  sort-IsDistinct [] h = tt
  sort-IsDistinct (a ∷ tags) (fresh, h) =
      insert-IsDistinct a (sort_tags runtime tags) (λ i. fresh (sort_names tags a.name i))
        (sort-IsDistinct tags h)

  sort_IsTagSet :
      (tags : Tags runtime) → IsTagSet runtime tags → IsTagSet runtime (sort_tags runtime tags)
  sort_IsTagSet tags h = record {
    legal = sort_All (LegalTag runtime) tags h.legal;
    distinct = sort-IsDistinct tags h.distinct;
  }

  -- `latest` is added if a rule has raised its priority, and never otherwise.
  add_latest_cases :
      (flavor : Flavor) (c : Collected runtime) (ws : Tags runtime)
      → add_latest runtime flavor c ≡ ok ws
      → (ws ≡ c.tags)
        ⊎ ((p : runtime.Number) × (c.latest_from ≡ some p)
            × (add runtime c.tags (latest_name runtime flavor) p true ≡ ok ws))
  unfolding add_latest
  add_latest_cases flavor c ws e = elim (Option-cases c.latest_from) [
    | inl q ↦ inl (ground arith)
    | inr (p, q) ↦ elim (Bool-cases (wants_latest runtime flavor.latest)) [
      | inl w ↦ inr (p, q, ground arith)
      | inr w ↦ inl (ground arith)
    ]
  ]

  add_latest-IsTagSet :
      (flavor : Flavor) (c : Collected runtime) (ws : Tags runtime)
      → IsTagSet runtime c.tags
      → add_latest runtime flavor c ≡ ok ws
      → IsTagSet runtime ws
  add_latest-IsTagSet flavor c ws h e = elim (add_latest_cases flavor c ws e) [
    | inl q ↦ rw q h
    | inr (p, _, added) ↦ add-IsTagSet runtime c.tags ws (latest_name runtime flavor) p true h added
  ]

  -- Every tag of the set is a legal docker tag, and no name stands there twice.
  pub generate_tags-IsTagSet :
      (rules : List Rule) (flavor : Flavor) (ctx : Ctx) (tags : Tags runtime)
      → generate_tags runtime rules flavor ctx ≡ ok tags
      → IsTagSet runtime tags
  unfolding generate_tags
  generate_tags-IsTagSet rules flavor ctx tags e =
      let start : Collected runtime = record { tags = []; latest_from = none } in
      let (c, looped, e1) = >>=-eq-ok (add_rules runtime flavor ctx start rules) _ e in
      let (ws, named, e2) = >>=-eq-ok (add_latest runtime flavor c) _ e1 in
      let q : sort_tags runtime ws ≡ tags = ground arith in
      let collected =
        add_rules_keep runtime (λ d. IsTagSet runtime d.tags) flavor ctx
          (Round-IsTagSet runtime ctx) start c rules (record { legal = tt; distinct = tt })
          looped in
      rw (← q) (sort_IsTagSet ws (add_latest-IsTagSet flavor c ws collected named))

  -- Nothing has raised the priority of `latest`, and no tag is marked.
  abbrev NoLatest : Collected runtime → Type 0
  NoLatest c = (c.latest_from ≡ none) × All (Unmarked runtime) c.tags

  Round-NoLatest :
      (ctx : Ctx) (c d : Collected runtime)
      → ctx.is_prerelease ≡ true
      → NoLatest c
      → Round runtime ctx c d
      → NoLatest d
  Round-NoLatest ctx c d pre h (inl e) = rw e h
  Round-NoLatest ctx c d pre (unset, h) (inr (key, p, added, same)) =
      (same pre ∙ unset, add-Unmarked runtime c.tags d.tags key p h added)

  -- For a pre-release no tag of the set is marked as `latest`.
  pub generate_tags-prerelease :
      (rules : List Rule) (flavor : Flavor) (ctx : Ctx) (tags : Tags runtime)
      → ctx.is_prerelease ≡ true
      → generate_tags runtime rules flavor ctx ≡ ok tags
      → All (Unmarked runtime) tags
  unfolding generate_tags
  generate_tags-prerelease rules flavor ctx tags pre e =
      let start : Collected runtime = record { tags = []; latest_from = none } in
      let (c, looped, e1) = >>=-eq-ok (add_rules runtime flavor ctx start rules) _ e in
      let (ws, named, e2) = >>=-eq-ok (add_latest runtime flavor c) _ e1 in
      let q : sort_tags runtime ws ≡ tags = ground arith in
      let (unset, unmarked) =
        add_rules_keep runtime NoLatest flavor ctx (λ x y. Round-NoLatest ctx x y pre) start c rules
          (refl, tt) looped in
      let last : All (Unmarked runtime) ws = elim (add_latest_cases flavor c ws named) [
        | inl same ↦ rw same unmarked
        | inr (p, raised, _) ↦ cc (unset, raised)
      ] in
      rw (← q) (sort_All (Unmarked runtime) ws last)
