-- ===== src/Meta/Generate/Laws.antt =====
-- What the tag set of `generateTags` is like: legal and different names, and no `latest` for a
-- pre-release.
use message_pusher.Base.{
  ◌≡◌, ◌⊎◌, refl, sym, ◌∙◌, ap, Bool, true, false, List, [], ◌∷◌, map, arith, IsIn, All, IsDistinct,
  Bool-cases, inl, inr,
}
use message_pusher.Text.{Text, ◌==◌}
use message_pusher.Text.Laws.{==_iff}
use message_pusher.Result.{Result, ok, >>=-eq-ok}
use message_pusher.Config.Tags.{sanitize_tag_name}
use message_pusher.Config.Tags.Laws.{IsTagName, sanitize_tag_name-IsTagName}
use message_pusher.Runtime.{Runtime}
use message_pusher.Meta.Rules.{Rule, Flavor}
use message_pusher.Meta.RuleTag.{Ctx, rule_tag_name}
use message_pusher.Meta.Generate.{
  BaseTag, collect, add, Collected, add_rule, add_rules, flavored, finite_or_zero, add_named,
  latest_after, rule_priority, is_disabled,
}

module _ (runtime : Runtime) where
  abbrev pub Tags : Type 0
  Tags = List (BaseTag runtime)

  abbrev pub tag_name_of : BaseTag runtime → Text
  tag_name_of t = t.name

  abbrev pub LegalTag : BaseTag runtime → Type 0
  LegalTag t = IsTagName t.name

  -- Legal names, each of them once.
  pub record IsTagSet (tags : List (BaseTag runtime)) : Type 0 where
    pub legal : All LegalTag tags
    pub distinct : IsDistinct (map tag_name_of tags)

  pub collect-All :
      (P : BaseTag runtime → Type 0) (tags : Tags) (new : BaseTag runtime)
      → All P tags
      → P new
      → All P (collect runtime tags new)
  unfolding collect
  collect-All P [] new h k = (k, tt)
  collect-All P (old ∷ tags) new (p, h) k = elim (Bool-cases (old.name == new.name)) [
    | inl e ↦ rw e (elim (Bool-cases (runtime.num_le old.priority new.priority)) [
      | inl q ↦ rw q (k, h)
      | inr q ↦ rw q (p, h)
    ])
    | inr e ↦ rw e (p, collect-All P tags new h k)
  ]

  collect_same :
      (old : BaseTag runtime) (tags : Tags) (new : BaseTag runtime)
      → old.name == new.name ≡ true
      → map tag_name_of (collect runtime (old ∷ tags) new) ≡ old.name ∷ map tag_name_of tags
  unfolding collect
  collect_same old tags new e = ground (arith, ==_iff old.name new.name)

  collect_other :
      (old : BaseTag runtime) (tags : Tags) (new : BaseTag runtime)
      → old.name == new.name ≡ false
      → map tag_name_of (collect runtime (old ∷ tags) new)
        ≡ old.name ∷ map tag_name_of (collect runtime tags new)
  unfolding collect
  collect_other old tags new e = rw e refl

  -- The names after `add` are the old ones, and the new one.
  collect_names :
      (tags : Tags) (new : BaseTag runtime) (n : Text)
      → IsIn n (map tag_name_of (collect runtime tags new))
      → (n ≡ new.name) ⊎ IsIn n (map tag_name_of tags)
  collect_names [] new n i = unfold collect in i
  collect_names (old ∷ tags) new n i = elim (Bool-cases (old.name == new.name)) [
    | inl e ↦ inr (rw (collect_same old tags new e) at i)
    | inr e ↦
        let j : IsIn n (old.name ∷ map tag_name_of (collect runtime tags new)) =
          rw (collect_other old tags new e) at i in
        elim j [
          | inl q ↦ inr (inl q)
          | inr k ↦ elim (collect_names tags new n k) [ inl q ↦ inl q | inr l ↦ inr (inr l) ]
        ]
  ]

  collect-IsDistinct :
      (tags : Tags) (new : BaseTag runtime)
      → IsDistinct (map tag_name_of tags)
      → IsDistinct (map tag_name_of (collect runtime tags new))
  collect-IsDistinct [] new h = unfold collect in (λ m. m, tt)
  collect-IsDistinct (old ∷ tags) new (fresh, h) = elim (Bool-cases (old.name == new.name)) [
    | inl e ↦ rw (collect_same old tags new e) (fresh, h)
    | inr e ↦ rw (collect_other old tags new e) (
      λ i. elim (collect_names tags new old.name i) [
        | inl q ↦ cc (e, (==_iff old.name new.name).1 q)
        | inr j ↦ fresh j
      ],
      collect-IsDistinct tags new h,
    )
  ]

  pub add-IsTagSet :
      (tags ws : Tags) (key : Text) (p : runtime.Number) (l : Bool)
      → IsTagSet tags
      → add runtime tags key p l ≡ ok ws
      → IsTagSet ws
  unfolding add
  add-IsTagSet tags ws [] p l h e = let q : tags ≡ ws = ground arith in rw (← q) h
  add-IsTagSet tags ws (c ∷ key) p l h e =
      let (clean, named, e1) = >>=-eq-ok (sanitize_tag_name (c ∷ key)) _ e in
      let new : BaseTag runtime = record { name = clean; priority = p; is_latest = l } in
      let q : collect runtime tags new ≡ ws = ground arith in
      rw (← q) (record {
        legal =
            collect-All LegalTag tags new h.legal
              (sanitize_tag_name-IsTagName (c ∷ key) clean named);
        distinct = collect-IsDistinct tags new h.distinct;
      })

  abbrev pub Unmarked : BaseTag runtime → Type 0
  Unmarked t = t.is_latest ≡ false

  -- An unmarked name leaves the marks of the others alone.
  pub add-Unmarked :
      (tags ws : Tags) (key : Text) (p : runtime.Number)
      → All Unmarked tags
      → add runtime tags key p false ≡ ok ws
      → All Unmarked ws
  unfolding add
  add-Unmarked tags ws [] p h e = let q : tags ≡ ws = ground arith in rw (← q) h
  add-Unmarked tags ws (c ∷ key) p h e =
      let (clean, named, e1) = >>=-eq-ok (sanitize_tag_name (c ∷ key)) _ e in
      let new : BaseTag runtime = record { name = clean; priority = p; is_latest = false } in
      let q : collect runtime tags new ≡ ws = ground arith in
      rw (← q) (collect-All Unmarked tags new h refl)

  -- A round adds nothing, or one name that is not `latest`.
  abbrev pub Round : Ctx → Collected runtime → Collected runtime → Type 0
  Round ctx c d =
      (d ≡ c)
      ⊎ ((key : Text) × (p : runtime.Number) × (add runtime c.tags key p false ≡ ok d.tags)
          × (ctx.is_prerelease ≡ true → d.latest_from ≡ c.latest_from))

  add_named-Round :
      (flavor : Flavor) (ctx : Ctx) (c d : Collected runtime) (rule : Rule) (name : Text)
      → add_named runtime flavor ctx c rule name ≡ ok d
      → Round ctx c d
  unfolding add_named
  add_named-Round flavor ctx c d rule [] e = inl (ground arith)
  add_named-Round flavor ctx c d rule (u ∷ name) e =
      let key = flavored runtime flavor rule.attrs ctx (u ∷ name) in
      let p = finite_or_zero runtime (rule_priority runtime rule) in
      let (tags, added, e1) = >>=-eq-ok (add runtime c.tags key p false) _ e in
      let q : d ≡ record { tags = tags; latest_from = latest_after runtime ctx c rule } =
        ok_eq _ _ e1 in
      inr (
        key,
        p,
        added ∙ ap (λ (x : Collected runtime). ok x.tags) (sym q),
        λ pre. ap (λ (x : Collected runtime). x.latest_from) q ∙ no_latest pre,
      )
    where
      ok_eq : (a b : Collected runtime) → ◌≡◌ {A = Result (Collected runtime)} (ok a) (ok b) → b ≡ a
      ok_eq a b e = cc

      no_latest : ctx.is_prerelease ≡ true → latest_after runtime ctx c rule ≡ c.latest_from
      no_latest pre = ground arith

  add_rule-Round :
      (flavor : Flavor) (ctx : Ctx) (c d : Collected runtime) (rule : Rule)
      → add_rule runtime flavor ctx c rule ≡ ok d
      → Round ctx c d
  unfolding add_rule
  add_rule-Round flavor ctx c d rule e = elim (Bool-cases (is_disabled runtime rule.attrs)) [
    | inl off ↦ inl (ground arith)
    | inr on ↦
        let (name, _, e1) = >>=-eq-ok (rule_tag_name runtime rule ctx) _ (rw on at e) in
        add_named-Round flavor ctx c d rule name e1
  ]

  -- An invariant of the collection is kept by the whole loop.
  pub add_rules_keep :
      (P : Collected runtime → Type 0) (flavor : Flavor) (ctx : Ctx)
      → ((c d : Collected runtime) → P c → Round ctx c d → P d)
      → (c d : Collected runtime) (rules : List Rule) → P c
      → add_rules runtime flavor ctx c rules ≡ ok d
      → P d
  unfolding add_rules
  add_rules_keep P flavor ctx step c d [] h e = let q : c ≡ d = ground arith in rw (← q) h
  add_rules_keep P flavor ctx step c d (rule ∷ rules) h e =
      let (next, first, e1) = >>=-eq-ok (add_rule runtime flavor ctx c rule) _ e in
      add_rules_keep P flavor ctx step next d rules
        (step c next h (add_rule-Round flavor ctx c next rule first)) e1

  pub Round-IsTagSet :
      (ctx : Ctx) (c d : Collected runtime) → IsTagSet c.tags → Round ctx c d → IsTagSet d.tags
  Round-IsTagSet ctx c d h (inl e) = rw e h
  Round-IsTagSet ctx c d h (inr (key, p, added, _)) = add-IsTagSet c.tags d.tags key p false h added
