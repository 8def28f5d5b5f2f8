-- ===== src/Prepare/Binfmt/Handled.antt =====
-- What `ensureBinfmt` says of the architectures that a run needs.
use message_pusher.Base.{
  ◌↔◌, sym, subst, ◌∙◌, filter, ◌≡◌, ◌≢◌, refl, Bool, true, false, not, List, is_empty, IsIn,
  IsIn-filter, IsIn-filter_intro, is_empty-eq-true, inl, inr, Bool-cases,
}
use message_pusher.Text.{Text, txt, Env, ◌==◌, includes}
use message_pusher.Text.Laws.{==_false, ne_of_==, includes_not, includes-eq-false}
use message_pusher.Config.Lists.{is_truthy}
use message_pusher.Machine.{Machine}
use message_pusher.Prepare.Arch.{arches_of}
use message_pusher.Prepare.Binfmt.{
  Binfmt, handler_path, foreign_arches, without_handler, install_command, ensure_handlers,
}

module _ (machine : Machine) (env : Env) where
  -- An architecture has a handler in a world, or it has none.
  abbrev pub HasHandler : machine.World → Text → Bool → Type 0
  HasHandler w a there = machine.exists w (handler_path a) ≡ there

  -- Which architectures are in the three lists of the result, between two worlds.
  abbrev pub IsAccounted : Text → List Text → machine.World → machine.World → Binfmt → Text → Type 0
  IsAccounted host platforms before after r a =
      (IsIn a r.wanted ↔ (IsIn a (arches_of platforms) × (a ≢ host)))
      × (IsIn a r.registered
          ↔ (IsIn a r.wanted × HasHandler before a false × HasHandler after a true))
      × (IsIn a r.remaining
          ↔ (IsIn a r.wanted × HasHandler before a false × HasHandler after a false))

  false_of_not : (b : Bool) → not b ≡ true → b ≡ false
  false_of_not true h = cc h
  false_of_not false h = refl

  without_handler_iff :
      (w : machine.World) (xs : List Text) (a : Text)
      → IsIn a (without_handler machine env w xs) ↔ (IsIn a xs × HasHandler w a false)
  without_handler_iff w xs a = (
    λ i.
        let (m, h) = IsIn-filter (λ x. not (machine.exists w (handler_path x))) a xs i in
        (m, false_of_not (machine.exists w (handler_path a)) h),
    λ (m, h). IsIn-filter_intro (λ x. not (machine.exists w (handler_path x))) a xs m (rw h refl),
  )

  foreign_arches_iff :
      (host : Text) (platforms : List Text) (a : Text)
      → IsIn a (foreign_arches host platforms) ↔ (IsIn a (arches_of platforms) × (a ≢ host))
  foreign_arches_iff host platforms a = (
    λ i.
        let (m, h) = IsIn-filter (λ x. not (x == host)) a (arches_of platforms) i in
        (m, ne_of_== a host (false_of_not (a == host) h)),
    λ (m, foreign).
        IsIn-filter_intro (λ x. not (x == host)) a (arches_of platforms) m
          (rw (==_false a host foreign) refl),
  )

  -- Of the missing ones those are registered that are not among the remaining ones.
  registered_iff :
      (wanted : List Text) (before after : machine.World) (a : Text)
      → let missing = without_handler machine env before wanted in
        IsIn a (filter (λ x. not (includes (without_handler machine env after missing) x)) missing)
        ↔ (IsIn a wanted × HasHandler before a false × HasHandler after a true)
  registered_iff wanted before after a =
      let missing = without_handler machine env before wanted in
      let remaining = without_handler machine env after missing in
      let (of_missing, to_missing) = without_handler_iff before wanted a in
      (
        λ i.
            let (m, h) = IsIn-filter (λ x. not (includes remaining x)) a missing i in
            let gone = includes_not remaining a (false_of_not (includes remaining a) h) in
            let (listed, absent) = of_missing m in
            (
              listed,
              absent,
              elim (Bool-cases (machine.exists after (handler_path a))) [
                | inl there ↦ there
                | inr still ↦ absurd (gone ((without_handler_iff after missing a).1 (m, still)))
              ],
            ),
        λ (listed, absent, there).
            let fresh : includes remaining a ≡ false = includes-eq-false remaining a (λ k.
              let (_, still) = (without_handler_iff after missing a).0 k in
              let wrong : true ≡ false = sym there ∙ still in cc wrong) in
            IsIn-filter_intro (λ x. not (includes remaining x)) a missing
              (to_missing (listed, absent)) (rw fresh refl),
      )

  remaining_iff :
      (wanted : List Text) (before after : machine.World) (a : Text)
      → IsIn a (without_handler machine env after (without_handler machine env before wanted))
        ↔ (IsIn a wanted × HasHandler before a false × HasHandler after a false)
  remaining_iff wanted before after a =
      let missing = without_handler machine env before wanted in
      let (of_missing, to_missing) = without_handler_iff before wanted a in
      let (of_remaining, to_remaining) = without_handler_iff after missing a in
      (
        λ i.
            let (m, still) = of_remaining i in
            let (listed, absent) = of_missing m in (listed, absent, still),
        λ (listed, absent, still). to_remaining (to_missing (listed, absent), still),
      )

  -- Unless it is told to skip them, `ensureBinfmt` asks for exactly the architectures of the platforms
  -- that are not the host's, lists as registered exactly those of them that had no handler before and
  -- have one now, and as remaining exactly those that had none before and have none now.
  pub ensure_handlers-IsAccounted :
      (host : Text) (platforms : List Text) (w : machine.World) (a : Text)
      → is_truthy (env (txt "DOCKER_SKIP_BINFMT")) ≡ false
      → let done = ensure_handlers machine env host platforms w in
        IsAccounted host platforms w done.0 done.1 a
  unfolding ensure_handlers
  ensure_handlers-IsAccounted host platforms w a asked =
      let wanted = foreign_arches host platforms in
      let missing = without_handler machine env w wanted in
      let after = (machine.run w (install_command env missing)).0 in
      let foreign = foreign_arches_iff host platforms a in
      elim (Bool-cases (is_empty missing)) [
        | inr some_missing ↦
            rw (asked, some_missing)
              (foreign, registered_iff wanted w after a, remaining_iff wanted w after a)
        | inl none_missing ↦
            let all_there = λ (m : IsIn a wanted) (absent : HasHandler w a false).
              subst (IsIn a) (is_empty-eq-true missing none_missing)
                ((without_handler_iff w wanted a).1 (m, absent)) in
            rw (asked, none_missing)
              (
                foreign,
                (λ i. absurd i, λ (m, absent, _). all_there m absent),
                (λ i. absurd i, λ (m, absent, _). all_there m absent),
              )
      ]
