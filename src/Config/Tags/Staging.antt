-- ===== src/Config/Tags/Staging.antt =====
-- .forgejo/scripts/config.mjs: `stagingRefsFor`, and why two variants never share a staging tag.
use mathlib.Core.List.{append_cancel_left}
use message_pusher.Base.{ℕ, drop, ◌≡◌, refl, sym, ◌∙◌, true, [], ◌∷◌, ◌++◌, All-append}
use message_pusher.Text.{Text, txt}
use message_pusher.Result.{ok}
use message_pusher.Config.Tags.{
  is_tag_unit, check_tag_name, staging_text, sha_or_nosha, staging_tag_name,
}
use message_pusher.Config.Tags.Laws.{AreTagUnits, sanitize_units, check_tag_name-eq-ok}

sha_units : (short_sha : Text) → AreTagUnits short_sha → AreTagUnits (sha_or_nosha short_sha)
sha_units [] h = (refl, (refl, (refl, (refl, (refl, tt)))))
sha_units (c ∷ s) h = h

module _ (version short_sha : Text) (hv : AreTagUnits version) (hs : AreTagUnits short_sha) where
  -- The template after its first unit.
  abbrev staging_rest : Text → Text
  staging_rest variant = drop 1 (staging_text version short_sha variant)

  staging_units : (variant : Text) → AreTagUnits variant → AreTagUnits (b's' ∷ staging_rest variant)
  staging_units variant ha =
      let P = λ (c : ℕ). is_tag_unit c ≡ true in
      let tail : AreTagUnits (sha_or_nosha short_sha ++ (txt "-" ++ variant)) =
        All-append P (sha_or_nosha short_sha) _ (sha_units short_sha hs) (refl, ha) in
      let rest : AreTagUnits
          (version ++ (txt "-" ++ (sha_or_nosha short_sha ++ (txt "-" ++ variant)))) =
        All-append P version _ hv (refl, tail) in
      (refl, (refl, (refl, (refl, (refl, (refl, (refl, (refl, rest))))))))

  -- With legal parts the staging tag is the template, if that is at most 128 units long.
  pub staging_tag_name_lem :
      (variant : Text)
      → AreTagUnits variant
      → staging_tag_name version short_sha variant
        ≡ check_tag_name
            (staging_text version short_sha variant)
            (staging_text version short_sha variant)
  unfolding staging_tag_name
  staging_tag_name_lem variant ha =
      sanitize_units b's' (staging_rest variant) (staging_units variant ha) refl

  -- If the version, the short sha and both variant names hold only units that a tag may hold, two
  -- variants of one release with the same staging tag are one variant.
  pub staging_tag_name_injective :
      (a b t : Text)
      → AreTagUnits a
      → AreTagUnits b
      → staging_tag_name version short_sha a ≡ ok t
      → staging_tag_name version short_sha b ≡ ok t
      → a ≡ b
  staging_tag_name_injective a b t ha hb ea eb =
      let (pa, _, _) =
        check_tag_name-eq-ok (staging_text version short_sha a) (staging_text version short_sha a) t
          (rw (staging_tag_name_lem a ha) at ea) in
      let (pb, _, _) =
        check_tag_name-eq-ok (staging_text version short_sha b) (staging_text version short_sha b) t
          (rw (staging_tag_name_lem b hb) at eb) in
      let e1 = append_cancel_left (txt "staging-") _ _ (pa ∙ sym pb) in
      let e2 = append_cancel_left version _ _ e1 in
      let e3 = append_cancel_left (txt "-") _ _ e2 in
      let e4 = append_cancel_left (sha_or_nosha short_sha) _ _ e3 in
      append_cancel_left (txt "-") a b e4
