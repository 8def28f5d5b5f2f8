-- ===== src/Web/Settings/Saved.antt =====
-- What the buttons of web/src/components/SystemSetting.jsx save.
use message_pusher.Base.{
  ◌≡◌, refl, sym, ap, ◌∙◌, Bool, true, false, not, ◌&&◌, List, [], ◌∷◌, ◌++◌, map, filter, Option,
  some, inl, inr, Bool-cases, if◌then◌else◌,
}
use message_pusher.Text.{Text, txt, ◌==◌, includes}
use message_pusher.Web.Settings.{
  Options, Settings, same_option, option_value, toggles, address, update_option, save_changed,
  save_filled, submit_smtp, submit_wechat, submit_github_oauth, submit_turnstile, Group, smtp,
  wechat, github_oauth, turnstile, submit,
}

-- An option of a button: whether an empty value is left out, and what is made of its value.
pub record Rule : Type 0 where
  pub key : Text
  pub skips_empty : Bool
  pub is_address : Bool

abbrev plain : Text → Rule
plain key = record { key = key; skips_empty = false; is_address = false }

abbrev filled : Text → Rule
filled key = record { key = key; skips_empty = true; is_address = false }

abbrev pub rules : Group → List Rule
rules smtp =
    plain (txt "SMTPServer")
    ∷ plain (txt "SMTPAccount")
    ∷ filled (txt "SMTPPort")
    ∷ filled (txt "SMTPToken")
    ∷ []
rules wechat =
    record { key = txt "WeChatServerAddress"; skips_empty = false; is_address = true }
    ∷ plain (txt "WeChatAccountQRCodeImageURL")
    ∷ filled (txt "WeChatServerToken")
    ∷ []
rules github_oauth = plain (txt "GitHubClientId") ∷ filled (txt "GitHubClientSecret") ∷ []
rules turnstile = plain (txt "TurnstileSiteKey") ∷ filled (txt "TurnstileSecretKey") ∷ []

-- The option was changed, and is not one that is left out for being empty.
abbrev pub is_wanted : Options → Options → Rule → Bool
is_wanted origin inputs rule =
    not (same_option (origin rule.key) (inputs rule.key))
    && not (rule.skips_empty && same_option (inputs rule.key) (some []))

abbrev pub call_of : Options → Rule → Text × Option Text
call_of inputs rule =
    (rule.key, if rule.is_address then address (inputs rule.key) else inputs rule.key)

-- The calls after an option, and after the options of a list.
abbrev after_one : Options → Options → Rule → List (Text × Option Text) → List (Text × Option Text)
after_one origin inputs rule calls =
    if is_wanted origin inputs rule then calls ++ (call_of inputs rule ∷ []) else calls

abbrev after_all :
    Options → Options → List Rule → List (Text × Option Text) → List (Text × Option Text)
after_all origin inputs [] calls = calls
after_all origin inputs (rule ∷ rules_) calls =
    after_all origin inputs rules_ (after_one origin inputs rule calls)

append_assoc : {A : Type 0} (xs ys zs : List A) → (xs ++ ys) ++ zs ≡ xs ++ (ys ++ zs)
append_assoc [] ys zs = refl
append_assoc (x ∷ xs) ys zs = ap (λ l. x ∷ l) (append_assoc xs ys zs)

append_nil : {A : Type 0} (xs : List A) → xs ++ [] ≡ xs
append_nil [] = refl
append_nil (x ∷ xs) = ap (λ l. x ∷ l) (append_nil xs)

after_all_lem :
    (origin inputs : Options) (rules_ : List Rule) (calls : List (Text × Option Text))
    → after_all origin inputs rules_ calls
      ≡ calls ++ map (call_of inputs) (filter (is_wanted origin inputs) rules_)
after_all_lem origin inputs [] calls = sym (append_nil calls)
after_all_lem origin inputs (rule ∷ rules_) calls =
    elim (Bool-cases (is_wanted origin inputs rule)) [
      | inl wanted ↦
          let rest = after_all_lem origin inputs rules_ (calls ++ (call_of inputs rule ∷ [])) in
          rw wanted (
            rest
            ∙ append_assoc calls (call_of inputs rule ∷ [])
                (map (call_of inputs) (filter (is_wanted origin inputs) rules_)))
      | inr unwanted ↦ rw unwanted (after_all_lem origin inputs rules_ calls)
    ]

module _ (accepts : Text → Option Text → Bool) where
  update_option-sent :
      (inputs : Options) (key : Text) (value : Option Text) (s : Settings)
      → includes toggles key ≡ false
      → (update_option accepts inputs key value s).sent ≡ s.sent ++ ((key, value) ∷ [])
  unfolding update_option option_value
  update_option-sent inputs key value s typed = rw (update_option, option_value, typed) refl

  save_changed-sent :
      (origin inputs : Options) (key : Text) (f : Option Text → Option Text) (s : Settings)
      → includes toggles key ≡ false
      → (save_changed accepts origin inputs key f s).sent ≡ (
          if not (same_option (origin key) (inputs key)) && true
          then s.sent ++ ((key, f (inputs key)) ∷ [])
          else s.sent)
  unfolding save_changed
  save_changed-sent origin inputs key f s typed =
      elim (Bool-cases (same_option (origin key) (inputs key))) [
        | inl same ↦ rw (save_changed, same) refl
        | inr differ ↦
            rw (save_changed, differ) (update_option-sent inputs key (f (inputs key)) s typed)
      ]

  save_filled-sent :
      (origin inputs : Options) (key : Text) (s : Settings)
      → includes toggles key ≡ false
      → (save_filled accepts origin inputs key s).sent ≡ after_one origin inputs (filled key) s.sent
  unfolding save_filled
  save_filled-sent origin inputs key s typed =
      elim (Bool-cases (same_option (origin key) (inputs key))) [
        | inl same ↦ rw (save_filled, same) refl
        | inr differ ↦ elim (Bool-cases (same_option (inputs key) (some []))) [
          | inl empty ↦ rw (save_filled, differ, empty) refl
          | inr full ↦
              rw (save_filled, differ, full) (update_option-sent inputs key (inputs key) s typed)
        ]
      ]

  -- Two options, the second one left out if it is empty.
  pair-sent :
      (origin inputs : Options) (first second : Text) (s : Settings)
      → includes toggles first ≡ false
      → includes toggles second ≡ false
      → (save_filled accepts origin inputs second
          (save_changed accepts origin inputs first (λ v. v) s)).sent
        ≡ after_all origin inputs (plain first ∷ filled second ∷ []) s.sent
  pair-sent origin inputs first second s h k =
      save_filled-sent origin inputs second (save_changed accepts origin inputs first (λ v. v) s) k
      ∙ ap (after_one origin inputs (filled second))
          (save_changed-sent origin inputs first (λ v. v) s h)

  -- Each of the four buttons for SMTP, WeChat, GitHub and Turnstile (not the one for the server's
  -- address) sends, in order, those of its options that were changed since the options were loaded,
  -- with the values that were typed; an address loses a slash at its end, and the port, the tokens and
  -- the secrets are left out where they are empty.
  pub submit-sent :
      (group : Group) (s : Settings)
      → (submit accepts group s).sent
        ≡ s.sent
          ++ map (call_of s.inputs) (filter (is_wanted s.origin_inputs s.inputs) (rules group))
  unfolding submit submit_smtp submit_wechat submit_github_oauth submit_turnstile includes ◌==◌
  submit-sent github_oauth s =
      pair-sent s.origin_inputs s.inputs (txt "GitHubClientId") (txt "GitHubClientSecret") s refl
        refl
      ∙ after_all_lem s.origin_inputs s.inputs (rules github_oauth) s.sent
  submit-sent turnstile s =
      pair-sent s.origin_inputs s.inputs (txt "TurnstileSiteKey") (txt "TurnstileSecretKey") s refl
        refl
      ∙ after_all_lem s.origin_inputs s.inputs (rules turnstile) s.sent
  submit-sent wechat s =
      let o = s.origin_inputs in
      let i = s.inputs in
      let s1 = save_changed accepts o i (txt "WeChatServerAddress") address s in
      pair-sent o i (txt "WeChatAccountQRCodeImageURL") (txt "WeChatServerToken") s1 refl refl
      ∙ ap
          (after_all o i
            (plain (txt "WeChatAccountQRCodeImageURL") ∷ filled (txt "WeChatServerToken") ∷ []))
          (save_changed-sent o i (txt "WeChatServerAddress") address s refl)
      ∙ after_all_lem o i (rules wechat) s.sent
  submit-sent smtp s =
      let o = s.origin_inputs in
      let i = s.inputs in
      let s1 = save_changed accepts o i (txt "SMTPServer") (λ v. v) s in
      let s2 = save_changed accepts o i (txt "SMTPAccount") (λ v. v) s1 in
      let s3 = save_filled accepts o i (txt "SMTPPort") s2 in
      save_filled-sent o i (txt "SMTPToken") s3 refl
      ∙ ap (after_one o i (filled (txt "SMTPToken"))) (
          pair-sent o i (txt "SMTPAccount") (txt "SMTPPort") s1 refl refl
          ∙ ap (after_all o i (plain (txt "SMTPAccount") ∷ filled (txt "SMTPPort") ∷ []))
              (save_changed-sent o i (txt "SMTPServer") (λ v. v) s refl))
      ∙ after_all_lem o i (rules smtp) s.sent
