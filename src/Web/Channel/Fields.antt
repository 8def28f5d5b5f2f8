-- ===== src/Web/Channel/Fields.antt =====
-- What the form of a channel sends, and what comes back of it.
use message_pusher.Base.{
  ℕ, zero, suc, ◌+◌, ◌-◌, ◌≡◌, ◌≢◌, refl, sym, ap, subst, ◌∙◌, Bool, true, false, List, [], ◌∷◌,
  ◌++◌, some, length, is_empty, eqb, eqb_iff, arith, All, inl, inr, Bool-cases, if_true,
  if◌then◌else◌,
}
use message_pusher.Text.{Text, txt, ◌==◌, split_on, cons_head}
use message_pusher.Web.Channel.{
  Inputs, is_bar, pieces, first_piece, second_piece, loaded, corp_app, group, kind_of, shown_value,
  add_bars, Prepared, counts_differ, bad_json, ready, prepared_as, prepared,
}

-- A text that does not split.
abbrev pub IsWhole : Text → Type 0
IsWhole s = All (λ c. is_bar c ≡ false) s

pieces-whole : (s : Text) → IsWhole s → pieces s ≡ s ∷ []
unfolding split_on
pieces-whole [] h = refl
pieces-whole (c ∷ s) (h, hs) = rw (split_on, h, pieces-whole s hs) refl

pieces-joined : (s t : Text) → IsWhole s → IsWhole t → pieces (s ++ txt "|" ++ t) ≡ s ∷ t ∷ []
unfolding split_on
pieces-joined [] t h k = rw (split_on, pieces-whole t k) refl
pieces-joined (c ∷ s) t (h, hs) k = rw (split_on, h, pieces-joined s t hs k) refl

-- The inputs that are sent.
abbrev sent_of : Inputs → Prepared → Inputs
sent_of other (ready sent) = sent
sent_of other _ = other

reload :
    (sent : Inputs) (corp agent : Text)
    → sent.type_ ≡ txt "corp_app"
    → sent.corp_id ≡ some corp
    → sent.agent_id ≡ some agent
    → sent.app_id ≡ corp ++ txt "|" ++ agent
    → IsWhole corp
    → IsWhole agent
    → loaded sent ≡ sent
unfolding loaded ◌==◌
reload sent corp agent t c a e hc ha =
    let both : pieces sent.app_id ≡ corp ∷ agent ∷ [] =
      ap pieces e ∙ pieces-joined corp agent hc ha in
    let first : first_piece (pieces sent.app_id) ≡ sent.corp_id = ap first_piece both ∙ sym c in
    let second : second_piece (pieces sent.app_id) ≡ sent.agent_id = ap second_piece both ∙ sym a in
    let same : sent.type_ == txt "corp_app" ≡ true = ap (λ s. s == txt "corp_app") t in
    let cut = record sent {
      corp_id = first_piece (pieces sent.app_id);
      agent_id = second_piece (pieces sent.app_id);
    } in
    if_true cut sent (sent.type_ == txt "corp_app") same
    ∙ ap (λ x. record cut { corp_id = x }) first
    ∙ ap (λ x. record sent { agent_id = x }) second

-- A corp_app channel that is sent, stored by the server and loaded again has the inputs that it was
-- sent with, if the two parts that were typed have no bar.
pub loaded-prepared :
    (parses : Text → Bool) (inputs sent : Inputs) (corp agent : Text)
    → inputs.type_ ≡ txt "corp_app"
    → inputs.corp_id ≡ some corp
    → inputs.agent_id ≡ some agent
    → IsWhole corp
    → IsWhole agent
    → prepared parses inputs ≡ ready sent
    → loaded sent ≡ sent
unfolding prepared prepared_as kind_of ◌==◌
loaded-prepared parses inputs sent corp agent t c a hc ha e =
    let app = shown_value inputs.corp_id ++ txt "|" ++ shown_value inputs.agent_id in
    let kind : kind_of inputs.type_ ≡ corp_app = ap kind_of t in
    let own : prepared parses inputs ≡ ready record inputs { app_id = app } =
      ap (λ k. prepared_as parses k inputs) kind in
    let same : sent ≡ record inputs { app_id = app } = ap (sent_of inputs) (sym e ∙ own) in
    let parts : app ≡ corp ++ txt "|" ++ agent =
      ap (λ x. shown_value x ++ txt "|" ++ shown_value inputs.agent_id) c
      ∙ ap (λ x. corp ++ txt "|" ++ shown_value x) a in
    subst (λ s. loaded s ≡ s) (sym same)
      (reload (record inputs { app_id = app }) corp agent t c a parts hc ha)

-- Splitting counts the bars.
abbrev bars : Text → ℕ
bars [] = 0
bars (c ∷ s) = if is_bar c then suc (bars s) else bars s

cons_head-length :
    (c : ℕ) (ws : List Text) (n : ℕ) → length ws ≡ suc n → length (cons_head c ws) ≡ suc n
cons_head-length c [] n h = absurd (omega arith)
cons_head-length c (w ∷ ws) n h = h

pieces-length : (s : Text) → length (pieces s) ≡ suc (bars s)
unfolding split_on
pieces-length [] = omega arith
pieces-length (c ∷ s) =
    let rest = pieces-length s in
    elim (Bool-cases (is_bar c)) [
      | inl bar ↦ rw (split_on, bar) (omega arith)
      | inr other ↦ rw (split_on, other) (cons_head-length c (pieces s) (bars s) rest)
    ]

bars-append : (s : Text) → bars (s ++ txt "|") ≡ suc (bars s)
bars-append [] = refl
bars-append (c ∷ s) = let rest = bars-append s in ground arith

bars-add_bars : (n : ℕ) (s : Text) → bars (add_bars n s) ≡ n + bars s
bars-add_bars zero s = omega arith
bars-add_bars (suc n) s =
    let rest = bars-add_bars n (s ++ txt "|") in let one = bars-append s in omega arith

bars_empty : (s : Text) → is_empty s ≡ true → bars s ≡ 0
bars_empty [] h = refl
bars_empty (c ∷ s) h = cc h

-- A group is sent with its channels and as many targets, or it is refused for targets that are there
-- and are not as many.
abbrev pub IsEven : Inputs → Prepared → Type 0
IsEven inputs (ready sent) =
    (sent.app_id ≡ inputs.app_id) × (length (pieces sent.account_id) ≡ length (pieces sent.app_id))
IsEven inputs counts_differ =
    (is_empty inputs.account_id ≡ false)
    × (length (pieces inputs.account_id) ≢ length (pieces inputs.app_id))
IsEven inputs bad_json = true ≡ false

filled-bars :
    (app account : Text)
    → is_empty account ≡ true
    → length (pieces (add_bars (length (pieces app) - 1) account)) ≡ length (pieces app)
filled-bars app account empty =
    let n = length (pieces app) - 1 in
    let own = pieces-length (add_bars n account) in
    let added = bars-add_bars n account in
    let none_there = bars_empty account empty in let channels = pieces-length app in omega arith

group-IsEven :
    (parses : Text → Bool) (inputs : Inputs) → IsEven inputs (prepared_as parses group inputs)
unfolding prepared_as
group-IsEven parses inputs =
    let channels = length (pieces inputs.app_id) in
    let targets = length (pieces inputs.account_id) in
    elim (Bool-cases (is_empty inputs.account_id)) [
      | inl empty ↦
          rw (prepared_as, empty) (refl, filled-bars inputs.app_id inputs.account_id empty)
      | inr full ↦ elim (Bool-cases (eqb channels targets)) [
        | inr differ ↦
            let apart : targets ≢ channels = λ e.
              let h = (eqb_iff channels targets).1 (sym e) in
              let wrong : true ≡ false = sym h ∙ differ in cc wrong in
            rw (prepared_as, full, differ) (full, apart)
        | inl same ↦ rw (prepared_as, full, same) (refl, sym ((eqb_iff channels targets).0 same))
      ]
    ]

-- The form of a group either sends its channels with as many targets, also where no target was typed,
-- or refuses targets that were typed and are not as many as the channels.
pub prepared-IsEven :
    (parses : Text → Bool) (inputs : Inputs)
    → inputs.type_ ≡ txt "group"
    → IsEven inputs (prepared parses inputs)
unfolding prepared kind_of ◌==◌
prepared-IsEven parses inputs t =
    let kind : kind_of inputs.type_ ≡ group = ap kind_of t in
    subst (λ k. IsEven inputs (prepared_as parses k inputs)) (sym kind) (group-IsEven parses inputs)
