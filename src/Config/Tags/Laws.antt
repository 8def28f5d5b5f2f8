-- ===== src/Config/Tags/Laws.antt =====
-- Which tag names `sanitizeTagName` returns, and which it leaves as they are.
use message_pusher.Base.{
  ◌∙◌, ℕ, ◌≤◌, Bool, true, false, ◌≡◌, ◌≢◌, ◌↔◌, refl, [], ◌∷◌, arith, length, All, Bool-cases, inl,
  inr,
}
use message_pusher.Text.{Text, trim, is_space, drop_while}
use message_pusher.Text.Laws.{trim_id}
use message_pusher.Result.{ok}
use message_pusher.Config.Tags.{
  is_tag_unit, is_dot_or_dash, collapse, max_tag_length, check_tag_name, sanitize_tag_name,
}

abbrev pub AreTagUnits : Text → Type 0
AreTagUnits = All (λ c. is_tag_unit c ≡ true)

-- A name that docker accepts as a tag.
pub record IsTagName (t : Text) : Type 0 where
  pub units : AreTagUnits t
  pub nonempty : t ≢ []
  pub short : length t ≤ max_tag_length
  pub head : (c : ℕ) (s : Text) → t ≡ c ∷ s → is_dot_or_dash c ≡ false

collapse_units : (inside : Bool) (s : Text) → AreTagUnits (collapse inside s)
unfolding collapse
collapse_units inside [] = tt
collapse_units inside (c ∷ s) = elim (Bool-cases (is_tag_unit c)) [
  | inl t ↦ ground (arith, collapse_units false s)
  | inr f ↦ ground (arith, collapse_units true s)
]

drop_while_units : (s : Text) → AreTagUnits s → AreTagUnits (drop_while is_dot_or_dash s)
unfolding drop_while
drop_while_units [] h = tt
drop_while_units (c ∷ s) h = ground (arith, drop_while_units s)

-- The first unit that `drop_while` leaves does not pass the test.
drop_while_head :
    (p : ℕ → Bool) (s : Text) (c : ℕ) (r : Text) → drop_while p s ≡ c ∷ r → p c ≡ false
unfolding drop_while
drop_while_head p [] c r h = cc
drop_while_head p (d ∷ s) c r h = ground (arith, drop_while_head p s c r)

pub check_tag_name-eq-ok :
    (v n t : Text) → check_tag_name v n ≡ ok t → (n ≡ t) × (n ≢ []) × (length n ≤ max_tag_length)
check_tag_name-eq-ok v n t h = ground arith

-- Every name that `sanitizeTagName` returns is a legal docker tag.
pub sanitize_tag_name-IsTagName : (v t : Text) → sanitize_tag_name v ≡ ok t → IsTagName t
unfolding sanitize_tag_name
sanitize_tag_name-IsTagName v t h =
    let name = drop_while is_dot_or_dash (collapse false (trim v)) in
    let (e, nonempty, short) = check_tag_name-eq-ok v name t h in
    record {
      units = rw (← e) (drop_while_units _ (collapse_units false (trim v)));
      nonempty = rw (← e) nonempty;
      short = rw (← e) short;
      head = λ c s q. drop_while_head is_dot_or_dash (collapse false (trim v)) c s (e ∙ q);
    }

tag_unit-not-space : (c : ℕ) → is_tag_unit c ≡ true → is_space c ≡ false
unfolding is_space
tag_unit-not-space c h = ground arith

pub trim_tag_units : (t : Text) → AreTagUnits t → trim t ≡ t
trim_tag_units t h = trim_id t (go t h)
  where
    go : (t : Text) → AreTagUnits t → All (λ c. is_space c ≡ false) t
    go [] h = tt
    go (c ∷ t) (q, h) = (tag_unit-not-space c q, go t h)

pub collapse_id : (t : Text) → AreTagUnits t → collapse false t ≡ t
unfolding collapse
collapse_id [] h = refl
collapse_id (c ∷ t) (q, h) = rw (q, collapse) (rw (collapse_id t h))

-- A text of tag units that does not begin with a dot or a dash is only measured.
pub sanitize_units :
    (c : ℕ) (t : Text)
    → AreTagUnits (c ∷ t)
    → is_dot_or_dash c ≡ false
    → sanitize_tag_name (c ∷ t) ≡ check_tag_name (c ∷ t) (c ∷ t)
unfolding sanitize_tag_name
sanitize_units c t h q = rw (trim_tag_units (c ∷ t) h, collapse_id (c ∷ t) h) (rw q)

-- A legal tag is returned unchanged.
pub sanitize_tag_name_id : (t : Text) → IsTagName t → sanitize_tag_name t ≡ ok t
sanitize_tag_name_id [] h = absurd (h.nonempty refl)
sanitize_tag_name_id (c ∷ t) h = rw (sanitize_units c t h.units (h.head c t refl)) (go h.short)
  where
    go : length (c ∷ t) ≤ max_tag_length → check_tag_name (c ∷ t) (c ∷ t) ≡ ok (c ∷ t)
    go k = ground arith

-- `sanitizeTagName` returns `t` for some value exactly if `t` is a legal tag, and exactly then it
-- returns `t` for `t` itself.
pub sanitize_tag_name_iff :
    (t : Text)
    → (((v : Text) × (sanitize_tag_name v ≡ ok t)) ↔ IsTagName t)
      × ((sanitize_tag_name t ≡ ok t) ↔ IsTagName t)
sanitize_tag_name_iff t = (
  (λ (v, e). sanitize_tag_name-IsTagName v t e, λ h. (t, sanitize_tag_name_id t h)),
  (sanitize_tag_name-IsTagName t t, sanitize_tag_name_id t),
)
