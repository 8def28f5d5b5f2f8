-- ===== src/Web/Items/Writes.antt =====
-- Arrays and objects of the tables of web/src/components: what is written keeps the rows that were
-- there.
use message_pusher.Base.{
  ℕ, zero, suc, ◌≡◌, refl, sym, ap, ◌∙◌, Bool, true, false, List, [], ◌∷◌, ◌++◌, none, some, any,
  eqb, inl, inr, Bool-cases, Option-cases,
}
use message_pusher.Text.{Text}
use message_pusher.Web.Items.{
  Item, nth, put, or_no_items, list_at, is_item, has_item, changed, change_at,
}

-- The row with this id is in the array.
abbrev pub HasRow : ℕ → List Item → List ℕ → Type 0
HasRow id items refs = any (has_item id items) refs ≡ true

module _ {A : Type 0} where
  -- An address that was in use stays in use.
  nth-append : (k : ℕ) (xs ys : List A) (x : A) → nth k xs ≡ some x → nth k (xs ++ ys) ≡ some x
  unfolding nth
  nth-append k [] ys x h = let wrong : none ≡ some x = h in cc wrong
  nth-append zero (y ∷ xs) ys x h = h
  nth-append (suc k) (y ∷ xs) ys x h = nth-append k xs ys x h

  any-append_left : (p : A → Bool) (xs ys : List A) → any p xs ≡ true → any p (xs ++ ys) ≡ true
  any-append_left p [] ys h = let wrong : false ≡ true = h in cc wrong
  any-append_left p (x ∷ xs) ys h = elim (Bool-cases (p x)) [
    | inl here ↦ rw here refl
    | inr there ↦
        let later : any p xs ≡ true = rw there at h in rw there (any-append_left p xs ys later)
  ]

  pub any_mono :
      (p q : A → Bool) (xs : List A)
      → ((x : A) → p x ≡ true → q x ≡ true)
      → any p xs ≡ true
      → any q xs ≡ true
  any_mono p q [] imp h = h
  any_mono p q (x ∷ xs) imp h = elim (Bool-cases (p x)) [
    | inl here ↦ let e = imp x here in rw e refl
    | inr there ↦
        let later : any p xs ≡ true = rw there at h in
        let rest = any_mono p q xs imp later in
        elim (Bool-cases (q x)) [ inl e ↦ rw e refl | inr e ↦ rw e rest ]
  ]

pub has_item-append :
    (id ref : ℕ) (items more : List Item)
    → has_item id items ref ≡ true
    → has_item id (items ++ more) ref ≡ true
unfolding has_item
has_item-append id ref items more h = elim (Option-cases (nth ref items)) [
  | inl out ↦ let wrong : false ≡ true = rw out at h in cc wrong
  | inr (item, there) ↦
      let same : eqb item.id id ≡ true = rw there at h in
      ap (is_item id) (nth-append ref items more item there) ∙ same
]

-- An object is replaced by one with its id.
nth-put-is_item :
    (id k r : ℕ) (items : List Item) (item new : Item)
    → nth k items ≡ some item
    → new.id ≡ item.id
    → is_item id (nth r (put k new items)) ≡ is_item id (nth r items)
unfolding nth put
nth-put-is_item id k r [] item new h e = refl
nth-put-is_item id zero zero (x ∷ items) item new h e =
    ap (λ n. eqb n id) e ∙ sym (ap (is_item id) h)
nth-put-is_item id zero (suc r) (x ∷ items) item new h e = refl
nth-put-is_item id (suc k) zero (x ∷ items) item new h e = refl
nth-put-is_item id (suc k) (suc r) (x ∷ items) item new h e =
    nth-put-is_item id k r items item new h e

changed-id :
    (keys : List Text) (is_delete : Bool) (new item : Item)
    → (changed keys is_delete new item).id ≡ item.id
unfolding changed
changed-id keys true new item = refl
changed-id keys false new item = refl

pub change_at-has_item :
    (id ref r : ℕ) (keys : List Text) (is_delete : Bool) (new : Item) (items : List Item)
    → has_item id (change_at ref (changed keys is_delete new) items) r ≡ has_item id items r
unfolding has_item
change_at-has_item id ref r keys is_delete new items = elim (Option-cases (nth ref items)) [
  | inl out ↦ rw (change_at, out) refl
  | inr (item, there) ↦
      rw (change_at, there)
        (nth-put-is_item id ref r items item (changed keys is_delete new item) there
          (changed-id keys is_delete new item))
]

-- Arrays are added, and grow.
module _ (p : ℕ → Bool) where
  pub list_at-append :
      (list : ℕ) (lists more : List (List ℕ))
      → any p (list_at list lists) ≡ true
      → any p (list_at list (lists ++ more)) ≡ true
  unfolding list_at
  list_at-append list lists more h = elim (Option-cases (nth list lists)) [
    | inl out ↦ let wrong : false ≡ true = rw out at h in cc wrong
    | inr (refs, there) ↦
        let found : any p refs ≡ true = rw there at h in
        ap (λ o. any p (or_no_items o)) (nth-append list lists more refs there) ∙ found
  ]

  pub list_at-put :
      (list k : ℕ) (lists : List (List ℕ)) (more : List ℕ)
      → any p (list_at list lists) ≡ true
      → any p (list_at list (put k (list_at k lists ++ more) lists)) ≡ true
  unfolding list_at nth put
  list_at-put list k [] more h = h
  list_at-put zero zero (refs ∷ lists) more h = any-append_left p refs more h
  list_at-put zero (suc k) (refs ∷ lists) more h = h
  list_at-put (suc list) zero (refs ∷ lists) more h = h
  list_at-put (suc list) (suc k) (refs ∷ lists) more h = list_at-put list k lists more h
