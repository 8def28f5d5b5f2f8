-- ===== src/Web/Paging/Distinct.antt =====
-- Rows with different ids, and what keeps them so.
use message_pusher.Base.{
  ℕ, ◌≡◌, ◌⊎◌, refl, sym, subst, Bool, List, [], ◌∷◌, ◌++◌, map, filter, IsIn, IsDistinct, inl, inr,
  Bool-cases,
}
use message_pusher.Text.{Text}
use message_pusher.Web.Paging.{Row, reverse, insert_row, sort_rows, same_head, sorted_by}

abbrev pub id_of : Row → ℕ
id_of row = row.id

-- A row with this id is in the list.
abbrev pub HasRow : ℕ → List Row → Type 0
HasRow id rows = IsIn id (map id_of rows)

abbrev pub AreDistinct : List Row → Type 0
AreDistinct rows = IsDistinct (map id_of rows)

pub HasRow-append : (id : ℕ) (xs ys : List Row) → HasRow id (xs ++ ys) → HasRow id xs ⊎ HasRow id ys
HasRow-append id [] ys h = inr h
HasRow-append id (x ∷ xs) ys (inl e) = inl (inl e)
HasRow-append id (x ∷ xs) ys (inr h) = elim (HasRow-append id xs ys h) [
  | inl l ↦ inl (inr l)
  | inr r ↦ inr r
]

pub AreDistinct-append :
    (xs ys : List Row)
    → AreDistinct xs
    → AreDistinct ys
    → ((id : ℕ) → HasRow id xs → ¬ HasRow id ys)
    → AreDistinct (xs ++ ys)
AreDistinct-append [] ys dx dy apart = dy
AreDistinct-append (x ∷ xs) ys (new, dx) dy apart = (
  λ h. elim (HasRow-append x.id xs ys h) [ inl l ↦ new l | inr r ↦ apart x.id (inl refl) r ],
  AreDistinct-append xs ys dx dy (λ id h. apart id (inr h)),
)

pub HasRow-filter :
    (p : Row → Bool) (id : ℕ) (rows : List Row) → HasRow id (filter p rows) → HasRow id rows
HasRow-filter p id [] h = h
HasRow-filter p id (row ∷ rows) h = elim (Bool-cases (p row)) [
  | inr dropped ↦ inr (HasRow-filter p id rows (rw dropped at h))
  | inl kept ↦
      let h1 : (id ≡ row.id) ⊎ HasRow id (filter p rows) = rw kept at h in
      elim h1 [ inl e ↦ inl e | inr g ↦ inr (HasRow-filter p id rows g) ]
]

pub AreDistinct-filter :
    (p : Row → Bool) (rows : List Row) → AreDistinct rows → AreDistinct (filter p rows)
AreDistinct-filter p [] d = tt
AreDistinct-filter p (row ∷ rows) (new, d) = elim (Bool-cases (p row)) [
  | inr dropped ↦ rw dropped (AreDistinct-filter p rows d)
  | inl kept ↦ rw kept (λ h. new (HasRow-filter p row.id rows h), AreDistinct-filter p rows d)
]

HasRow-reverse : (id : ℕ) (rows : List Row) → HasRow id (reverse rows) → HasRow id rows
unfolding reverse
HasRow-reverse id [] h = h
HasRow-reverse id (row ∷ rows) h = elim (HasRow-append id (reverse rows) (row ∷ []) h) [
  | inl l ↦ inr (HasRow-reverse id rows l)
  | inr r ↦ elim r [ inl e ↦ inl e | inr k ↦ absurd k ]
]

AreDistinct-reverse : (rows : List Row) → AreDistinct rows → AreDistinct (reverse rows)
unfolding reverse
AreDistinct-reverse [] d = tt
AreDistinct-reverse (row ∷ rows) (new, d) =
    AreDistinct-append (reverse rows) (row ∷ []) (AreDistinct-reverse rows d) (λ h. h, tt)
      (λ id h k. elim k [
        | inl e ↦ new (HasRow-reverse row.id rows (subst (λ i. HasRow i (reverse rows)) e h))
        | inr n ↦ n
      ])

module _ (le : Text → Text → Bool) (key : Text) where
  HasRow-insert_row :
      (id : ℕ) (row : Row) (rows : List Row)
      → HasRow id (insert_row le key row rows)
      → (id ≡ row.id) ⊎ HasRow id rows
  unfolding insert_row
  HasRow-insert_row id row [] h = h
  HasRow-insert_row id row (r ∷ rows) h = elim (Bool-cases (le (row.field key) (r.field key))) [
    | inl before ↦ rw before at h
    | inr behind ↦
        let h1 : (id ≡ r.id) ⊎ HasRow id (insert_row le key row rows) = rw behind at h in
        elim h1 [
          | inl e ↦ inr (inl e)
          | inr g ↦ elim (HasRow-insert_row id row rows g) [ inl e ↦ inl e | inr k ↦ inr (inr k) ]
        ]
  ]

  AreDistinct-insert_row :
      (row : Row) (rows : List Row)
      → ¬ HasRow row.id rows
      → AreDistinct rows
      → AreDistinct (insert_row le key row rows)
  unfolding insert_row
  AreDistinct-insert_row row [] new d = (λ h. h, tt)
  AreDistinct-insert_row row (r ∷ rows) new (fresh, d) =
      elim (Bool-cases (le (row.field key) (r.field key))) [
        | inl before ↦ rw before (new, (fresh, d))
        | inr behind ↦ rw behind (
          λ h. elim (HasRow-insert_row r.id row rows h) [
            | inl e ↦ new (inl (sym e))
            | inr k ↦ fresh k
          ],
          AreDistinct-insert_row row rows (λ h. new (inr h)) d,
        )
      ]

  HasRow-sort_rows : (id : ℕ) (rows : List Row) → HasRow id (sort_rows le key rows) → HasRow id rows
  unfolding sort_rows
  HasRow-sort_rows id [] h = h
  HasRow-sort_rows id (row ∷ rows) h = elim (HasRow-insert_row id row (sort_rows le key rows) h) [
    | inl e ↦ inl e
    | inr k ↦ inr (HasRow-sort_rows id rows k)
  ]

  AreDistinct-sort_rows : (rows : List Row) → AreDistinct rows → AreDistinct (sort_rows le key rows)
  unfolding sort_rows
  AreDistinct-sort_rows [] d = tt
  AreDistinct-sort_rows (row ∷ rows) (new, d) =
      AreDistinct-insert_row row (sort_rows le key rows) (λ h. new (HasRow-sort_rows row.id rows h))
        (AreDistinct-sort_rows rows d)

  pub sorted_by-AreDistinct :
      (rows : List Row) → AreDistinct rows → AreDistinct (sorted_by le key rows)
  unfolding sorted_by
  sorted_by-AreDistinct rows d =
      let sorted = sort_rows le key rows in
      let kept = AreDistinct-sort_rows rows d in
      elim (Bool-cases (same_head sorted rows)) [
        | inl same ↦ rw same (AreDistinct-reverse sorted kept)
        | inr other ↦ rw other kept
      ]
