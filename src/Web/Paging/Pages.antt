-- ===== src/Web/Paging/Pages.antt =====
-- The pages of a table together show its rows.
use message_pusher.Base.{
  ℕ, zero, suc, ◌+◌, ◌-◌, ◌*◌, ◌≤◌, ◌≡◌, refl, sym, ap, ◌∙◌, Bool, List, [], ◌∷◌, ◌++◌, filter,
  take, drop, length, arith, inl, inr, Bool-cases,
}
use message_pusher.Web.Paging.{items_per_page, total_pages, Row, is_shown, slice, paged}

module _ {A : Type 0} where
  take_nil : (n : ℕ) → take {A = A} n [] ≡ []
  take_nil zero = refl
  take_nil (suc n) = refl

  take_add : (m n : ℕ) (xs : List A) → take (m + n) xs ≡ take m xs ++ take n (drop m xs)
  take_add zero n xs = let e : zero + n ≡ n = omega arith in rw e refl
  take_add (suc m) n [] = let e : suc m + n ≡ suc (m + n) = omega arith in rw (e, take_nil n) refl
  take_add (suc m) n (x ∷ xs) =
      let e : suc m + n ≡ suc (m + n) = omega arith in rw e (ap (λ l. x ∷ l) (take_add m n xs))

  take_all : (n : ℕ) (xs : List A) → length xs ≤ n → take n xs ≡ xs
  take_all n [] h = take_nil n
  take_all zero (x ∷ xs) h = absurd (omega arith)
  take_all (suc n) (x ∷ xs) h = ap (λ l. x ∷ l) (take_all n xs (omega arith))

  take-length : (n : ℕ) (xs : List A) → length (take n xs) ≤ n
  take-length zero xs = omega arith
  take-length (suc n) [] = omega arith
  take-length (suc n) (x ∷ xs) = let rest = take-length n xs in omega arith

  filter-length : (p : A → Bool) (xs : List A) → length (filter p xs) ≤ length xs
  filter-length p [] = omega arith
  filter-length p (x ∷ xs) = let rest = filter-length p xs in ground arith

  filter-append : (p : A → Bool) (xs ys : List A) → filter p (xs ++ ys) ≡ filter p xs ++ filter p ys
  filter-append p [] ys = refl
  filter-append p (x ∷ xs) ys = elim (Bool-cases (p x)) [
    | inl t ↦ rw t (ap (λ l. x ∷ l) (filter-append p xs ys))
    | inr f ↦ rw f (filter-append p xs ys)
  ]

-- What the pages from the first to a last one show.
abbrev pub shown_to : ℕ → List Row → List Row
shown_to zero rows = []
shown_to (suc page) rows = shown_to page rows ++ paged (suc page) rows

shown_to-take :
    (page : ℕ) (rows : List Row)
    → shown_to page rows ≡ filter is_shown (take (page * items_per_page) rows)
unfolding paged
shown_to-take zero rows = refl
shown_to-take (suc page) rows =
    let size : suc page * items_per_page - (suc page - 1) * items_per_page ≡ items_per_page =
      omega arith in
    let start : (suc page - 1) * items_per_page ≡ page * items_per_page = omega arith in
    let end : suc page * items_per_page ≡ page * items_per_page + items_per_page = omega arith in
    let first = take (page * items_per_page) rows in
    let second = take items_per_page (drop (page * items_per_page) rows) in
    let own : paged (suc page) rows ≡ filter is_shown second = rw (size, start) refl in
    ap (λ l. l ++ paged (suc page) rows) (shown_to-take page rows)
    ∙ ap (λ l. filter is_shown first ++ l) own
    ∙ sym (filter-append is_shown first second)
    ∙ ap (filter is_shown) (sym (take_add (page * items_per_page) items_per_page rows))
    ∙ ap (λ n. filter is_shown (take n rows)) (sym end)

total_pages-bound : (count : ℕ) → count ≤ total_pages count * items_per_page
unfolding total_pages
total_pages-bound count = ground arith

paged-length : (page : ℕ) (rows : List Row) → length (paged page rows) ≤ items_per_page
unfolding paged
paged-length page rows =
    let start = (page - 1) * items_per_page in
    let end = page * items_per_page in
    let kept = filter-length is_shown (slice start end rows) in
    let cut = take-length (end - start) (drop start rows) in omega arith

-- A page has at most ten rows, and the pages from the first to the last one together show every row
-- that is not deleted, once and in the order of the list.
pub shown_to-total_pages :
    (rows : List Row)
    → (shown_to (total_pages (length rows)) rows ≡ filter is_shown rows)
      × ((page : ℕ) → length (paged page rows) ≤ items_per_page)
shown_to-total_pages rows = (
  shown_to-take (total_pages (length rows)) rows
      ∙ ap (filter is_shown) (
          take_all (total_pages (length rows) * items_per_page) rows
            (total_pages-bound (length rows))),
  λ page. paged-length page rows,
)
