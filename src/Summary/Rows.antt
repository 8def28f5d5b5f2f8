-- ===== src/Summary/Rows.antt =====
-- What stands in the digest table.
use message_pusher.Base.{
  ◌≡◌, ◌↔◌, refl, sym, List, [], ◌∷◌, map, IsIn, IsIn-append, IsIn-append_left, IsIn-append_right,
  IsIn-map, IsIn-map_inv, inl, inr, subst,
}
use message_pusher.Text.{Text}
use message_pusher.Summary.{RunResult, result_refs, ref_line, row_of, summary_lines, summary_rows}

IsIn-summary_rows :
    (results : List RunResult) (row : Text)
    → IsIn row (summary_rows results)
    → (r : RunResult) × (ref_ : Text) × IsIn r results
      × IsIn ref_ (result_refs r)
      × (row ≡ row_of r ref_)
unfolding summary_rows
IsIn-summary_rows [] row i = absurd i
IsIn-summary_rows (c ∷ results) row i =
    elim (IsIn-append row (map (row_of c) (result_refs c)) (summary_rows results) i) [
      | inl l ↦
          let (ref_, j, e) = IsIn-map_inv (row_of c) row (result_refs c) l in
          (c, ref_, inl refl, j, e)
      | inr later ↦
          let (r, ref_, j, k, e) = IsIn-summary_rows results row later in (r, ref_, inr j, k, e)
    ]

IsIn-summary_rows_intro :
    (results : List RunResult) (r : RunResult) (ref_ : Text)
    → IsIn r results
    → IsIn ref_ (result_refs r)
    → IsIn (row_of r ref_) (summary_rows results) × IsIn (ref_line ref_) (summary_lines results)
unfolding summary_rows summary_lines
IsIn-summary_rows_intro [] r ref_ i j = absurd i
IsIn-summary_rows_intro (c ∷ results) r ref_ (inl q) j =
    let own : IsIn ref_ (result_refs c) = subst (λ x. IsIn ref_ (result_refs x)) q j in
    let row =
      IsIn-append_left (row_of c ref_) _ (summary_rows results)
        (IsIn-map (row_of c) ref_ (result_refs c) own) in
    (
      subst (λ x. IsIn (row_of x ref_) (summary_rows (c ∷ results))) (sym q) row,
      inr (
          IsIn-append_left (ref_line ref_) _ (summary_lines results)
            (IsIn-map ref_line ref_ (result_refs c) own)),
    )
IsIn-summary_rows_intro (c ∷ results) r ref_ (inr i) j =
    let (row, line) = IsIn-summary_rows_intro results r ref_ i j in
    (
      IsIn-append_right (row_of r ref_) (map (row_of c) (result_refs c)) (summary_rows results) row,
      inr (
          IsIn-append_right (ref_line ref_) (map ref_line (result_refs c)) (summary_lines results)
            line),
    )

-- The rows of the table are exactly those of the refs of the results.
summary_rows_iff :
    (results : List RunResult) (row : Text)
    → IsIn row (summary_rows results) ↔ (
        (r : RunResult) × (ref_ : Text) × IsIn r results
        × IsIn ref_ (result_refs r)
        × (row ≡ row_of r ref_))
summary_rows_iff results row = (
  IsIn-summary_rows results row,
  λ (r, ref_, i, j, e).
      subst (λ x. IsIn x (summary_rows results)) (sym e)
        (IsIn-summary_rows_intro results r ref_ i j).0,
)
