-- ===== src/Meta/Plan/Duplicates.antt =====
-- `findDuplicateTags` finds nothing exactly if no two variants share a tag.
use message_pusher.Base.{
  ◌≡◌, ◌↔◌, refl, sym, ◌∙◌, ap, true, false, List, [], ◌∷◌, ◌++◌, map, none, some, arith, IsIn,
  IsIn-append, IsIn-append_left, IsIn-append_right, IsIn-map, IsIn-map_inv, Bool-cases,
  Option-cases, inl, inr, if◌then◌else◌,
}
use message_pusher.Text.{Text, ◌==◌}
use message_pusher.Text.Laws.{==_iff, ==_refl}
use message_pusher.State.{Build}
use message_pusher.Meta.Plan.{Seen, owner, scan_names, scan_builds, find_duplicate_tags}

-- The two loops as one, over pairs of a tag name and its variant.
scan_pairs : Seen → List (Text × Text) → List Text
scan_pairs seen [] = []
scan_pairs seen ((n, v) ∷ ps) = elim (owner seen n) [
  | none ↦ scan_pairs ((n, v) ∷ seen) ps
  | some w ↦ elim (w == v) [ true ↦ scan_pairs ((n, v) ∷ seen) ps | false ↦ n ∷ scan_pairs seen ps ]
]

-- A name that was seen belongs to the variant of the pair.
abbrev Agrees : Seen → Text → Text → Type 0
Agrees seen n v = (w : Text) → owner seen n ≡ some w → w ≡ v

owner-cons :
    (seen : Seen) (n v m : Text)
    → owner ((n, v) ∷ seen) m ≡ (if n == m then some v else owner seen m)
unfolding owner
owner-cons seen n v m = refl

scan_pairs-fresh :
    (seen : Seen) (n v : Text) (ps : List (Text × Text))
    → Agrees seen n v
    → scan_pairs seen ((n, v) ∷ ps) ≡ scan_pairs ((n, v) ∷ seen) ps
unfolding scan_pairs
scan_pairs-fresh seen n v ps h = elim (Option-cases (owner seen n)) [
  | inl e ↦ ground arith
  | inr (w, e) ↦ ground (arith, h w e, ==_refl v)
]

-- If nothing is found, the first pair agrees with what is seen.
scan_pairs-Agrees :
    (seen : Seen) (n v : Text) (ps : List (Text × Text))
    → scan_pairs seen ((n, v) ∷ ps) ≡ []
    → Agrees seen n v
unfolding scan_pairs
scan_pairs-Agrees seen n v ps h w e = ground (arith, ==_iff w v)

Agrees-cons_inv :
    (seen : Seen) (n v m u : Text) → Agrees seen n v → Agrees ((n, v) ∷ seen) m u → Agrees seen m u
Agrees-cons_inv seen n v m u here there w e = elim (Bool-cases (n == m)) [
  | inl same ↦
      let q : n ≡ m = (==_iff n m).0 same in
      here w (rw q e) ∙ there v (owner-cons seen n v m ∙ rw same refl)
  | inr other ↦ there w (owner-cons seen n v m ∙ rw other e)
]

Agrees-cons :
    (seen : Seen) (n v m u : Text) → (n ≡ m → v ≡ u) → Agrees seen m u → Agrees ((n, v) ∷ seen) m u
Agrees-cons seen n v m u same h w e = ground (arith, ==_iff n m, owner-cons seen n v m, h w)

-- Two pairs with one name have one variant.
abbrev OneOwner : List (Text × Text) → Type 0
OneOwner ps = (n v u : Text) → IsIn (n, v) ps → IsIn (n, u) ps → v ≡ u

-- What is not found agrees with what was seen at every pair.
scan_pairs-all_agree :
    (seen : Seen) (ps : List (Text × Text)) (m u : Text)
    → scan_pairs seen ps ≡ []
    → IsIn (m, u) ps
    → Agrees seen m u
scan_pairs-all_agree seen [] m u h i = absurd i
scan_pairs-all_agree seen ((n, v) ∷ ps) m u h (inl e) =
    let here = scan_pairs-Agrees seen n v ps h in
    λ w q.
      here w (rw (← (ap (λ (p : Text × Text). p.0) e)) q) ∙ sym (ap (λ (p : Text × Text). p.1) e)
scan_pairs-all_agree seen ((n, v) ∷ ps) m u h (inr i) =
    let here = scan_pairs-Agrees seen n v ps h in
    let rest = sym (scan_pairs-fresh seen n v ps here) ∙ h in
    Agrees-cons_inv seen n v m u here (scan_pairs-all_agree ((n, v) ∷ seen) ps m u rest i)

scan_pairs-OneOwner :
    (seen : Seen) (ps : List (Text × Text)) → scan_pairs seen ps ≡ [] → OneOwner ps
scan_pairs-OneOwner seen [] h m u w i j = absurd i
scan_pairs-OneOwner seen ((n, v) ∷ ps) h m u w i j =
    let rest = sym (scan_pairs-fresh seen n v ps (scan_pairs-Agrees seen n v ps h)) ∙ h in
    let tail = λ (u : Text) (k : IsIn (m, u) ps) (q : n ≡ m).
      scan_pairs-all_agree ((n, v) ∷ seen) ps m u rest k v
        (owner-cons seen n v m ∙ rw ((==_iff n m).1 q) refl) in
    heads i j tail (scan_pairs-OneOwner ((n, v) ∷ seen) ps rest m u w)
  where
    heads :
        IsIn (m, u) ((n, v) ∷ ps)
        → IsIn (m, w) ((n, v) ∷ ps)
        → ((u : Text) → IsIn (m, u) ps → n ≡ m → v ≡ u)
        → (IsIn (m, u) ps → IsIn (m, w) ps → u ≡ w)
        → u ≡ w
    heads (inl e) (inl f) tail deep = ap (λ (p : Text × Text). p.1) (e ∙ sym f)
    heads (inl e) (inr j) tail deep =
        ap (λ (p : Text × Text). p.1) e ∙ tail w j (sym (ap (λ (p : Text × Text). p.0) e))
    heads (inr i) (inl f) tail deep =
        sym (tail u i (sym (ap (λ (p : Text × Text). p.0) f)))
        ∙ sym (ap (λ (p : Text × Text). p.1) f)
    heads (inr i) (inr j) tail deep = deep i j

scan_pairs-nil :
    (seen : Seen) (ps : List (Text × Text))
    → OneOwner ps
    → ((m u : Text) → IsIn (m, u) ps → Agrees seen m u)
    → scan_pairs seen ps ≡ []
unfolding scan_pairs
scan_pairs-nil seen [] one agree = refl
scan_pairs-nil seen ((n, v) ∷ ps) one agree =
    scan_pairs-fresh seen n v ps (agree n v (inl refl))
    ∙ scan_pairs-nil ((n, v) ∷ seen) ps (λ m u w i j. one m u w (inr i) (inr j))
        λ m u i.
          Agrees-cons seen n v m u
            (λ q. one m v u (inl (ap (λ (t : Text). (t, v)) (sym q))) (inr i)) (agree m u (inr i))

-- The pairs of one build, and of all builds.
abbrev with_variant : Text → Text → Text × Text
with_variant variant name = (name, variant)

abbrev pairs : List Build → List (Text × Text)
pairs [] = []
pairs (b ∷ builds) = map (with_variant b.variant) b.tag_names ++ pairs builds

scan_names-pairs :
    (v : Text) (seen : Seen) (names : List Text) (ps : List (Text × Text))
    → scan_pairs seen (map (with_variant v) names ++ ps)
      ≡ (scan_names v seen names).1 ++ scan_pairs (scan_names v seen names).0 ps
unfolding scan_pairs scan_names
scan_names-pairs v seen [] ps = refl
scan_names-pairs v seen (n ∷ names) ps =
    ground (arith, scan_names-pairs v ((n, v) ∷ seen) names ps, scan_names-pairs v seen names ps)

scan_builds-pairs :
    (seen : Seen) (builds : List Build) → scan_builds seen builds ≡ scan_pairs seen (pairs builds)
unfolding scan_builds
scan_builds-pairs seen [] = unfold scan_pairs in refl
scan_builds-pairs seen (b ∷ builds) =
    rw (scan_names-pairs b.variant seen b.tag_names (pairs builds)) (
      ap (λ (l : List Text). (scan_names b.variant seen b.tag_names).1 ++ l)
        (scan_builds-pairs (scan_names b.variant seen b.tag_names).0 builds))

IsIn-pairs :
    (b : Build) (n : Text) (builds : List Build)
    → IsIn b builds
    → IsIn n b.tag_names
    → IsIn (n, b.variant) (pairs builds)
IsIn-pairs b n [] i j = absurd i
IsIn-pairs b n (c ∷ builds) (inl e) j =
    rw (← e)
      (IsIn-append_left _ _ (pairs builds) (IsIn-map (with_variant b.variant) n b.tag_names j))
IsIn-pairs b n (c ∷ builds) (inr i) j =
    IsIn-append_right _ (map (with_variant c.variant) c.tag_names) _ (IsIn-pairs b n builds i j)

IsIn-pairs_inv :
    (n v : Text) (builds : List Build)
    → IsIn (n, v) (pairs builds)
    → (b : Build) × IsIn b builds × IsIn n b.tag_names × (b.variant ≡ v)
IsIn-pairs_inv n v [] i = absurd i
IsIn-pairs_inv n v (b ∷ builds) i =
    elim (IsIn-append _ (map (with_variant b.variant) b.tag_names) (pairs builds) i) [
      | inl l ↦
          let (m, k, e) = IsIn-map_inv (with_variant b.variant) (n, v) b.tag_names l in
          (
            b,
            inl refl,
            rw (ap (λ (p : Text × Text). p.0) e) k,
            sym (ap (λ (p : Text × Text). p.1) e),
          )
      | inr r ↦ let (c, k, j, e) = IsIn-pairs_inv n v builds r in (c, inr k, j, e)
    ]

-- No tag name stands in the builds of two variants.
abbrev pub NoSharedTag : List Build → Type 0
NoSharedTag builds =
    (a b : Build) (name : Text)
    → IsIn a builds
    → IsIn b builds
    → IsIn name a.tag_names
    → IsIn name b.tag_names
    → a.variant ≡ b.variant

-- `findDuplicateTags` returns nothing exactly if no tag name stands in the builds of two different
-- variants.
pub find_duplicate_tags_iff :
    (builds : List Build) → (find_duplicate_tags builds ≡ []) ↔ NoSharedTag builds
unfolding find_duplicate_tags owner
find_duplicate_tags_iff builds = (
  λ h a b n i j k l.
      scan_pairs-OneOwner [] (pairs builds) (sym (scan_builds-pairs [] builds) ∙ h) n a.variant
        b.variant (IsIn-pairs a n builds i k) (IsIn-pairs b n builds j l),
  λ h.
      scan_builds-pairs [] builds
      ∙ scan_pairs-nil [] (pairs builds)
          (λ n v u i j.
            let (a, ia, ja, ea) = IsIn-pairs_inv n v builds i in
            let (b, ib, jb, eb) = IsIn-pairs_inv n u builds j in sym ea ∙ h a b n ia ib ja jb ∙ eb)
          (λ m u i w e. absurd (nothing_seen m w e)),
)
  where
    nothing_seen : (m w : Text) → owner [] m ≡ some w → ⊥
    nothing_seen m w e = cc
