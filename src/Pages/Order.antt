-- ===== src/Pages/Order.antt =====
-- catalog/query.go: the gallery's order of the rows, capture times first and descending, and what a
-- cursor leaves of it.
use fragments.Base.{
  bytes_eq→≡, bytes_eq_refl, bytes_eq, ℕ, ◌≡◌, ◌≢◌, refl, sym, ap, ◌∙◌, Bool, true, false, ◌&&◌,
  Option, none, some, List, [], ◌∷◌, ◌++◌, ◌⊎◌, inl, inr, pos, text_lt, text_lt-asym, keep, sort_by,
  All, Comparable, InOrder, InOrder-sort_by, keep-sort_by, keep-before, arith, Bool-cases, All-keep,
  subst,
}
use fragments.Store.Rows.{Row, Store}
use fragments.Store.Select.{PhotoFilter, photo_where}
use fragments.Pages.Page.{taken_of, key_before, row_before, behind_cursor, selected}

text_lt_irrefl : (xs : List ℕ) → text_lt xs xs ≡ false
text_lt_irrefl [] = refl
text_lt_irrefl (x ∷ xs) = ground (arith, text_lt_irrefl xs)

text_lt_trans :
    (xs ys zs : List ℕ) → text_lt xs ys ≡ true → text_lt ys zs ≡ true → text_lt xs zs ≡ true
text_lt_trans xs ys [] h k = absurd (cc)
text_lt_trans xs [] (z ∷ zs) h k = absurd (cc)
text_lt_trans [] (y ∷ ys) (z ∷ zs) h k = refl
text_lt_trans (x ∷ xs) (y ∷ ys) (z ∷ zs) h k = ground (arith, text_lt_trans xs ys zs)

text_lt-total :
    (xs ys : List ℕ) → text_lt xs ys ≡ false → text_lt ys xs ≡ false → bytes_eq xs ys ≡ true
text_lt-total [] [] h k = refl
text_lt-total [] (y ∷ ys) h k = absurd (cc)
text_lt-total (x ∷ xs) [] h k = absurd (cc)
text_lt-total (x ∷ xs) (y ∷ ys) h k = ground (arith, text_lt-total xs ys)

key_before_trans :
    (a b c : Option (List ℕ)) (i j k : ℕ)
    → key_before a i b j ≡ true
    → key_before b j c k ≡ true
    → key_before a i c k ≡ true
key_before_trans none none none i j k h l = ground (arith)
key_before_trans none none (some z) i j k h l = absurd (cc)
key_before_trans none (some y) c i j k h l = absurd (cc)
key_before_trans (some x) none none i j k h l = refl
key_before_trans (some x) none (some z) i j k h l = absurd (cc)
key_before_trans (some x) (some y) none i j k h l = refl
key_before_trans (some x) (some y) (some z) i j k h l =
    ground (arith, text_lt_trans z y x, bytes_eq→≡ y x, bytes_eq→≡ z y, bytes_eq_refl z)

key_before-asym :
    (a b : Option (List ℕ)) (i j : ℕ) → key_before a i b j ≡ true → key_before b j a i ≡ false
key_before-asym none none i j h = ground (arith)
key_before-asym none (some y) i j h = absurd (cc)
key_before-asym (some x) none i j h = refl
key_before-asym (some x) (some y) i j h =
    ground (arith, text_lt-asym y x, bytes_eq→≡ y x, bytes_eq→≡ x y, text_lt_irrefl x)

key_before-total :
    (a b : Option (List ℕ)) (i j : ℕ)
    → i ≢ j
    → (key_before a i b j ≡ true) ⊎ (key_before b j a i ≡ true)
key_before-total none none i j h = ground (arith)
key_before-total none (some y) i j h = inr refl
key_before-total (some x) none i j h = inl refl
key_before-total (some x) (some y) i j h =
    ground (arith, text_lt-total y x, bytes_eq→≡ y x, bytes_eq_refl x, bytes_eq_refl y)

row_before_trans :
    (r s t : Row) → row_before r s ≡ true → row_before s t ≡ true → row_before r t ≡ true
row_before_trans r s t = key_before_trans (taken_of r) (taken_of s) (taken_of t) r.id s.id t.id

row_before-asym : (r s : Row) → row_before r s ≡ true → row_before s r ≡ false
row_before-asym r s = key_before-asym (taken_of r) (taken_of s) r.id s.id

-- The ids of the rows are different: `id` is the primary key.
abbrev pub DistinctIds : List Row → Type 0
DistinctIds [] = Unit
DistinctIds (r ∷ rs) = All (λ s. r.id ≢ s.id) rs × DistinctIds rs

others-Comparable :
    (r : Row) (rs : List Row)
    → All (λ s. r.id ≢ s.id) rs
    → All (λ s. (row_before r s ≡ true) ⊎ (row_before s r ≡ true)) rs
others-Comparable r [] h = tt
others-Comparable r (s ∷ rs) h =
    (key_before-total (taken_of r) (taken_of s) r.id s.id h.0, others-Comparable r rs h.1)

DistinctIds-Comparable : (rs : List Row) → DistinctIds rs → Comparable row_before rs
DistinctIds-Comparable [] h = tt
DistinctIds-Comparable (r ∷ rs) h = (others-Comparable r rs h.0, DistinctIds-Comparable rs h.1)

-- The WHERE condition of the cursor of a row is the ORDER BY of the statement.
behind_cursor-row_before :
    (r s : Row) → behind_cursor (record { taken = taken_of r; id = pos r.id }) s ≡ row_before r s
unfolding behind_cursor
behind_cursor-row_before r s = ground (arith)

DistinctIds-keep : (p : Row → Bool) (rs : List Row) → DistinctIds rs → DistinctIds (keep p rs)
DistinctIds-keep p [] h = tt
DistinctIds-keep p (r ∷ rs) h = elim (Bool-cases (p r)) [
  | inl e ↦ rw e (All-keep (λ s. r.id ≢ s.id) p rs h.0, DistinctIds-keep p rs h.1)
  | inr e ↦ rw e (DistinctIds-keep p rs h.1)
]

keep-keep : (p q : Row → Bool) (rs : List Row) → keep q (keep p rs) ≡ keep (λ r. p r && q r) rs
keep-keep p q [] = refl
keep-keep p q (r ∷ rs) = ground (arith, keep-keep p q rs)

keep-same : (p q : Row → Bool) (rs : List Row) → ((r : Row) → p r ≡ q r) → keep p rs ≡ keep q rs
keep-same p q [] h = refl
keep-same p q (r ∷ rs) h = rw (h r, keep-same p q rs h) refl

module _ (f : PhotoFilter) (s : Store) (distinct : DistinctIds s.photos) where
  selected-Comparable : Comparable row_before (keep (photo_where f) s.photos)
  selected-Comparable =
      DistinctIds-Comparable (keep (photo_where f) s.photos)
        (DistinctIds-keep (photo_where f) s.photos distinct)

  pub selected-InOrder : InOrder row_before (selected f none s)
  unfolding selected
  selected-InOrder =
      InOrder-sort_by row_before row_before_trans row_before-asym (keep (photo_where f) s.photos)
        selected-Comparable

  -- What the cursor of a row selects is what comes behind the row in the whole selection.
  selected-keep :
      (r : Row)
      → selected f (some (record { taken = taken_of r; id = pos r.id })) s
        ≡ keep (row_before r) (selected f none s)
  unfolding selected
  selected-keep r =
      ap (sort_by row_before) (
        keep-same
          (λ t. photo_where f t && behind_cursor (record { taken = taken_of r; id = pos r.id }) t)
          (λ t. photo_where f t && row_before r t) s.photos
          (λ t. ap (◌&&◌ (photo_where f t)) (behind_cursor-row_before r t))
        ∙ sym (keep-keep (photo_where f) (row_before r) s.photos))
      ∙ sym (
          keep-sort_by row_before row_before_trans row_before-asym (row_before r)
            (keep (photo_where f) s.photos) selected-Comparable)

  pub selected-rest :
      (before : List Row) (r : Row) (rest : List Row)
      → selected f none s ≡ before ++ r ∷ rest
      → selected f (some (record { taken = taken_of r; id = pos r.id })) s ≡ rest
  selected-rest before r rest e =
      selected-keep r
      ∙ ap (keep (row_before r)) e
      ∙ keep-before row_before row_before_trans row_before-asym before r rest
          (subst (InOrder row_before) e selected-InOrder)
