-- ===== src/Store/Chosen.antt =====
-- catalog/query.go, catalog/store.go: the keep and discard states of a photo exclude each other.
use fragments.Base.{
  ℕ, zero, suc, ◌+◌, ◌≤◌, String, Bool, true, false, ◌≡◌, ◌≢◌, refl, ◌⊎◌, inl, inr, none, some,
  List, [], ◌∷◌, arith, ℤ, pos, negsuc, if◌then◌else◌, keep, All, length, Option-cases, Bool-cases,
  ltb, str_eq, ◌||◌,
}
use fragments.Store.Rows.{Row, Photo, Store, lookup_row, update_rows, refresh, upsert}
use fragments.Store.Select.{
  rate, unrate, reject, undecide, discard, set_rating, set_decision, stars, PhotoFilter,
  photo_where, count_photos,
}
use fragments.Store.Discard.Removal.{delete_photos-All}
use fragments.Store.Edits.{Edit, rates, decides, catalogs, deletes, after, serve, serve_all}

-- Kept (rated), rejected or undecided, and never two of these.
pub record IsChosen (r : Row) : Type 0 where
  pub exclusive : (r.rating ≡ none) ⊎ (r.decision ≡ none)
  pub bounded : stars r ≤ 5
  pub starred : r.rating ≢ some 0
  pub worded : (r.decision ≡ none) ⊎ (r.decision ≡ some discard)

All-update_rows :
    (f : Row → Row) (k : String) (rows : List Row)
    → ((r : Row) → IsChosen r → IsChosen (f r))
    → All IsChosen rows
    → All IsChosen (update_rows k f rows)
unfolding update_rows
All-update_rows f k [] h a = tt
All-update_rows f k (r ∷ rs) h a = (ground (arith, h r a.0), All-update_rows f k rs h a.1)

rate-Chosen :
    (n : ℕ) (now : String) (r : Row) → suc n ≤ 5 → IsChosen r → IsChosen (rate (suc n) now r)
rate-Chosen n now r b h = ground arith

unrate-Chosen : (now : String) (r : Row) → IsChosen r → IsChosen (unrate now r)
unrate-Chosen now r h = ground arith

reject-Chosen : (now : String) (r : Row) → IsChosen r → IsChosen (reject now r)
reject-Chosen now r h = ground arith

undecide-Chosen : (now : String) (r : Row) → IsChosen r → IsChosen (undecide now r)
undecide-Chosen now r h = ground arith

set_rating-Chosen :
    (k : String) (n : ℤ) (now : String) (s : Store)
    → All IsChosen s.photos
    → All IsChosen (after s (set_rating k n now s)).photos
unfolding set_rating
set_rating-Chosen k (negsuc n) now s a = a
set_rating-Chosen k (pos zero) now s a =
    All-update_rows (unrate now) k s.photos (unrate-Chosen now) a
set_rating-Chosen k (pos (suc n)) now s a = elim (Bool-cases (ltb 5 (suc n))) [
  | inl e ↦ rw e a
  | inr e ↦
      rw e
        (All-update_rows (rate (suc n) now) k s.photos (λ r. rate-Chosen n now r (ground arith)) a)
]

set_decision-Chosen :
    (k d now : String) (s : Store)
    → All IsChosen s.photos
    → All IsChosen (after s (set_decision k d now s)).photos
unfolding set_decision
set_decision-Chosen k d now s a = elim (Bool-cases (str_eq d discard)) [
  | inl e ↦ rw e (All-update_rows (reject now) k s.photos (reject-Chosen now) a)
  | inr e ↦ rw e (elim (Bool-cases (str_eq d "" || str_eq d "none")) [
    | inl c ↦ rw c (All-update_rows (undecide now) k s.photos (undecide-Chosen now) a)
    | inr c ↦ rw c a
  ])
]

upsert-Chosen :
    (p : Photo) (now : String) (s : Store)
    → All IsChosen s.photos
    → All IsChosen (upsert p now s).photos
unfolding upsert
upsert-Chosen p now s a = elim (Option-cases (lookup_row p.key_base s.photos)) [
  | inl e ↦ rw (e, upsert) (ground arith, a)
  | inr (r, e) ↦
      rw (e, upsert) (All-update_rows (refresh p now) p.key_base s.photos (λ r h. ground arith) a)
]

serve-Chosen : (e : Edit) (s : Store) → All IsChosen s.photos → All IsChosen (serve e s).photos
unfolding serve
serve-Chosen (rates k n now) s a = set_rating-Chosen k n now s a
serve-Chosen (decides k d now) s a = set_decision-Chosen k d now s a
serve-Chosen (catalogs p now) s a = upsert-Chosen p now s a
serve-Chosen (deletes fault ks) s a = delete_photos-All IsChosen fault ks s a

-- If each photo is in one of three states, kept with one to five stars, rejected, or undecided,
-- every history of ratings, decisions, recatalogues and deletions leaves each photo in one of them.
pub serve_all-Chosen :
    (es : List Edit) (s : Store) → All IsChosen s.photos → All IsChosen (serve_all es s).photos
unfolding serve_all
serve_all-Chosen [] s a = a
serve_all-Chosen (e ∷ es) s a = serve_all-Chosen es (serve e s) (serve-Chosen e s a)

-- A filter with another tri-state choice.
abbrev pub in_state : String → PhotoFilter → PhotoFilter
in_state d f = record f { decision = d }

one_state :
    (f : PhotoFilter) (r : Row) (k d u n : ℕ)
    → IsChosen r
    → k + d + u ≡ n
    → (if photo_where (in_state "keep" f) r then suc k else k)
        + (if photo_where (in_state discard f) r then suc d else d)
        + (if photo_where (in_state "none" f) r then suc u else u)
      ≡ (if photo_where (in_state "" f) r then suc n else n)
unfolding photo_where
one_state f r k d u n h e = ground arith

length-if :
    (b : Bool) (r : Row) (rs : List Row)
    → length (if b then r ∷ rs else rs) ≡ (if b then suc (length rs) else length rs)
length-if true r rs = refl
length-if false r rs = refl

-- Where every photo is in one state, the three choices of the gallery's filter split what the other
-- conditions select: their counts add up to the count without a choice.
pub count_photos_split :
    (f : PhotoFilter) (s : Store)
    → All IsChosen s.photos
    → count_photos (in_state "keep" f) s
        + count_photos (in_state discard f) s
        + count_photos (in_state "none" f) s
      ≡ count_photos (in_state "" f) s
unfolding count_photos
count_photos_split f s a = go s.photos a
  where
    go :
        (rows : List Row)
        → All IsChosen rows
        → length (keep (photo_where (in_state "keep" f)) rows)
            + length (keep (photo_where (in_state discard f)) rows)
            + length (keep (photo_where (in_state "none" f)) rows)
          ≡ length (keep (photo_where (in_state "" f)) rows)
    go [] h = refl
    go (r ∷ rs) h = simp length-if (one_state f r _ _ _ _ h.0 (go rs h.1))
