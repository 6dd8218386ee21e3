-- ===== src/Store/Discard/Removal.antt =====
-- What DeletePhotos of catalog/query.go removes, and what StillDiscarded finds.
use fragments.Base.{
  ℕ, suc, String, Bool, true, false, not, ◌≡◌, refl, ◌∙◌, ap, Option, none, List, [], ◌∷◌, ◌++◌,
  arith, ◌⊎◌, inl, inr, str_eq_iff, if◌then◌else◌, keep, any, All, All-keep, in_list,
  in_list-append, concat, chunks, concat-chunks, Option-cases, Bool-cases,
}
use fragments.Store.Rows.{Row, Store, rows_of}
use fragments.Store.Select.{is_discarded}
use fragments.Store.Discard.{
  chunk_size, delete_batch, delete_loop, delete_photos, select_still, still_loop, still_discarded,
}

abbrev pub no_fault : ℕ → Option String
no_fault i = none

rows-keep :
    (k : String) (batch : List String) (rows : List Row)
    → rows_of k (keep (λ r. not (in_list r.key_base batch)) rows)
      ≡ (if in_list k batch then [] else rows_of k rows)
rows-keep k batch [] = ground arith
rows-keep k batch (r ∷ rs) = ground (arith, str_eq_iff r.key_base k, rows-keep k batch rs)

delete_batch-rows :
    (k : String) (batch : List String) (s : Store)
    → rows_of k (delete_batch batch s).photos ≡ (if in_list k batch then [] else rows_of k s.photos)
unfolding delete_batch
delete_batch-rows k batch s = rows-keep k batch s.photos

delete_loop-spares :
    (k : String) (fault : ℕ → Option String) (i : ℕ) (bs : List (List String)) (s : Store)
    → in_list k (concat bs) ≡ false
    → rows_of k (delete_loop fault i bs s).0.photos ≡ rows_of k s.photos
unfolding delete_loop
delete_loop-spares k fault i [] s h = refl
delete_loop-spares k fault i (b ∷ bs) s h = ground (
  arith,
  in_list-append k b (concat bs),
  delete_batch-rows k b s,
  delete_loop-spares k fault (suc i) bs (delete_batch b s),
)

delete_loop-removes :
    (k : String) (fault : ℕ → Option String) (i : ℕ) (bs : List (List String)) (s : Store)
    → (delete_loop fault i bs s).1 ≡ none
    → rows_of k (delete_loop fault i bs s).0.photos
      ≡ (if in_list k (concat bs) then [] else rows_of k s.photos)
unfolding delete_loop
delete_loop-removes k fault i [] s h = refl
delete_loop-removes k fault i (b ∷ bs) s h = elim (Option-cases (fault i)) [
  | inl e ↦
      rw (e, delete_loop)
        (delete_loop-removes k fault (suc i) bs (delete_batch b s) (rw (e, delete_loop) at h)
          ∙ step (Bool-cases (in_list k b)))
  | inr (m, e) ↦ absurd (cc (rw (e, delete_loop) at h))
]
  where
    step :
        (in_list k b ≡ true) ⊎ (in_list k b ≡ false)
        → (if in_list k (concat bs) then [] else rows_of k (delete_batch b s).photos)
          ≡ (if in_list k (b ++ concat bs) then [] else rows_of k s.photos)
    step (inl h) = rw (in_list-append k b (concat bs), delete_batch-rows k b s, h) (ground arith)
    step (inr h) = rw (in_list-append k b (concat bs), delete_batch-rows k b s, h) refl

-- A key outside the list keeps its rows, whichever statements fail.
pub delete_photos-spares :
    (k : String) (fault : ℕ → Option String) (ks : List String) (s : Store)
    → in_list k ks ≡ false
    → rows_of k (delete_photos fault ks s).0.photos ≡ rows_of k s.photos
unfolding delete_photos
delete_photos-spares k fault ks s h =
    delete_loop-spares k fault 0 (chunks chunk_size ks) s
      (ap (in_list k) (concat-chunks chunk_size ks (omega arith)) ∙ h)

-- If no statement fails, exactly the rows of the listed keys are gone.
pub delete_photos-removes :
    (k : String) (fault : ℕ → Option String) (ks : List String) (s : Store)
    → (delete_photos fault ks s).1 ≡ none
    → rows_of k (delete_photos fault ks s).0.photos
      ≡ (if in_list k ks then [] else rows_of k s.photos)
unfolding delete_photos
delete_photos-removes k fault ks s h =
    delete_loop-removes k fault 0 (chunks chunk_size ks) s h
    ∙ ap (λ (l : List String). if in_list k l then [] else rows_of k s.photos)
        (concat-chunks chunk_size ks (omega arith))

-- A row of the key is still rejected.
abbrev pub rejected : String → Store → Bool
rejected k s = any is_discarded (rows_of k s.photos)

in_list-select_still :
    (k : String) (batch : List String) (rows : List Row)
    → in_list k (select_still batch rows)
      ≡ (if in_list k batch then any is_discarded (rows_of k rows) else false)
in_list-select_still k batch [] = ground arith
in_list-select_still k batch (r ∷ rs) =
    ground
      (arith, str_eq_iff r.key_base k, str_eq_iff k r.key_base, in_list-select_still k batch rs)

still_loop-in_list :
    (k : String) (fault : ℕ → Option String) (i : ℕ) (bs : List (List String)) (found : List String)
    (s : Store) (still : List String)
    → still_loop fault i bs found s ≡ inl still
    → in_list k still
      ≡ (if in_list k found then true else (if in_list k (concat bs) then rejected k s else false))
unfolding still_loop
still_loop-in_list k fault i [] found s still h = ground arith
still_loop-in_list k fault i (b ∷ bs) found s still h = elim (Option-cases (fault i)) [
  | inl e ↦
      still_loop-in_list k fault (suc i) bs (found ++ select_still b s.photos) s still
        (rw (e, still_loop) at h)
      ∙ ground (
        arith,
        in_list-append k found (select_still b s.photos),
        in_list-append k b (concat bs),
        in_list-select_still k b s.photos,
      )
  | inr (m, e) ↦ absurd (cc (rw (e, still_loop) at h))
]

-- When the re-check answers, it answers exactly the listed keys that are still rejected.
pub still_discarded-in_list :
    (k : String) (fault : ℕ → Option String) (ks : List String) (s : Store) (still : List String)
    → still_discarded fault ks s ≡ inl still
    → in_list k still ≡ (if in_list k ks then rejected k s else false)
unfolding still_discarded
still_discarded-in_list k fault ks s still h =
    still_loop-in_list k fault 0 (chunks chunk_size ks) [] s still h
    ∙ ap (λ (l : List String). if in_list k l then rejected k s else false)
        (concat-chunks chunk_size ks (omega arith))

delete_loop_total :
    (fault : ℕ → Option String) (i : ℕ) (bs : List (List String)) (s : Store)
    → ((j : ℕ) → fault j ≡ none)
    → (delete_loop fault i bs s).1 ≡ none
unfolding delete_loop
delete_loop_total fault i [] s h = refl
delete_loop_total fault i (b ∷ bs) s h =
    rw (h i, delete_loop) (delete_loop_total fault (suc i) bs (delete_batch b s) h)

-- Without a driver fault DeletePhotos reports no error.
pub delete_photos_total :
    (fault : ℕ → Option String) (ks : List String) (s : Store)
    → ((j : ℕ) → fault j ≡ none)
    → (delete_photos fault ks s).1 ≡ none
unfolding delete_photos
delete_photos_total fault ks s h = delete_loop_total fault 0 (chunks chunk_size ks) s h

still_loop_total :
    (fault : ℕ → Option String) (i : ℕ) (bs : List (List String)) (found : List String) (s : Store)
    → ((j : ℕ) → fault j ≡ none)
    → (still : List String) × (still_loop fault i bs found s ≡ inl still)
unfolding still_loop
still_loop_total fault i [] found s h = (found, refl)
still_loop_total fault i (b ∷ bs) found s h =
    rw (h i, still_loop) (still_loop_total fault (suc i) bs (found ++ select_still b s.photos) s h)

-- Without a driver fault StillDiscarded answers.
pub still_discarded_total :
    (fault : ℕ → Option String) (ks : List String) (s : Store)
    → ((j : ℕ) → fault j ≡ none)
    → (still : List String) × (still_discarded fault ks s ≡ inl still)
unfolding still_discarded
still_discarded_total fault ks s h = still_loop_total fault 0 (chunks chunk_size ks) [] s h

delete_loop-All {ℓ} :
    (P : Row → Type ℓ) (fault : ℕ → Option String) (i : ℕ) (bs : List (List String)) (s : Store)
    → All P s.photos
    → All P (delete_loop fault i bs s).0.photos
unfolding delete_loop delete_batch
delete_loop-All P fault i [] s a = a
delete_loop-All P fault i (b ∷ bs) s a = elim (Option-cases (fault i)) [
  | inl e ↦
      rw (e, delete_loop)
        (delete_loop-All P fault (suc i) bs (delete_batch b s) (All-keep P _ s.photos a))
  | inr (m, e) ↦ rw (e, delete_loop) a
]

-- A deletion only drops rows.
pub delete_photos-All {ℓ} :
    (P : Row → Type ℓ) (fault : ℕ → Option String) (ks : List String) (s : Store)
    → All P s.photos
    → All P (delete_photos fault ks s).0.photos
unfolding delete_photos
delete_photos-All P fault ks s a = delete_loop-All P fault 0 (chunks chunk_size ks) s a
