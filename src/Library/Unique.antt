-- ===== src/Library/Unique.antt =====
-- catalog/recipes.go: no two recipes of the library share an id, a name or a fingerprint, and the
-- fingerprint of each is that of its own fields.
use fragments.Base.{
  ℕ, suc, ◌<◌, ◌≡◌, refl, String, Bool, true, false, not, ◌&&◌, Option, none, some, List, [], ◌∷◌,
  ◌==◌, str_eq, keep, any, find, All, All-keep, arith, Bool-cases, inl, inr,
}
use fragments.Store.Rows.{null_if_empty}
use fragments.Recipe.Fingerprint.{fingerprint}
use fragments.Library.{
  RecipeRow, Library, Draft, Outcome, same_hash, has_name, has_hash, recipe_conflict, recipe_row,
  inserted, insert_recipe, others, replaced, replace_found, replace_recipe, with_hash,
  create_recipe, update_recipe, delete_recipe,
}

abbrev pub apart : RecipeRow → RecipeRow → Bool
apart r s = not (s.id == r.id) && not (str_eq r.name s.name) && not (same_hash r.hash s.hash)

abbrev pub AllApart : List RecipeRow → Type 0
AllApart [] = Unit
AllApart (r ∷ rs) = All (λ s. apart r s ≡ true) rs × AllApart rs

keep-AllApart : (p : RecipeRow → Bool) (rs : List RecipeRow) → AllApart rs → AllApart (keep p rs)
keep-AllApart p [] h = tt
keep-AllApart p (r ∷ rs) h = elim (Bool-cases (p r)) [
  | inl e ↦ rw e (All-keep (λ s. apart r s ≡ true) p rs h.0, keep-AllApart p rs h.1)
  | inr e ↦ rw e (keep-AllApart p rs h.1)
]

-- A row with an id of its own that meets no conflict is apart from the others.
new-apart :
    (r : RecipeRow) (rs : List RecipeRow)
    → All (λ s. (s.id == r.id) ≡ false) rs
    → any (has_name r.name) rs ≡ false
    → any (has_hash r.hash) rs ≡ false
    → All (λ s. apart r s ≡ true) rs
new-apart r [] h k l = tt
new-apart r (s ∷ rs) h k l = elim (Bool-cases (has_name r.name s)) [
  | inl e ↦ absurd (cc (rw e at k))
  | inr e ↦ elim (Bool-cases (has_hash r.hash s)) [
    | inl f ↦ absurd (cc (rw f at l))
    | inr f ↦ (rw (h.0, e, f) refl, new-apart r rs h.1 (rw e at k) (rw f at l))
  ]
]

recipe_conflict-none :
    (b : Bool) (name : String) (h : Option String) (rs : List RecipeRow)
    → recipe_conflict b name h rs ≡ none
    → (any (has_name name) rs ≡ false) × (any (has_hash h) rs ≡ false)
unfolding recipe_conflict
recipe_conflict-none b name h rs e = ground (arith)

others-id : (id : ℕ) (rs : List RecipeRow) → All (λ s. (s.id == id) ≡ false) (others id rs)
others-id id [] = tt
others-id id (r ∷ rs) = elim (Bool-cases (r.id == id)) [
  | inl e ↦ rw e (others-id id rs)
  | inr e ↦ rw e (e, others-id id rs)
]

module _ (digest : List ℕ → String) where
  -- The hash of a row is the fingerprint of its fields, NULL for an incomplete recipe.
  abbrev pub IsHashed : RecipeRow → Type 0
  IsHashed r = (h : String) × (fingerprint digest r.fields ≡ some h) × (r.hash ≡ null_if_empty h)

  abbrev pub IsLibrary : Library → Type 0
  IsLibrary l = AllApart l.recipes × All (λ r. (r.id < l.next_recipe) × IsHashed r) l.recipes

  fresh_ids :
      (n : ℕ) (rs : List RecipeRow)
      → All (λ r. (r.id < n) × IsHashed r) rs
      → All (λ s. (s.id == n) ≡ false) rs
  fresh_ids n [] h = tt
  fresh_ids n (r ∷ rs) h = (ground (arith), fresh_ids n rs h.1)

  later_ids :
      (n : ℕ) (rs : List RecipeRow)
      → All (λ r. (r.id < n) × IsHashed r) rs
      → All (λ r. (r.id < suc n) × IsHashed r) rs
  later_ids n [] h = tt
  later_ids n (r ∷ rs) h = ((omega arith, h.0.1), later_ids n rs h.1)

  inserted-IsLibrary :
      (b : Bool) (now : String) (d : Draft) (l : Library) (h : String) (o : Option Outcome)
      → recipe_conflict b d.name (null_if_empty h) l.recipes ≡ o
      → fingerprint digest d.fields ≡ some h
      → IsLibrary l
      → IsLibrary (inserted now d l (null_if_empty h) o).0
  unfolding inserted recipe_row
  inserted-IsLibrary b now d l h (some f) c e k = k
  inserted-IsLibrary b now d l h none c e k =
      let free = recipe_conflict-none b d.name (null_if_empty h) l.recipes c in
      (
        (
          new-apart (recipe_row l.next_recipe now (null_if_empty h) d) l.recipes
              (fresh_ids l.next_recipe l.recipes k.1) free.0 free.1,
          k.0,
        ),
        ((omega arith, (h, e, refl)), later_ids l.next_recipe l.recipes k.1),
      )

  found_row :
      (n id : ℕ) (rs : List RecipeRow) (r : RecipeRow)
      → find (λ s. s.id == id) rs ≡ some r
      → All (λ s. (s.id < n) × IsHashed s) rs
      → id < n
  found_row n id [] r e h = absurd (cc (e))
  found_row n id (s ∷ rs) r e h = elim (Bool-cases (s.id == id)) [
    | inl f ↦ ground (arith)
    | inr f ↦ found_row n id rs r (rw f at e) h.1
  ]

  replaced-IsLibrary :
      (b : Bool) (id : ℕ) (created : String) (d : Draft) (l : Library) (h : String)
      (o : Option Outcome)
      → recipe_conflict b d.name (null_if_empty h) (others id l.recipes) ≡ o
      → id < l.next_recipe
      → fingerprint digest d.fields ≡ some h
      → IsLibrary l
      → IsLibrary (replaced id created d l (null_if_empty h) o).0
  unfolding replaced recipe_row
  replaced-IsLibrary b id created d l h (some f) c n e k = k
  replaced-IsLibrary b id created d l h none c n e k =
      let free = recipe_conflict-none b d.name (null_if_empty h) (others id l.recipes) c in
      (
        (
          new-apart (recipe_row id created (null_if_empty h) d) (others id l.recipes)
              (others-id id l.recipes) free.0 free.1,
          keep-AllApart (λ r. not (r.id == id)) l.recipes k.0,
        ),
        (
          (n, (h, e, refl)),
          All-keep (λ r. (r.id < l.next_recipe) × IsHashed r) (λ r. not (r.id == id)) l.recipes k.1,
        ),
      )

  replace_found-IsLibrary :
      (b : Bool) (id : ℕ) (d : Draft) (l : Library) (h : String) (o : Option RecipeRow)
      → find (λ r. r.id == id) l.recipes ≡ o
      → fingerprint digest d.fields ≡ some h
      → IsLibrary l
      → IsLibrary (replace_found b id d l (null_if_empty h) o).0
  unfolding replace_found
  replace_found-IsLibrary b id d l h none f e k = k
  replace_found-IsLibrary b id d l h (some r) f e k =
      replaced-IsLibrary b id r.created_at d l h
        (recipe_conflict b d.name (null_if_empty h) (others id l.recipes)) refl
        (found_row l.next_recipe id l.recipes r f k.1) e k

  with_hash-IsLibrary :
      (write : Option String → Library × Outcome) (l : Library) (d : Draft) (o : Option String)
      → fingerprint digest d.fields ≡ o
      → ((h : String)
          → fingerprint digest d.fields ≡ some h
          → IsLibrary (write (null_if_empty h)).0)
      → IsLibrary l
      → IsLibrary (with_hash digest write l o).0
  with_hash-IsLibrary write l d none e f k = k
  with_hash-IsLibrary write l d (some h) e f k = f h e

-- A write of the library, with which constraint the driver reports and the time.
pub data Write : Type 0 where
  create : Bool → String → Draft → Write
  update : Bool → ℕ → Draft → Write
  delete : ℕ → Write

module _ (digest : List ℕ → String) where
  abbrev pub apply_write : Write → Library → Library
  apply_write (create b now d) l = (create_recipe digest b now d l).0
  apply_write (update b id d) l = (update_recipe digest b id d l).0
  apply_write (delete id) l = (delete_recipe id l).0

  abbrev pub write_all : List Write → Library → Library
  write_all [] l = l
  write_all (w ∷ ws) l = write_all ws (apply_write w l)

  apply_write-IsLibrary :
      (w : Write) (l : Library) → IsLibrary digest l → IsLibrary digest (apply_write w l)
  unfolding create_recipe update_recipe delete_recipe insert_recipe replace_recipe
  apply_write-IsLibrary (create b now d) l k =
      with_hash-IsLibrary digest (insert_recipe b now d l) l d (fingerprint digest d.fields) refl
        (λ h e.
          inserted-IsLibrary digest b now d l h
            (recipe_conflict b d.name (null_if_empty h) l.recipes) refl e k)
        k
  apply_write-IsLibrary (update b id d) l k =
      with_hash-IsLibrary digest (replace_recipe b id d l) l d (fingerprint digest d.fields) refl
        (λ h e.
          replace_found-IsLibrary digest b id d l h (find (λ r. r.id == id) l.recipes) refl e k)
        k
  apply_write-IsLibrary (delete id) l k = (
    keep-AllApart (λ r. not (r.id == id)) l.recipes k.0,
    All-keep (λ r. (r.id < l.next_recipe) × IsHashed digest r) (λ r. not (r.id == id)) l.recipes
        k.1,
  )

  -- Whatever writes the library takes, if it is so at first: no two recipes share an id, a name or a
  -- fingerprint, every id is below the next one, and the hash of each recipe is the fingerprint of its
  -- own fields, NULL where that is "".
  pub write_all-IsLibrary :
      (ws : List Write) (l : Library) → IsLibrary digest l → IsLibrary digest (write_all ws l)
  write_all-IsLibrary [] l k = k
  write_all-IsLibrary (w ∷ ws) l k =
      write_all-IsLibrary ws (apply_write w l) (apply_write-IsLibrary w l k)
