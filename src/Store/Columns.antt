-- ===== src/Store/Columns.antt =====
-- catalog/store.go: what Upsert writes, and what it leaves to the user.
use fragments.Base.{
  String, false, ◌≡◌, refl, Option, none, some, List, [], ◌∷◌, arith, inl, inr, str_eq, str_eq_iff,
  str_eq_refl, if◌then◌else◌, Option-cases,
}
use fragments.Store.Rows.{
  Row, Photo, Store, lookup_row, update_rows, refresh, listed_columns, upsert, existing_etags,
}

abbrev apply_option : (Row → Row) → Option Row → Option Row
apply_option f none = none
apply_option f (some r) = some (f r)

lookup_row-update_rows :
    (j k : String) (f : Row → Row) (rows : List Row)
    → ((r : Row) → (f r).key_base ≡ r.key_base)
    → lookup_row k (update_rows j f rows)
      ≡ (if str_eq j k then apply_option f (lookup_row k rows) else lookup_row k rows)
unfolding lookup_row update_rows
lookup_row-update_rows j k f [] h = ground arith
lookup_row-update_rows j k f (r ∷ rs) h = ground (
  arith,
  h r,
  str_eq_iff r.key_base j,
  str_eq_iff r.key_base k,
  str_eq_iff j k,
  lookup_row-update_rows j k f rs h,
)

-- The row that a recatalogue leaves: of an old row the id, the decision, the rating and the first
-- date stay, and all else is the photo's; a new row is undecided.
abbrev pub cataloged : Photo → String → Store → Option Row → Row
cataloged p now s none = record {
  id = s.next_photo;
  key_base = p.key_base;
  listed = listed_columns p;
  decision = none;
  rating = none;
  cataloged_at = now;
  updated_at = now;
}
cataloged p now s (some r) = record {
  id = r.id;
  key_base = r.key_base;
  listed = listed_columns p;
  decision = r.decision;
  rating = r.rating;
  cataloged_at = r.cataloged_at;
  updated_at = now;
}

-- Upsert replaces the listed columns of its key's row, or adds a row, and changes no other key.
pub lookup_row-upsert :
    (p : Photo) (now k : String) (s : Store)
    → lookup_row k (upsert p now s).photos ≡ (
        if str_eq p.key_base k
        then some (cataloged p now s (lookup_row p.key_base s.photos))
        else lookup_row k s.photos)
unfolding upsert
lookup_row-upsert p now k s = elim (Option-cases (lookup_row p.key_base s.photos)) [
  | inl e ↦ rw (e, upsert) (unfold lookup_row in refl)
  | inr (r, e) ↦
      rw (e, upsert)
        (ground (
          arith,
          lookup_row-update_rows p.key_base k (refresh p now) s.photos (λ r. refl),
          str_eq_iff p.key_base k,
        ))
]

-- The ETags on record after an upsert are those of the photo, "" standing for no sibling.
pub existing_etags-upsert :
    (p : Photo) (now : String) (s : Store)
    → existing_etags p.key_base (upsert p now s)
      ≡ some (p.jpeg.etag, elim p.raf [ none ↦ "" | some r ↦ r.etag ])
unfolding existing_etags listed_columns
existing_etags-upsert p now s =
    ground (arith, lookup_row-upsert p now p.key_base s, str_eq_refl p.key_base)

-- An upsert does not change what is on record of another key.
pub existing_etags-upsert_ne :
    (p : Photo) (now k : String) (s : Store)
    → str_eq p.key_base k ≡ false
    → existing_etags k (upsert p now s) ≡ existing_etags k s
unfolding existing_etags
existing_etags-upsert_ne p now k s h = ground (arith, lookup_row-upsert p now k s)
