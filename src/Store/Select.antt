-- ===== src/Store/Select.antt =====
-- catalog/query.go: the user's selection, SetRating and SetDecision, and the filter of the gallery.
use fragments.Base.{
  ℕ, zero, suc, String, Bool, true, false, ◌&&◌, ◌||◌, Option, none, some, List, ℤ, pos, negsuc,
  str_eq, ltb, leb, ◌==◌, if◌then◌else◌, keep, length, any, is_none,
}
use fragments.Store.Rows.{Row, Store, has_key, update_rows}

pub data StoreError : Type 0 where
  invalid_rating invalid_decision photo_not_found : StoreError

-- A statement's outcome: the tables, and whether a row matched.
pub data Answer : Type 0 where
  done : Store → Bool → Answer
  refused : StoreError → Answer

abbrev pub discard : String
discard = "discard"

abbrev pub exists_key : String → List Row → Bool
exists_key k rows = any (has_key k) rows

abbrev pub rate : ℕ → String → Row → Row
rate n now r = record r { decision = none; rating = some n; updated_at = now }

abbrev pub unrate : String → Row → Row
unrate now r = record r { rating = none; updated_at = now }

abbrev pub reject : String → Row → Row
reject now r = record r { decision = some discard; rating = none; updated_at = now }

abbrev pub undecide : String → Row → Row
undecide now r = record r { decision = none; updated_at = now }

-- One UPDATE of the rows of a key; RowsAffected tells whether there was one.
abbrev change : String → (Row → Row) → Store → Answer
change k f s = done (record s { photos = update_rows k f s.photos }) (exists_key k s.photos)

unfoldable pub set_rating : String → ℤ → String → Store → Answer
unfolding update_rows
set_rating k (negsuc _) now s = refused invalid_rating
set_rating k (pos zero) now s = change k (unrate now) s
set_rating k (pos (suc n)) now s =
    if ltb 5 (suc n) then refused invalid_rating else change k (rate (suc n) now) s

unfoldable pub set_decision : String → String → String → Store → Answer
unfolding update_rows
set_decision k decision now s =
    if str_eq decision discard
    then change k (reject now) s
    else (if str_eq decision "" || str_eq decision "none"
        then change k (undecide now) s
        else refused invalid_decision)

abbrev pub is_discarded : Row → Bool
is_discarded r = elim r.decision [ none ↦ false | some d ↦ str_eq d discard ]

-- COALESCE(rating, 0)
abbrev pub stars : Row → ℕ
stars r = elim r.rating [ none ↦ 0 | some n ↦ n ]

-- Zero values are no condition.
pub record PhotoFilter : Type 0 where
  pub folder : String
  pub film_simulation : String
  pub camera_model : String
  pub recipe : String
  pub min_rating : ℕ
  pub decision : String

-- `column = ?`, which a NULL column never meets.
abbrev col_eq : Option String → String → Bool
col_eq none v = false
col_eq (some w) v = str_eq w v

abbrev when_set : String → Bool → Bool
when_set v test = if str_eq v "" then true else test

abbrev decision_test : String → Row → Bool
decision_test d r =
    if str_eq d "keep"
    then ltb 0 (stars r)
    else (if str_eq d "discard"
        then is_discarded r
        else (if str_eq d "none" then (stars r == 0) && is_none r.decision else true))

-- The conjunction that photoWhere builds.
unfoldable pub photo_where : PhotoFilter → Row → Bool
photo_where f r =
    when_set f.folder (str_eq r.folder f.folder)
    && when_set f.film_simulation (col_eq r.exif.film_simulation f.film_simulation)
    && when_set f.camera_model (col_eq r.exif.camera_model f.camera_model)
    && when_set f.recipe (col_eq r.exif.recipe_hash f.recipe)
    && (if ltb 0 f.min_rating then leb f.min_rating (stars r) else true)
    && decision_test f.decision r

unfoldable pub count_photos : PhotoFilter → Store → ℕ
unfolding photo_where
count_photos f s = length (keep (photo_where f) s.photos)
