-- ===== src/Store/Rows.antt =====
-- catalog/types.go, and the tables and Upsert of catalog/store.go.
use fragments.Base.{
  ℕ, zero, suc, String, Bool, Option, none, some, List, [], ◌∷◌, ℤ, pos, Float, is_zero, str_eq,
  if◌then◌else◌, keep,
}

pub record ObjectRef : Type 0 where
  pub key : String
  pub size : ℕ
  pub etag : String

-- `taken_at` is the wall clock of the shot as SQLite stores it, `none` for the zero time.
pub record Metadata : Type 0 where
  pub taken_at : Option String
  pub camera_make : String
  pub camera_model : String
  pub lens_model : String
  pub iso : ℤ
  pub f_number : Float
  pub exposure_time : String
  pub exposure_sec : Float
  pub focal_length : Float
  pub focal_length35 : ℤ
  pub width : ℤ
  pub height : ℤ
  pub orientation : ℤ
  pub gps_lat : Option Float
  pub gps_lon : Option Float
  pub film_simulation : String
  pub raw_json : String
  pub recipe_hash : String

pub record Photo : Type 0 where
  pub key_base : String
  pub folder : String
  pub name : String
  pub jpeg : ObjectRef
  pub raf : Option ObjectRef
  pub thumb_path : String
  pub meta : Metadata

-- The EXIF columns of the table `photos`.
pub record ExifColumns : Type 0 where
  pub taken_at : Option String
  pub camera_make : Option String
  pub camera_model : Option String
  pub lens_model : Option String
  pub iso : Option ℤ
  pub f_number : Option Float
  pub exposure_time : Option String
  pub exposure_sec : Option Float
  pub focal_length : Option Float
  pub focal_length_35 : Option ℤ
  pub width : Option ℤ
  pub height : Option ℤ
  pub orientation : Option ℤ
  pub gps_lat : Option Float
  pub gps_lon : Option Float
  pub film_simulation : Option String
  pub exif_json : Option String
  pub recipe_hash : Option String
  pub recipe_version : Option ℕ

-- The columns that a recatalogue replaces.
pub record Listed : Type 0 where
  pub folder : String
  pub name : String
  pub jpeg : ObjectRef
  pub raf_key : Option String
  pub raf_size : Option ℕ
  pub raf_etag : Option String
  pub thumb_path : Option String
  pub exif : ExifColumns

-- A row of `photos`; `decision` holds NULL or 'discard'.
pub record Row : Type 0 where
  pub id : ℕ
  pub key_base : String
  pub listed : Listed
  pub open listed use *
  pub decision : Option String
  pub rating : Option ℕ
  pub cataloged_at : String
  pub updated_at : String

pub record Album : Type 0 where
  pub id : ℕ
  pub name : String
  pub created_at : String

pub record Member : Type 0 where
  pub album_id : ℕ
  pub photo_id : ℕ
  pub position : ℕ

-- The next ids are those of AUTOINCREMENT: they only grow.
pub record Store : Type 0 where
  pub photos : List Row
  pub next_photo : ℕ
  pub albums : List Album
  pub next_album : ℕ
  pub album_photos : List Member

unfoldable pub null_if_empty : String → Option String
null_if_empty s = if str_eq s "" then none else some s

unfoldable pub zero_to_null : ℤ → Option ℤ
zero_to_null (pos zero) = none
zero_to_null i = some i

unfoldable pub zero_to_null_f : Float → Option Float
zero_to_null_f f = if is_zero f then none else some f

abbrev pub recipe_version : ℕ
recipe_version = 1

unfoldable pub recipe_version_or_null : String → Option ℕ
recipe_version_or_null hash = if str_eq hash "" then none else some recipe_version

-- The bound values of the statement.
unfoldable pub exif_columns : Metadata → ExifColumns
unfolding null_if_empty zero_to_null zero_to_null_f recipe_version_or_null
exif_columns m = record {
  taken_at = m.taken_at;
  camera_make = null_if_empty m.camera_make;
  camera_model = null_if_empty m.camera_model;
  lens_model = null_if_empty m.lens_model;
  iso = zero_to_null m.iso;
  f_number = zero_to_null_f m.f_number;
  exposure_time = null_if_empty m.exposure_time;
  exposure_sec = zero_to_null_f m.exposure_sec;
  focal_length = zero_to_null_f m.focal_length;
  focal_length_35 = zero_to_null m.focal_length35;
  width = zero_to_null m.width;
  height = zero_to_null m.height;
  orientation = zero_to_null m.orientation;
  gps_lat = m.gps_lat;
  gps_lon = m.gps_lon;
  film_simulation = null_if_empty m.film_simulation;
  exif_json = null_if_empty m.raw_json;
  recipe_hash = null_if_empty m.recipe_hash;
  recipe_version = recipe_version_or_null m.recipe_hash;
}

abbrev pub raf_key_of : Option ObjectRef → Option String
raf_key_of none = none
raf_key_of (some r) = some r.key

abbrev pub raf_size_of : Option ObjectRef → Option ℕ
raf_size_of none = none
raf_size_of (some r) = some r.size

abbrev pub raf_etag_of : Option ObjectRef → Option String
raf_etag_of none = none
raf_etag_of (some r) = some r.etag

unfoldable pub listed_columns : Photo → Listed
unfolding exif_columns null_if_empty
listed_columns p = record {
  folder = p.folder;
  name = p.name;
  jpeg = p.jpeg;
  raf_key = raf_key_of p.raf;
  raf_size = raf_size_of p.raf;
  raf_etag = raf_etag_of p.raf;
  thumb_path = null_if_empty p.thumb_path;
  exif = exif_columns p.meta;
}

abbrev pub has_key : String → Row → Bool
has_key k r = str_eq r.key_base k

-- The first row of a key; `key_base` is UNIQUE.
unfoldable pub lookup_row : String → List Row → Option Row
lookup_row k [] = none
lookup_row k (r ∷ rs) = if has_key k r then some r else lookup_row k rs

-- UPDATE photos SET … WHERE key_base = k.
unfoldable pub update_rows : String → (Row → Row) → List Row → List Row
update_rows k f [] = []
update_rows k f (r ∷ rs) = (if has_key k r then f r else r) ∷ update_rows k f rs

-- ON CONFLICT(key_base) DO UPDATE: id, decision, rating and cataloged_at are not in the SET list.
abbrev pub refresh : Photo → String → Row → Row
refresh p now r = record r { listed = listed_columns p; updated_at = now }

abbrev pub new_row : Photo → String → ℕ → Row
new_row p now id = record {
  id = id;
  key_base = p.key_base;
  listed = listed_columns p;
  decision = none;
  rating = none;
  cataloged_at = now;
  updated_at = now;
}

unfoldable pub upsert : Photo → String → Store → Store
unfolding lookup_row update_rows
upsert p now s = elim (lookup_row p.key_base s.photos) [
  | some _ ↦ record s { photos = update_rows p.key_base (refresh p now) s.photos }
  | none ↦ record s {
    photos = new_row p now s.next_photo ∷ s.photos;
    next_photo = suc s.next_photo;
  }
]

-- The ETags on record: the JPEG's, and the sibling's or "".
unfoldable pub existing_etags : String → Store → Option (String × String)
unfolding lookup_row
existing_etags k s = elim (lookup_row k s.photos) [
  | none ↦ none
  | some r ↦ some (r.jpeg.etag, elim r.raf_etag [ none ↦ "" | some e ↦ e ])
]

-- The rows that carry a key; `key_base` is UNIQUE, so there is one at most.
abbrev pub rows_of : String → List Row → List Row
rows_of k = keep (has_key k)
