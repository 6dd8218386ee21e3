-- ===== src/Pages/Page.antt =====
-- catalog/query.go: ListPhotos. A page is what is behind the cursor in the gallery's order, and the
-- statements are filters and sorts of the table.
use fragments.Base.{
  bytes_eq, ℕ, zero, suc, String, str_append, Bool, true, false, ◌&&◌, ◌||◌, Option, none, some,
  List, [], ◌∷◌, ◌⊎◌, inl, inr, ℤ, pos, negsuc, ltb_ℤ, leb_ℤ, Float, whole, codes, text_lt, take,
  keep, sort_by, ltb, if◌then◌else◌, get_or, is_some,
}
use fragments.Store.Rows.{Row, Store}
use fragments.Store.Select.{PhotoFilter, photo_where, count_photos, stars}
use fragments.Pages.Cursor.{Cursor, encode_cursor, decode_cursor}

-- `taken_at`, `width` and `height` are derived; the rest is columns with their zero for NULL.
pub record PhotoListItem (T : Type 0) : Type 0 where
  pub key_base : String
  pub name : String
  pub folder : String
  pub taken_at : Option T
  pub width : ℤ
  pub height : ℤ
  pub camera_model : String
  pub lens_model : String
  pub iso : ℤ
  pub f_number : Float
  pub exposure_time : String
  pub focal_length : Float
  pub film_simulation : String
  pub rating : ℕ
  pub decision : String
  pub jpeg_size : ℕ
  pub raf_size : ℕ
  pub has_raf : Bool
  pub thumb_url : String

pub record PhotoPage (T : Type 0) : Type 0 where
  pub items : List (PhotoListItem T)
  pub next_cursor : List ℕ
  pub total : ℕ

abbrev pub taken_at_layout : String
taken_at_layout = "2006-01-02 15:04:05"

abbrev pub rfc3339 : String
rfc3339 = "2006-01-02T15:04:05Z07:00"

abbrev pub default_page_limit : ℕ
default_page_limit = 60

abbrev pub max_page_limit : ℕ
max_page_limit = 200

unfoldable pub page_limit : ℤ → ℕ
page_limit (negsuc _) = default_page_limit
page_limit (pos zero) = default_page_limit
page_limit (pos (suc n)) = if ltb max_page_limit (suc n) then max_page_limit else suc n

-- `parse` is time.Parse of a layout.
module _ {T : Type 0} (parse : String → String → Option T) where
  abbrev pub parse_taken_at : String → Option T
  parse_taken_at s = elim (parse taken_at_layout s) [ some t ↦ some t | none ↦ parse rfc3339 s ]

  abbrev pub derived_time : Option String → Option T
  derived_time none = none
  derived_time (some s) = parse_taken_at s

  -- Orientations 5 to 8 turn the sides.
  unfoldable pub apply_derived : Option String → ℤ → PhotoListItem T → PhotoListItem T
  apply_derived taken orientation it =
      let turned = leb_ℤ (pos 5) orientation && leb_ℤ orientation (pos 8) in
      record it {
        taken_at = derived_time taken;
        width = if turned then it.height else it.width;
        height = if turned then it.width else it.height;
        thumb_url = str_append "/thumbs/" (str_append it.key_base ".jpg");
      }

  unfoldable pub scan_list_item : Row → PhotoListItem T
  unfolding apply_derived
  scan_list_item r = apply_derived r.exif.taken_at (get_or r.exif.orientation (pos 0)) (record {
    key_base = r.key_base;
    name = r.name;
    folder = r.folder;
    taken_at = none;
    width = get_or r.exif.width (pos 0);
    height = get_or r.exif.height (pos 0);
    camera_model = get_or r.exif.camera_model "";
    lens_model = get_or r.exif.lens_model "";
    iso = get_or r.exif.iso (pos 0);
    f_number = get_or r.exif.f_number (whole 0);
    exposure_time = get_or r.exif.exposure_time "";
    focal_length = get_or r.exif.focal_length (whole 0);
    film_simulation = get_or r.exif.film_simulation "";
    rating = stars r;
    decision = get_or r.decision "";
    jpeg_size = r.jpeg.size;
    raf_size = get_or r.raf_size 0;
    has_raf = is_some r.raf_key;
    thumb_url = "";
  })

-- The raw text of the column, as bytes.
abbrev pub taken_of : Row → Option (List ℕ)
taken_of r = elim r.exif.taken_at [ none ↦ none | some t ↦ some (codes t) ]

-- `<` on TEXT compares bytes.
abbrev pub key_before : Option (List ℕ) → ℕ → Option (List ℕ) → ℕ → Bool
key_before (some a) i (some b) j = text_lt b a || (bytes_eq b a && ltb j i)
key_before (some a) i none j = true
key_before none i (some b) j = false
key_before none i none j = ltb j i

-- ORDER BY taken_at IS NULL ASC, taken_at DESC, id DESC
abbrev pub row_before : Row → Row → Bool
row_before r s = key_before (taken_of r) r.id (taken_of s) s.id

-- The condition that a cursor adds to the WHERE clause.
unfoldable pub behind_cursor : Cursor → Row → Bool
behind_cursor cur r = elim cur.taken [
  | none ↦ elim r.exif.taken_at [ none ↦ ltb_ℤ (pos r.id) cur.id | some _ ↦ false ]
  | some ct ↦ elim r.exif.taken_at [
    | none ↦ true
    | some t ↦ text_lt (codes t) ct || (bytes_eq (codes t) ct && ltb_ℤ (pos r.id) cur.id)
  ]
]

-- The statement without its LIMIT; no cursor adds no condition.
unfoldable pub selected : PhotoFilter → Option Cursor → Store → List Row
unfolding behind_cursor
selected f none s = sort_by row_before (keep (photo_where f) s.photos)
selected f (some cur) s =
    sort_by row_before (keep (λ r. photo_where f r && behind_cursor cur r) s.photos)

abbrev pub read_cursor : Option Cursor → Option Cursor ⊎ String
read_cursor none = inr "invalid cursor"
read_cursor (some cur) = inl (some cur)

-- An empty cursor starts from the top.
unfoldable pub cursor_of : List ℕ → Option Cursor ⊎ String
cursor_of [] = inl none
cursor_of (c ∷ cs) = read_cursor (decode_cursor (c ∷ cs))

module _ {T : Type 0} (parse : String → String → Option T) where
  -- The loop over the rows; `taken` and `id` are those of the last one kept. The cursor is set at a
  -- row beyond the limit.
  unfoldable pub page_rows : ℕ → Option (List ℕ) → ℕ → List Row → List (PhotoListItem T) × List ℕ
  page_rows n taken id [] = ([], [])
  page_rows zero taken id (r ∷ rs) = ([], encode_cursor taken id)
  page_rows (suc n) taken id (r ∷ rs) =
      let rest = page_rows n (taken_of r) r.id rs in (scan_list_item parse r ∷ rest.0, rest.1)

  unfoldable pub query_page :
      Option String → PhotoFilter → Option Cursor → ℕ → ℕ → Store → PhotoPage T ⊎ String
  unfolding page_rows
  query_page (some e) f cur limit total s = inr (str_append "list photos: " e)
  query_page none f cur limit total s =
      let page = page_rows limit none 0 (take (suc limit) (selected f cur s)) in
      inl (record { items = page.0; next_cursor = page.1; total = total })

  unfoldable pub page_behind :
      Option String → PhotoFilter → Option Cursor ⊎ String → ℕ → ℕ → Store → PhotoPage T ⊎ String
  unfolding query_page
  page_behind fault f (inr e) limit total s = inr e
  page_behind fault f (inl cur) limit total s = query_page fault f cur limit total s

  -- `fault` is the driver's error at the count, and at the page's statement.
  unfoldable pub list_photos :
      (ℕ → Option String) → PhotoFilter → List ℕ → ℤ → Store → PhotoPage T ⊎ String
  unfolding page_behind
  list_photos fault f cursor limit s = elim (fault 0) [
    | some e ↦ inr (str_append "count photos: " e)
    | none ↦ page_behind (fault 1) f (cursor_of cursor) (page_limit limit) (count_photos f s) s
  ]
