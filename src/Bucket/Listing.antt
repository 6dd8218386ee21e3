-- ===== src/Bucket/Listing.antt =====
-- catalog/s3.go: Bucket.ListPhotos, which pairs the JPEG and the RAW file of a capture.
use Prim.Native.Nat.{ℕ}
use fragments.Base.{
  String, str_append, Bool, false, not, ◌&&◌, ◌||◌, none, some, List, [], ◌∷◌, map, ◌⊎◌, inl, inr,
  pos, whole, codes, bytes_eq, text_lt, str_eq, keep, sort_by, if◌then◌else◌,
}
use fragments.Store.Rows.{ObjectRef, Metadata, Photo}
use fragments.Bucket.Keys.{is_empty, ends_at, split_at, safe_key, split_ext, upper_codes}

-- An object of a listing page; `etag` as S3 quotes it.
pub record Object : Type 0 where
  pub key : String
  pub size : ℕ
  pub etag : String

pub data FileKind : Type 0 where
  kind_other kind_jpeg kind_raf : FileKind

abbrev one_of : List ℕ → List String → Bool
one_of v [] = false
one_of v (s ∷ rest) = bytes_eq v (codes s) || one_of v rest

abbrev raw_extensions : List String
raw_extensions =
    ".RAF" ∷ ".NEF" ∷ ".CR2" ∷ ".CR3" ∷ ".ARW" ∷ ".DNG" ∷ ".ORF" ∷ ".RW2" ∷ ".PEF" ∷ ".SRW" ∷ ".X3F"
    ∷ []

unfoldable pub classify : List ℕ → FileKind
classify ext =
    if one_of ext (".JPG" ∷ ".JPEG" ∷ [])
    then kind_jpeg
    else (if one_of ext raw_extensions then kind_raf else kind_other)

abbrev but_last : List String → List String
but_last [] = []
but_last (s ∷ []) = []
but_last (s ∷ t ∷ rest) = s ∷ but_last (t ∷ rest)

abbrev join_path : List String → String
join_path [] = ""
join_path (s ∷ []) = s
join_path (s ∷ t ∷ rest) = str_append s (str_append "/" (join_path (t ∷ rest)))

abbrev segments : List String → List String
segments = keep (λ s. not (is_empty s))

-- path.Dir of a key without "." and ".." elements; the top is "".
unfoldable pub dir_of : String → String
dir_of base = join_path (segments (but_last (split_at b'/' base)))

abbrev last_or : String → List String → String
last_or d [] = d
last_or d (s ∷ rest) = last_or s rest

-- path.Base
unfoldable pub base_name : String → String
base_name base = last_or (if is_empty base then "." else "/") (segments (split_at b'/' base))

abbrev trim_left : String → String
trim_left String.[] = ""
trim_left (String.◌∷◌ c s) = if str_eq (String.◌∷◌ c "") "\"" then trim_left s else String.◌∷◌ c s

abbrev trim_right : String → String
trim_right String.[] = ""
trim_right (String.◌∷◌ c s) =
    let rest = trim_right s in if str_eq (String.◌∷◌ c rest) "\"" then "" else String.◌∷◌ c rest

abbrev pub blank_meta : Metadata
blank_meta = record {
  taken_at = none;
  camera_make = "";
  camera_model = "";
  lens_model = "";
  iso = pos 0;
  f_number = whole 0;
  exposure_time = "";
  exposure_sec = whole 0;
  focal_length = whole 0;
  focal_length35 = pos 0;
  width = pos 0;
  height = pos 0;
  orientation = pos 0;
  gps_lat = none;
  gps_lon = none;
  film_simulation = "";
  raw_json = "";
  recipe_hash = "";
}

unfoldable pub object_ref : Object → ObjectRef
object_ref o = record { key = o.key; size = o.size; etag = trim_right (trim_left o.etag) }

-- A capture whose files are still to come.
unfoldable pub new_photo : String → Photo
unfolding dir_of base_name
new_photo base = record {
  key_base = base;
  folder = dir_of base;
  name = base_name base;
  jpeg = record { key = ""; size = 0; etag = "" };
  raf = none;
  thumb_path = "";
  meta = blank_meta;
}

abbrev pub with_file : FileKind → ObjectRef → Photo → Photo
with_file kind_jpeg ref p = record p { jpeg = ref }
with_file kind_raf ref p = record p { raf = some ref }
with_file kind_other ref p = p

-- byBase: the file goes to the capture of its base, which is made when it is the first.
unfoldable pub add_file : String → FileKind → ObjectRef → List Photo → List Photo
add_file base kind ref [] = with_file kind ref (new_photo base) ∷ []
add_file base kind ref (p ∷ ps) =
    if str_eq base p.key_base then with_file kind ref p ∷ ps else p ∷ add_file base kind ref ps

abbrev pub base_of : Object → String
base_of o = (split_ext o.key).0

abbrev pub kind_of : Object → FileKind
kind_of o = classify (upper_codes (split_ext o.key).1)

-- Folder placeholders and keys that could leave the data directory are passed over.
abbrev pub is_wanted : Object → Bool
is_wanted o = not (is_empty o.key || ends_at b'/' o.key) && safe_key o.key

abbrev pub filed : FileKind → Object → List Photo → List Photo
filed kind_other o ps = ps
filed kind o ps = add_file (base_of o) kind (object_ref o) ps

unfoldable pub list_object : Object → List Photo → List Photo
unfolding add_file object_ref
list_object o ps = if is_wanted o then filed (kind_of o) o ps else ps

unfoldable pub list_objects : List Object → List Photo → List Photo
unfolding list_object
list_objects [] ps = ps
list_objects (o ∷ os) ps = list_objects os (list_object o ps)

-- The paginator's answers, to the first that fails.
unfoldable pub list_pages : List (List Object ⊎ String) → List Photo → List Photo ⊎ String
list_pages [] ps = inl ps
list_pages (inr e ∷ pages) ps = inr (str_append "list objects: " e)
list_pages (inl os ∷ pages) ps = list_pages pages (list_objects os ps)

abbrev pub key_order : Photo → Photo → Bool
key_order p q = text_lt (codes p.key_base) (codes q.key_base)

abbrev pub has_jpeg : Photo → Bool
has_jpeg p = not (is_empty p.jpeg.key)

abbrev pub listed_answer : List Photo ⊎ String → (List Photo × List String) ⊎ String
listed_answer (inr e) = inr e
listed_answer (inl ps) = inl (sort_by key_order (keep has_jpeg ps), map (λ p. p.key_base) ps)

-- The captures with a JPEG, sorted, and every base that the listing saw.
unfoldable pub list_bucket : List (List Object ⊎ String) → (List Photo × List String) ⊎ String
unfolding list_pages
list_bucket pages = listed_answer (list_pages pages [])
