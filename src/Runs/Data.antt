-- ===== src/Runs/Data.antt =====
-- Two photos, their rows, and a bucket: inputs for worker/purge.go and catalog/.
use fragments.Base.{
  ℕ, String, true, false, not, ◌||◌, ◌≡◌, refl, arith, Option, none, some, List, [], ◌∷◌, inl, pos,
  whole, keep, in_list, str_eq, str_eq_iff, if◌then◌else◌,
}
use fragments.Store.Rows.{Metadata, Photo, Row, Store, listed_columns}
use fragments.Store.Discard.{DiscardedPhoto}
use fragments.Bucket.Delete.{Client, IsS3}
use fragments.Status.{Arithmetic}
use fragments.Purge.{World, Env}

abbrev pub whole_seconds : Arithmetic ℕ
whole_seconds = record { zero_f = 0; of_count = λ n. n; div = λ a b. a; is_positive = λ n. false }

abbrev pub meta : Metadata
meta = record {
  taken_at = none;
  camera_make = "FUJIFILM";
  camera_model = "X-T5";
  lens_model = "";
  iso = pos 200;
  f_number = whole 2;
  exposure_time = "1/125";
  exposure_sec = whole 0;
  focal_length = whole 23;
  focal_length35 = pos 35;
  width = pos 100;
  height = pos 80;
  orientation = pos 1;
  gps_lat = none;
  gps_lon = none;
  film_simulation = "Acros";
  raw_json = "";
  recipe_hash = "";
}

abbrev pub photo : String → String → Photo
photo k etag = record {
  key_base = k;
  folder = "2024";
  name = k;
  jpeg = record { key = k; size = 10; etag = etag };
  raf = none;
  thumb_path = "";
  meta = meta;
}

abbrev pub row : ℕ → String → Option String → Option ℕ → Row
row id k decision rating = record {
  id = id;
  key_base = k;
  listed = listed_columns (photo k "e");
  decision = decision;
  rating = rating;
  cataloged_at = "t";
  updated_at = "t";
}

-- "a" is rejected, "b" is kept with four stars.
abbrev pub two_photos : Store
two_photos = record {
  photos = row 1 "a" (some "discard") none ∷ row 2 "b" none (some 4) ∷ [];
  next_photo = 3;
  albums = [];
  next_album = 1;
  album_photos = [];
}

abbrev pub listed : String → DiscardedPhoto
listed k = record {
  key_base = k;
  jpeg_key = k;
  jpeg_size = 10;
  raf_key = "";
  raf_size = 0;
  thumb_path = "";
}

abbrev pub pile : List DiscardedPhoto
pile = listed "a" ∷ listed "b" ∷ []

abbrev pub world : World (List String)
world = record { store = two_photos; remote = "a" ∷ "b" ∷ []; thumbs = "thumb-a" ∷ [] }

abbrev pub thumb_file : String → String
thumb_file k = k

abbrev pub quiet : ℕ → Env
quiet i = record {
  is_cancelled = false;
  edits = λ s. s;
  still_fault = λ j. none;
  is_aborted = false;
  stuck_file = λ f. false;
  late_edits = λ s. s;
  rows_fault = λ j. none;
}

-- A bucket that deletes what it is asked to.
abbrev pub open_bucket : Client (List String)
open_bucket = record {
  delete_call = λ ks r. (keep (λ x. not (in_list x ks)) r, inl []);
  has = in_list;
}

-- A bucket that refuses to delete "a".
abbrev pub locked_bucket : Client (List String)
locked_bucket = record {
  delete_call = λ ks r. (
    keep (λ x. not (in_list x ks) || str_eq x "a") r,
    inl (
        if in_list "a" ks
        then record { key = "a"; code = "AccessDenied"; message = "" } ∷ []
        else []),
  );
  has = in_list;
}

kept_absent :
    (k : String) (ks r : List String)
    → in_list k r ≡ false
    → in_list k (keep (λ x. not (in_list x ks) || str_eq x "a") r) ≡ false
kept_absent k ks [] h = refl
kept_absent k ks (x ∷ r) h = ground (arith, kept_absent k ks r)

kept_deleted :
    (k : String) (ks r : List String)
    → in_list k ks ≡ true
    → str_eq k "a" ≡ false
    → in_list k (keep (λ x. not (in_list x ks) || str_eq x "a") r) ≡ false
kept_deleted k ks [] h g = refl
kept_deleted k ks (x ∷ r) h g = ground (arith, str_eq_iff k x, kept_deleted k ks r h g)

pub locked_bucket-IsS3 : IsS3 locked_bucket
locked_bucket-IsS3 = record {
  deletes = λ ks r es k e h g. kept_deleted k ks r h (ground (arith, str_eq_iff k "a"));
  creates_none = λ ks r k h. kept_absent k ks r h;
}
