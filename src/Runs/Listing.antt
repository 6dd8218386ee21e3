-- ===== src/Runs/Listing.antt =====
-- catalog/s3.go and catalog/thumb.go on a page of three objects, and on a picture of two pixels.
use fragments.Base.{
  ℕ, String, true, ◌≡◌, ◌≤◌, refl, arith, none, List, [], ◌∷◌, inl, All, any, in_list, pos, Bool,
  false,
}
use fragments.Store.Rows.{Photo, rows_of, listed_columns}
use fragments.Store.Discard.{bucket_key_refs, delete_photos}
use fragments.Bucket.Keys.{ends_at, safe_key, split_ext, upper_codes}
use fragments.Bucket.Listing.{
  Object, classify, list_bucket, list_pages, list_objects, list_object, add_file, new_photo,
  object_ref, blank_meta, dir_of, base_name,
}
use fragments.Bucket.Pairing.{IsCapture, shows, objects_of, list_bucket-lists}
use fragments.Scan.{Disk, reconcile_missing}
use fragments.Scan.Listed.{reconcile_missing-keeps}
use fragments.Thumb.{Picture, apply_orientation, thumbnail}
use fragments.Thumb.Upright.{apply_orientation-at}
use fragments.Thumb.Size.{thumbnail-fits}
use fragments.Runs.Data.{two_photos, thumb_file}

abbrev object : String → Object
object k = record { key = k; size = 5; etag = "\"e\"" }

abbrev page : List Object
page = object "a.jpg" ∷ object "../x.jpg" ∷ object "b.raf" ∷ []

abbrev photo_a : Photo
photo_a = record {
  key_base = "a";
  folder = "";
  name = "a";
  jpeg = record { key = "a.jpg"; size = 5; etag = "e" };
  raf = none;
  thumb_path = "";
  meta = blank_meta;
}

list_bucket-lists_example :
    All IsCapture (photo_a ∷ [])
    × (in_list "b" ("a" ∷ "b" ∷ []) ≡ any (shows "b") (objects_of (inl page ∷ [])))
unfolding list_bucket list_pages list_objects list_object add_file new_photo object_ref dir_of
    base_name ends_at safe_key classify upper_codes split_ext
list_bucket-lists_example =
    list_bucket-lists (inl page ∷ []) (photo_a ∷ []) ("a" ∷ "b" ∷ []) "b" refl

abbrev stored : Disk
stored = record { store = two_photos; thumbs = [] }

reconcile_missing-keeps_example :
    rows_of "b"
      (reconcile_missing thumb_file ""
        (λ i. none)
        (λ f. false)
        ("a" ∷ "b" ∷ [])
        ""
        stored).0.store.photos
    ≡ rows_of "b" two_photos.photos
unfolding list_bucket list_pages list_objects list_object add_file new_photo object_ref dir_of
    base_name reconcile_missing bucket_key_refs listed_columns delete_photos safe_key split_ext
    upper_codes classify ends_at
reconcile_missing-keeps_example =
    reconcile_missing-keeps thumb_file "" (λ i. none) (λ f. false) (inl page ∷ []) (photo_a ∷ [])
      ("a" ∷ "b" ∷ []) "" stored "b" {n = 0} refl refl refl

-- Two pixels side by side.
abbrev pair : Picture ℕ
pair = record { width = 2; height = 1; at = λ x y. x }

apply_orientation-at_example :
    ((apply_orientation 9 pair (pos 6)).width ≡ 1)
    × ((apply_orientation 9 pair (pos 6)).height ≡ 2)
    × ((apply_orientation 9 pair (pos 6)).at 0 1 ≡ 1)
apply_orientation-at_example = apply_orientation-at 9 pair 6 0 1 (omega arith) (omega arith)

abbrev flat : Bool → ℕ → ℕ → Picture ℕ → Picture ℕ
flat fast w h p = record { width = w; height = h; at = λ x y. 0 }

thumbnail-fits_example :
    let t = thumbnail 9 flat pair (pos 6) (pos 1) true in
    (1 ≤ t.width) × (t.width ≤ 1) × (1 ≤ t.height) × (t.height ≤ 1)
thumbnail-fits_example =
    thumbnail-fits 9 flat pair 6 1 true (λ f w h q. (refl, refl)) (omega arith) (omega arith)
      (omega arith)
