-- ===== src/Scan/Listed.antt =====
-- catalog/s3.go and catalog/catalog.go together: a scan's listing and its reconciliation.
use fragments.Base.{
  ℕ, String, Bool, true, false, Option, List, [], ◌∷◌, ◌⊎◌, inl, ◌≡◌, refl, ◌∙◌, arith, any,
  in_list, str_eq_iff,
}
use fragments.Store.Rows.{Row, rows_of}
use fragments.Store.Rows.{Photo}
use fragments.Scan.{Disk, effective_prefix, reconcile_missing}
use fragments.Scan.Reconcile.{is_stale, reconcile_missing-rows}
use fragments.Bucket.Listing.{Object, list_bucket}
use fragments.Bucket.Pairing.{shows, objects_of, list_bucket-lists}

-- A row of a key that is present is not stale.
present-is_stale :
    (k prefix : String) (present : List String) (rows : List Row)
    → in_list k present ≡ true
    → any (is_stale present prefix) (rows_of k rows) ≡ false
present-is_stale k prefix present [] h = refl
present-is_stale k prefix present (r ∷ rs) h =
    ground (arith, present-is_stale k prefix present rs h, str_eq_iff r.key_base k)

-- A scan whose listing and database answer keeps the rows of every capture of which the bucket still
-- lists a JPEG or a RAW file under a safe key, whatever the other objects are.
pub reconcile_missing-keeps :
    (thumb_path : String → String) (config : String) (fault : ℕ → Option String)
    (stuck : String → Bool) (pages : List (List Object ⊎ String)) (photos : List Photo)
    (present : List String) (prefix : String) (d : Disk) (k : String) {n : ℕ}
    → list_bucket pages ≡ inl (photos, present)
    → any (shows k) (objects_of pages) ≡ true
    → (reconcile_missing thumb_path config fault stuck present prefix d).1 ≡ inl n
    → rows_of k (reconcile_missing thumb_path config fault stuck present prefix d).0.store.photos
      ≡ rows_of k d.store.photos
reconcile_missing-keeps thumb_path config fault stuck pages photos present prefix d k h s g =
    let here : in_list k present ≡ true = (list_bucket-lists pages photos present k h).1 ∙ s in
    reconcile_missing-rows thumb_path config fault stuck present prefix d k g
    ∙ ground
        (arith, present-is_stale k (effective_prefix config prefix) present d.store.photos here)
