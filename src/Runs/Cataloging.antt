-- ===== src/Runs/Cataloging.antt =====
-- catalog/catalog.go on a listing of two captures.
use fragments.Base.{true, false, ◌≡◌, refl, arith, none, some, List, [], ◌∷◌, inl, pos, str_eq_iff}
use fragments.Store.Rows.{Photo, rows_of, lookup_row, upsert, listed_columns}
use fragments.Store.Discard.{bucket_key_refs, delete_photos}
use fragments.Store.Columns.{cataloged, lookup_row-upsert}
use fragments.Scan.{Disk, Codec, Env, RunOptions, RunStats, run_loop, reconcile_missing}
use fragments.Scan.Again.{IsQuiet, run_loop-again}
use fragments.Scan.Reconcile.{reconcile_missing-rows}
use fragments.Runs.Data.{meta, photo, two_photos, thumb_file}

abbrev listing : List Photo
listing = photo "a" "e1" ∷ photo "b" "e2" ∷ []

abbrev disk : Disk
disk = record { store = two_photos; thumbs = [] }

abbrev codec : Codec
codec = record { fetch = λ p. inl []; extract = λ bytes. meta; render = λ bytes m. none }

abbrev calm : Env
calm = record {
  is_cancelled = λ i. false;
  skip_fault = λ i. none;
  upsert_fault = λ i. none;
  now = λ i. "t";
}

abbrev zeroes : RunStats
zeroes = record { total = 2; processed = 0; skipped = 0; failed = 0; removed = 0 }

abbrev one_photo : RunOptions
one_photo = record { limit = pos 1; force = true; prefix = "" }

calm-IsQuiet : IsQuiet calm
calm-IsQuiet = record { goes_on = λ i. refl; check_ok = λ i. refl }

run_loop-again_example :
    run_loop thumb_file codec calm false 0 listing
      (run_loop thumb_file codec calm true 0 listing disk zeroes).0
      zeroes
    ≡ (
      (run_loop thumb_file codec calm true 0 listing disk zeroes).0,
      record zeroes { skipped = 2 },
      none,
    )
unfolding run_loop
run_loop-again_example =
    run_loop-again thumb_file codec calm calm true listing disk zeroes zeroes
      (
        refl,
        (λ e. ground (arith, str_eq_iff "e1" "")),
        (refl, (λ e. ground (arith, str_eq_iff "e2" "")), tt),
      )
      calm-IsQuiet refl refl

reconcile_missing-rows_example :
    rows_of "a"
      (reconcile_missing thumb_file "" (λ i. none) (λ f. false) ("b" ∷ []) "" disk).0.store.photos
    ≡ []
unfolding reconcile_missing bucket_key_refs listed_columns delete_photos
reconcile_missing-rows_example =
    reconcile_missing-rows thumb_file "" (λ i. none) (λ f. false) ("b" ∷ []) "" disk "a" {n = 1}
      refl

lookup_row-upsert_example :
    lookup_row "b" (upsert (photo "b" "e2") "u" two_photos).photos
    ≡ some (cataloged (photo "b" "e2") "u" two_photos (lookup_row "b" two_photos.photos))
lookup_row-upsert_example = lookup_row-upsert (photo "b" "e2") "u" "b" two_photos
