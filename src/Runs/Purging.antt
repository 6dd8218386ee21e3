-- ===== src/Runs/Purging.antt =====
-- worker/purge.go and worker/coordinator.go on the two photos.
use fragments.Base.{
  ℕ, true, false, ◌≡◌, refl, arith, str_eq_iff, none, List, [], ◌∷◌, ◌++◌, map, in_list, ◌≤◌,
}
use fragments.Store.Rows.{rows_of}
use fragments.Store.Discard.Removal.{delete_photos-removes}
use fragments.Store.Discard.{delete_photos, still_discarded}
use fragments.Status.{
  Arithmetic, Snapshot, Event, ev_item_done, ev_item_failed, ev_skip, idle, done, apply_events,
}
use fragments.Status.Counts.{
  Counted, newest, failures, finished, apply_events-Counted, errors-apply_events,
}
use fragments.Bucket.Delete.{delete_objects}
use fragments.Bucket.Gone.{failed_key, delete_objects-erases}
use fragments.Purge.{purge, refusal}
use fragments.Purge.Safety.{purge-spares}
use fragments.Purge.Objects.{purge-keeps}
use fragments.Purge.Account.{purge-accounts, purge-finishes}
use fragments.Purge.Complete.{IsQuiet, purge-completes}
use fragments.Runs.Data.{
  two_photos, pile, world, thumb_file, quiet, open_bucket, locked_bucket, locked_bucket-IsS3,
}

abbrev counts : Arithmetic ℕ
counts = record { zero_f = 0; of_count = λ n. n; div = λ a b. a; is_positive = λ n. false }

abbrev fresh : Snapshot ℕ
fresh = record {
  active = true;
  phase = idle;
  total = 2;
  processed = 0;
  skipped = 0;
  failed = 0;
  bytes_freed = 0;
  removed = 0;
  started_at = none;
  elapsed_sec = 0;
  rate = 0;
  eta_sec = 0;
  workers = [];
  last_error = "";
  errors = [];
  default_workers = 4;
}

abbrev some_events : List Event
some_events = ev_item_done "a" 10 ∷ ev_item_failed "b" "s3 b: denied" ∷ ev_skip "c" ∷ []

quiet-IsQuiet : (i : ℕ) → IsQuiet (quiet i)
quiet-IsQuiet i = record {
  goes_on = refl;
  no_edit = λ s. refl;
  no_late_edit = λ s. refl;
  recheck_ok = λ j. refl;
  delete_ok = λ j. refl;
}

purge-spares_example :
    rows_of "b" (purge open_bucket thumb_file none quiet false pile world).0.store.photos
    ≡ rows_of "b" world.store.photos
purge-spares_example =
    purge-spares open_bucket thumb_file "b" none quiet false pile world (λ j s. refl) (λ j s. refl)
      refl

purge-keeps_example :
    rows_of "a" (purge locked_bucket thumb_file none quiet false pile world).0.store.photos
    ≡ rows_of "a" world.store.photos
unfolding purge still_discarded delete_objects refusal delete_photos
purge-keeps_example =
    purge-keeps locked_bucket locked_bucket-IsS3 thumb_file "a" "a" none quiet false pile world
      (λ j s. refl) (λ j s. refl) (λ e. refl, (λ e. ground (arith, str_eq_iff "b" "a"), tt)) refl

purge-completes_example :
    ((purge open_bucket thumb_file none quiet false pile world).2 ≡ done)
    × (rows_of "a" (purge open_bucket thumb_file none quiet false pile world).0.store.photos ≡ [])
purge-completes_example =
    purge-completes open_bucket thumb_file quiet pile world "a" (λ ks r. refl) quiet-IsQuiet

purge-accounts_example :
    let (w', evs, phase) = purge open_bucket thumb_file none quiet false pile world in
    let s' = apply_events counts (λ i. i) 0 evs fresh in
    (s'.total ≡ 2) × (s'.phase ≡ phase) × (finished s' ≤ s'.total)
purge-accounts_example =
    purge-accounts open_bucket thumb_file counts (λ i. i) quiet false pile world fresh refl refl

purge-finishes_example :
    finished (
      apply_events counts
        (λ i. i)
        0
        (purge open_bucket thumb_file none quiet false pile world).1
        fresh)
    ≡ 2
unfolding purge still_discarded delete_objects refusal delete_photos
purge-finishes_example =
    purge-finishes open_bucket thumb_file counts (λ i. i) quiet false pile world fresh refl refl
      refl

apply_events-Counted_example :
    Counted counts fresh some_events (apply_events counts (λ i. i) 0 some_events fresh)
apply_events-Counted_example = apply_events-Counted counts (λ i. i) 0 some_events fresh

errors-apply_events_example :
    (apply_events counts (λ i. i) 0 some_events fresh).errors
    ≡ newest (fresh.errors ++ failures some_events)
errors-apply_events_example = errors-apply_events counts (λ i. i) 0 some_events fresh (omega arith)

delete_objects-erases_example :
    in_list "a"
      (map failed_key (delete_objects locked_bucket ("a" ∷ "b" ∷ []) ("a" ∷ "b" ∷ [])).failed)
    ≡ true
unfolding delete_objects
delete_objects-erases_example =
    delete_objects-erases locked_bucket locked_bucket-IsS3 "a" ("a" ∷ "b" ∷ []) ("a" ∷ "b" ∷ [])
      refl refl refl

delete_photos-removes_example :
    rows_of "a" (delete_photos (λ i. none) ("a" ∷ []) two_photos).0.photos ≡ []
unfolding delete_photos
delete_photos-removes_example = delete_photos-removes "a" (λ i. none) ("a" ∷ []) two_photos refl
