-- ===== src/Runs/Working.antt =====
-- worker/coordinator.go: a run and a purge from their start.
use fragments.Base.{false, ◌≡◌, refl, none, List, [], ◌∷◌, pos, All}
use fragments.Store.Rows.{listed_columns}
use fragments.Store.Discard.{list_discarded}
use fragments.Store.Discard.{delete_photos, still_discarded}
use fragments.Bucket.Delete.{delete_objects}
use fragments.Status.{Event, ev_worker_start, ev_worker_idle, ev_item_done, apply_events}
use fragments.Status.Counts.{finished}
use fragments.Purge.{purge, refusal, start_purge}
use fragments.Jobs.{new_coordinator, start, begin_purge}
use fragments.Jobs.Slots.{IsSlot, start-IsSlot}
use fragments.Jobs.Purges.{purge-confirmed}
use fragments.Runs.Data.{whole_seconds, world, thumb_file, quiet, open_bucket, listed}

abbrev two_steps : List Event
two_steps =
    ev_worker_start 0 "a" ∷ ev_worker_start 1 "b" ∷ ev_item_done "a" 0 ∷ ev_worker_idle 0 ∷ []

start-IsSlot_example :
    All IsSlot
      (apply_events whole_seconds
        (λ i. i)
        0
        two_steps
        (start whole_seconds (pos 3) 0 (new_coordinator whole_seconds (pos 0))).0.snap).workers
unfolding new_coordinator
start-IsSlot_example =
    start-IsSlot whole_seconds (pos 3) 0 (new_coordinator whole_seconds (pos 0)) (λ i. i) two_steps
      refl (refl, (refl, (refl, (refl, tt))))

purge-confirmed_example :
    finished (
      apply_events whole_seconds
        (λ i. i)
        0
        (purge open_bucket thumb_file none quiet false (listed "a" ∷ []) world).1
        (begin_purge whole_seconds
          (listed "a" ∷ [])
          0
          (new_coordinator whole_seconds (pos 2))).snap)
    ≡ 1
unfolding new_coordinator start_purge list_discarded purge still_discarded delete_objects refusal
    delete_photos listed_columns
purge-confirmed_example =
    purge-confirmed open_bucket thumb_file whole_seconds (λ i. i) quiet false (listed "a" ∷ [])
      world (new_coordinator whole_seconds (pos 2)) 0 1 refl refl
