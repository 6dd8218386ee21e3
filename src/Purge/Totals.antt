-- ===== src/Purge/Totals.antt =====
-- worker/purge.go: a purge announces no new total.
use fragments.Base.{
  ℕ, suc, ◌+◌, String, Bool, ◌≡◌, refl, List, [], ◌∷◌, ◌++◌, map, arith, inl, inr, keep, in_list,
  Option-cases, Bool-cases, Sum-cases, ap, ◌∙◌, tally, tally-append,
}
use fragments.Store.Discard.{DiscardedPhoto, still_discarded, delete_photos}
use fragments.Status.{Event}
use fragments.Status.Counts.{is_total}
use fragments.Bucket.Delete.{Client, DeleteError, delete_objects}
use fragments.Purge.{
  World, Env, Round, next, stop, kb, batch_keys, was_erased, fail_all, refusal_events, skip_events,
  done_events, erase_rows, erase_objects, purge_batch, purge_loop, after_round,
}

totals-fail_all : (m : String) (ps : List DiscardedPhoto) → tally is_total (fail_all m ps) ≡ 0
unfolding fail_all
totals-fail_all m [] = refl
totals-fail_all m (p ∷ ps) = omega (arith, totals-fail_all m ps)

totals-done_events : (ps : List DiscardedPhoto) → tally is_total (done_events ps) ≡ 0
unfolding done_events
totals-done_events [] = refl
totals-done_events (p ∷ ps) = omega (arith, totals-done_events ps)

totals-skip_events :
    (still : List String) (ps : List DiscardedPhoto) → tally is_total (skip_events still ps) ≡ 0
unfolding skip_events
totals-skip_events still [] = refl
totals-skip_events still (p ∷ ps) = ground (arith, totals-skip_events still ps)

totals-refusal_events :
    (es : List DeleteError) (ps : List DiscardedPhoto) → tally is_total (refusal_events es ps) ≡ 0
unfolding refusal_events
totals-refusal_events es [] = refl
totals-refusal_events es (p ∷ ps) = ground (arith, totals-refusal_events es ps)

abbrev events_of : {R : Type 0} → Round R → List Event
events_of (next w evs) = evs
events_of (stop w evs) = evs

module _ {R : Type 0} (c : Client R) (thumb_path : String → String) where
  erase_rows-totals :
      (env : Env) (ps : List DiscardedPhoto) (w : World R) (evs : List Event)
      → tally is_total evs ≡ 0
      → tally is_total (events_of (erase_rows c thumb_path env ps w evs)) ≡ 0
  unfolding erase_rows
  erase_rows-totals env [] w evs h = h
  erase_rows-totals env (p ∷ ps) w evs h =
      elim (Option-cases
        (delete_photos env.rows_fault (map kb (p ∷ ps)) (env.late_edits w.store)).1) [
          | inl e ↦
              rw (e, erase_rows)
                (omega (
                  arith,
                  tally-append is_total evs (done_events (p ∷ ps)),
                  totals-done_events (p ∷ ps),
                ))
          | inr (m, e) ↦
              rw (e, erase_rows)
                (tally-append is_total evs (fail_all _ (p ∷ ps))
                  ∙ ap (◌+◌ (tally is_total evs)) (totals-fail_all _ (p ∷ ps))
                  ∙ omega arith)
        ]

  erase_objects-totals :
      (env : Env) (ps : List DiscardedPhoto) (w : World R) (evs : List Event)
      → tally is_total evs ≡ 0
      → tally is_total (events_of (erase_objects c thumb_path env ps w evs)) ≡ 0
  unfolding erase_objects
  erase_objects-totals env [] w evs h = h
  erase_objects-totals env (p ∷ ps) w evs h =
      let del = delete_objects c (batch_keys (p ∷ ps)) w.remote in
      elim (Option-cases del.fatal) [
        | inl e ↦
            rw (e, erase_objects)
              (erase_rows-totals env (keep (was_erased del.failed) (p ∷ ps))
                (record w { remote = del.remote }) (evs ++ refusal_events del.failed (p ∷ ps))
                (omega (
                  arith,
                  tally-append is_total evs (refusal_events del.failed (p ∷ ps)),
                  totals-refusal_events del.failed (p ∷ ps),
                )))
        | inr (m, e) ↦
            rw (e, erase_objects)
              (elim (Bool-cases env.is_aborted) [
                | inl a ↦ rw a h
                | inr a ↦ rw a (
                    tally-append is_total evs (fail_all _ (p ∷ ps))
                    ∙ ap (◌+◌ (tally is_total evs)) (totals-fail_all _ (p ∷ ps))
                    ∙ omega arith)
              ])
      ]

  purge_batch-totals :
      (env : Env) (ps : List DiscardedPhoto) (w : World R)
      → tally is_total (events_of (purge_batch c thumb_path env ps w)) ≡ 0
  unfolding purge_batch
  purge_batch-totals env ps w =
      elim (Sum-cases (still_discarded env.still_fault (map kb ps) (env.edits w.store))) [
        | inl (still, e) ↦
            rw (e, purge_batch)
              (erase_objects-totals env (keep (λ p. in_list p.key_base still) ps)
                (record w { store = env.edits w.store }) (skip_events still ps)
                (totals-skip_events still ps))
        | inr (m, e) ↦ rw (e, purge_batch) (totals-fail_all _ ps)
      ]

  pub purge_loop-totals :
      (env : ℕ → Env) (at_end : Bool) (i : ℕ) (bs : List (List DiscardedPhoto)) (w : World R)
      → tally is_total (purge_loop c thumb_path env at_end i bs w).1 ≡ 0
  unfolding purge_loop
  purge_loop-totals env at_end i [] w = refl
  purge_loop-totals env at_end i (b ∷ bs) w = elim (Bool-cases (env i).is_cancelled) [
    | inl e ↦ rw e refl
    | inr e ↦ rw e (
        go (purge_batch c thumb_path (env i) b w) (purge_batch-totals (env i) b w)
          (purge_loop-totals env at_end (suc i) bs))
  ]
    where
      go :
          (r : Round R)
          → tally is_total (events_of r) ≡ 0
          → ((w' : World R)
              → tally is_total (purge_loop c thumb_path env at_end (suc i) bs w').1 ≡ 0)
          → tally is_total
              (after_round r (λ w'. purge_loop c thumb_path env at_end (suc i) bs w')).1
            ≡ 0
      go (stop w' evs) e rec = e
      go (next w' evs) e rec = omega (
        arith,
        tally-append is_total evs (purge_loop c thumb_path env at_end (suc i) bs w').1,
        rec w',
      )
