-- ===== src/Purge/Account.antt =====
-- worker/purge.go: every photo of a purge gets one outcome.
use fragments.Base.{
  ℕ, suc, ◌+◌, ◌≤◌, String, Bool, ◌≡◌, refl, none, List, [], ◌∷◌, ◌++◌, map, arith, inl, inr, keep,
  in_list, length, length-append, concat, chunks, concat-chunks, Option-cases, Bool-cases,
  Sum-cases, ap, ◌∙◌, subst, tally-append,
}
use fragments.Store.Discard.{DiscardedPhoto, still_discarded, delete_photos}
use fragments.Status.{Event, Phase, Snapshot, Arithmetic, ev_phase, done, purging, apply_events}
use fragments.Status.Counts.{
  outcomes, outcomes-append, finished, finished-apply_events, phase-apply_events,
  total-apply_events, is_total,
}
use fragments.Bucket.Delete.{Client, DeleteError, delete_objects}
use fragments.Purge.Totals.{purge_loop-totals}
use fragments.Purge.{
  World, Env, Round, next, stop, kb, batch_keys, was_erased, fail_all, refusal_events, skip_events,
  done_events, erase_rows, erase_objects, purge_batch, purge_loop, after_round, purge,
  purge_batch_size,
}

outcomes-fail_all : (m : String) (ps : List DiscardedPhoto) → outcomes (fail_all m ps) ≡ length ps
unfolding fail_all
outcomes-fail_all m [] = refl
outcomes-fail_all m (p ∷ ps) = omega (arith, outcomes-fail_all m ps)

outcomes-done_events : (ps : List DiscardedPhoto) → outcomes (done_events ps) ≡ length ps
unfolding done_events
outcomes-done_events [] = refl
outcomes-done_events (p ∷ ps) = omega (arith, outcomes-done_events ps)

outcomes-skip_events :
    (still : List String) (ps : List DiscardedPhoto)
    → outcomes (skip_events still ps) + length (keep (λ p. in_list p.key_base still) ps) ≡ length ps
unfolding skip_events
outcomes-skip_events still [] = refl
outcomes-skip_events still (p ∷ ps) = ground (arith, outcomes-skip_events still ps)

outcomes-refusal_events :
    (es : List DeleteError) (ps : List DiscardedPhoto)
    → outcomes (refusal_events es ps) + length (keep (was_erased es) ps) ≡ length ps
unfolding refusal_events
outcomes-refusal_events es [] = refl
outcomes-refusal_events es (p ∷ ps) = ground (arith, outcomes-refusal_events es ps)

-- A round that goes on has settled n photos; one that stops, n at most.
abbrev Settles : {R : Type 0} → ℕ → Round R → Type 0
Settles n (next w evs) = outcomes evs ≡ n
Settles n (stop w evs) = outcomes evs ≤ n

module _ {R : Type 0} (c : Client R) (thumb_path : String → String) where
  erase_rows-Settles :
      (env : Env) (ps : List DiscardedPhoto) (w : World R) (evs : List Event)
      → Settles (outcomes evs + length ps) (erase_rows c thumb_path env ps w evs)
  unfolding erase_rows
  erase_rows-Settles env [] w evs = omega arith
  erase_rows-Settles env (p ∷ ps) w evs =
      elim (Option-cases
        (delete_photos env.rows_fault (map kb (p ∷ ps)) (env.late_edits w.store)).1) [
          | inl e ↦
              rw (e, erase_rows)
                (outcomes-append evs (done_events (p ∷ ps))
                  ∙ ap (◌+◌ (outcomes evs)) (outcomes-done_events (p ∷ ps)))
          | inr (m, e) ↦
              rw (e, erase_rows)
                (outcomes-append evs (fail_all _ (p ∷ ps))
                  ∙ ap (◌+◌ (outcomes evs)) (outcomes-fail_all _ (p ∷ ps)))
        ]

  erase_objects-Settles :
      (env : Env) (ps : List DiscardedPhoto) (w : World R) (evs : List Event)
      → Settles (outcomes evs + length ps) (erase_objects c thumb_path env ps w evs)
  unfolding erase_objects
  erase_objects-Settles env [] w evs = omega arith
  erase_objects-Settles env (p ∷ ps) w evs =
      let del = delete_objects c (batch_keys (p ∷ ps)) w.remote in
      let live = keep (was_erased del.failed) (p ∷ ps) in
      let evs' = evs ++ refusal_events del.failed (p ∷ ps) in
      let n : outcomes evs' + length live ≡ outcomes evs + length (p ∷ ps) = omega (
        arith,
        outcomes-append evs (refusal_events del.failed (p ∷ ps)),
        outcomes-refusal_events del.failed (p ∷ ps),
      ) in
      elim (Option-cases del.fatal) [
        | inl e ↦
            rw (e, erase_objects)
              (subst
                (λ m.
                  Settles m
                    (erase_rows c thumb_path env live (record w { remote = del.remote }) evs'))
                n (erase_rows-Settles env live (record w { remote = del.remote }) evs'))
        | inr (m, e) ↦
            rw (e, erase_objects)
              (elim (Bool-cases env.is_aborted) [
                | inl a ↦ rw a (omega arith)
                | inr a ↦ rw a (
                    outcomes-append evs (fail_all _ (p ∷ ps))
                    ∙ ap (◌+◌ (outcomes evs)) (outcomes-fail_all _ (p ∷ ps)))
              ])
      ]

  purge_batch-Settles :
      (env : Env) (ps : List DiscardedPhoto) (w : World R)
      → Settles (length ps) (purge_batch c thumb_path env ps w)
  unfolding purge_batch
  purge_batch-Settles env ps w =
      elim (Sum-cases (still_discarded env.still_fault (map kb ps) (env.edits w.store))) [
        | inl (still, e) ↦
            rw (e, purge_batch)
              (subst
                (λ m. Settles m (
                  erase_objects c thumb_path env (keep (λ p. in_list p.key_base still) ps)
                    (record w { store = env.edits w.store }) (skip_events still ps)))
                (outcomes-skip_events still ps)
                (erase_objects-Settles env (keep (λ p. in_list p.key_base still) ps)
                  (record w { store = env.edits w.store }) (skip_events still ps)))
        | inr (m, e) ↦ rw (e, purge_batch) (outcomes-fail_all _ ps)
      ]

  -- What a finished loop has settled, and what a cancelled one has at most.
  abbrev Accounts : ℕ → World R × List Event × Phase → Type 0
  Accounts n (w, evs, phase) = (outcomes evs ≤ n) × ((phase ≡ done) → outcomes evs ≡ n)

  purge_loop-Accounts :
      (env : ℕ → Env) (at_end : Bool) (i : ℕ) (bs : List (List DiscardedPhoto)) (w : World R)
      → Accounts (length (concat bs)) (purge_loop c thumb_path env at_end i bs w)
  unfolding purge_loop
  purge_loop-Accounts env at_end i [] w = (omega arith, λ _. refl)
  purge_loop-Accounts env at_end i (b ∷ bs) w = elim (Bool-cases (env i).is_cancelled) [
    | inl e ↦ rw e (omega arith, λ d. absurd (cc d))
    | inr e ↦ rw e (
        go (purge_batch c thumb_path (env i) b w) (purge_batch-Settles (env i) b w)
          (λ w'. purge_loop-Accounts env at_end (suc i) bs w'))
  ]
    where
      go :
          (r : Round R)
          → Settles (length b) r
          → ((w' : World R)
              → Accounts (length (concat bs)) (purge_loop c thumb_path env at_end (suc i) bs w'))
          → Accounts
              (length (b ++ concat bs))
              (after_round r (λ w'. purge_loop c thumb_path env at_end (suc i) bs w'))
      go (stop w' evs) s rec = (omega (arith, length-append b (concat bs)), λ d. absurd (cc d))
      go (next w' evs) s rec =
          let rest = purge_loop c thumb_path env at_end (suc i) bs w' in
          (
            omega (arith, length-append b (concat bs), outcomes-append evs rest.1, (rec w').0),
            λ d.
                omega
                  (arith, length-append b (concat bs), outcomes-append evs rest.1, (rec w').1 d),
          )

-- A purge's own events after zero counters: the total stays, and the counters are its outcomes.
purge-Settles :
    {R F : Type 0} (c : Client R) (thumb_path : String → String) (ops : Arithmetic F)
    (clock : ℕ → F) (env : ℕ → Env) (at_end : Bool) (ps : List DiscardedPhoto) (w : World R)
    (s : Snapshot F)
    → finished s ≡ 0
    → let r = purge_loop c thumb_path env at_end 0 (chunks purge_batch_size ps) w in
      let s' = apply_events ops clock 0 (ev_phase purging ∷ r.1 ++ ev_phase r.2 ∷ []) s in
      (s'.total ≡ s.total) × (s'.phase ≡ r.2) × (finished s' ≡ outcomes r.1)
purge-Settles c thumb_path ops clock env at_end ps w s fresh =
    let r = purge_loop c thumb_path env at_end 0 (chunks purge_batch_size ps) w in
    let evs = ev_phase purging ∷ r.1 ++ ev_phase r.2 ∷ [] in
    (
      total-apply_events ops clock 0 evs s (
          omega (
            arith,
            tally-append is_total r.1 (ev_phase r.2 ∷ []),
            purge_loop-totals c thumb_path env at_end 0 (chunks purge_batch_size ps) w,
          )),
      phase-apply_events ops clock 0 (ev_phase purging ∷ r.1) r.2 s,
      omega (
        arith,
        finished-apply_events ops clock 0 evs s,
        outcomes-append r.1 (ev_phase r.2 ∷ []),
        fresh,
      ),
    )

purge-outcomes :
    {R : Type 0} (c : Client R) (thumb_path : String → String) (env : ℕ → Env) (at_end : Bool)
    (ps : List DiscardedPhoto) (w : World R)
    → let r = purge_loop c thumb_path env at_end 0 (chunks purge_batch_size ps) w in
      (outcomes r.1 ≤ length ps) × (r.2 ≡ done → outcomes r.1 ≡ length ps)
purge-outcomes c thumb_path env at_end ps w =
    let r = purge_loop c thumb_path env at_end 0 (chunks purge_batch_size ps) w in
    subst
      (λ (l : List DiscardedPhoto).
        (outcomes r.1 ≤ length l) × (r.2 ≡ done → outcomes r.1 ≡ length l))
      (concat-chunks purge_batch_size ps (omega arith))
      (purge_loop-Accounts c thumb_path env at_end 0 (chunks purge_batch_size ps) w)

-- The status after a purge of `ps` that began at zero counters: the announced total stays, the
-- snapshot shows the phase that the purge ended in, and the counters do not pass the total.
pub purge-accounts :
    {R F : Type 0} (c : Client R) (thumb_path : String → String) (ops : Arithmetic F)
    (clock : ℕ → F) (env : ℕ → Env) (at_end : Bool) (ps : List DiscardedPhoto) (w : World R)
    (s : Snapshot F)
    → s.total ≡ length ps
    → finished s ≡ 0
    → let (w', evs, phase) = purge c thumb_path none env at_end ps w in
      let s' = apply_events ops clock 0 evs s in
      (s'.total ≡ length ps) × (s'.phase ≡ phase) × (finished s' ≤ s'.total)
unfolding purge
purge-accounts c thumb_path ops clock env at_end ps w s total fresh =
    let (same, shown, counted) = purge-Settles c thumb_path ops clock env at_end ps w s fresh in
    let (most, all) = purge-outcomes c thumb_path env at_end ps w in
    (same ∙ total, shown, omega (arith, same, total, counted, most))

-- Where a purge begins at zero counters and an announced total that is the number of its photos,
-- and ends as done, every photo is counted once: as erased, skipped or failed.
pub purge-finishes :
    {R F : Type 0} (c : Client R) (thumb_path : String → String) (ops : Arithmetic F)
    (clock : ℕ → F) (env : ℕ → Env) (at_end : Bool) (ps : List DiscardedPhoto) (w : World R)
    (s : Snapshot F)
    → s.total ≡ length ps
    → finished s ≡ 0
    → (purge c thumb_path none env at_end ps w).2 ≡ done
    → finished (apply_events ops clock 0 (purge c thumb_path none env at_end ps w).1 s) ≡ length ps
unfolding purge
purge-finishes c thumb_path ops clock env at_end ps w s total fresh d =
    let (same, shown, counted) = purge-Settles c thumb_path ops clock env at_end ps w s fresh in
    let (most, all) = purge-outcomes c thumb_path env at_end ps w in counted ∙ all d
