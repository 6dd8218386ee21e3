-- ===== src/Purge/Safety.antt =====
-- worker/purge.go: what a purge may erase.
use fragments.Base.{
  ℕ, suc, String, Bool, false, ◌≡◌, refl, ◌∙◌, ap, Option, none, some, List, [], ◌∷◌, ◌++◌, map,
  arith, inl, inr, str_eq_iff, keep, any, in_list, in_list-map-keep, Bool-cases, Sum-cases, chunks,
}
use fragments.Store.Rows.{Store, rows_of}
use fragments.Store.Select.{is_discarded}
use fragments.Store.Discard.{DiscardedPhoto, still_discarded}
use fragments.Store.Discard.Removal.{rejected, delete_photos-spares, still_discarded-in_list}
use fragments.Status.{Event}
use fragments.Bucket.Delete.{Client, delete_objects}
use fragments.Purge.{
  World, Env, Round, next, stop, kb, batch_keys, was_erased, refusal_events, skip_events,
  erase_rows, erase_objects, purge_batch, purge_loop, after_round, purge, purge_batch_size,
}

abbrev pub world_of : {R : Type 0} → Round R → World R
world_of (next w evs) = w
world_of (stop w evs) = w

-- Only the photos that the re-check found reach the deletion.
in_list-keep_still :
    (k : String) (still : List String) (ps : List DiscardedPhoto)
    → in_list k still ≡ false
    → in_list k (map kb (keep (λ p. in_list p.key_base still) ps)) ≡ false
in_list-keep_still k still [] h = refl
in_list-keep_still k still (p ∷ ps) h =
    ground (arith, str_eq_iff k p.key_base, in_list-keep_still k still ps h)

-- Edits by other requests leave the rows of a key as they are.
abbrev pub Leaves : String → (Store → Store) → Type 0
Leaves k edits = (s : Store) → rows_of k (edits s).photos ≡ rows_of k s.photos

module _ {R : Type 0} (c : Client R) (thumb_path : String → String) (k : String) where
  pub erase_rows-spares :
      (env : Env) (ps : List DiscardedPhoto) (w : World R) (evs : List Event)
      → Leaves k env.late_edits
      → in_list k (map kb ps) ≡ false
      → rows_of k (world_of (erase_rows c thumb_path env ps w evs)).store.photos
        ≡ rows_of k w.store.photos
  unfolding erase_rows
  erase_rows-spares env [] w evs late h = refl
  erase_rows-spares env (p ∷ ps) w evs late h = ground (
    arith,
    late w.store,
    delete_photos-spares k env.rows_fault (map kb (p ∷ ps)) (env.late_edits w.store) h,
  )

  erase_objects-spares :
      (env : Env) (ps : List DiscardedPhoto) (w : World R) (evs : List Event)
      → Leaves k env.late_edits
      → in_list k (map kb ps) ≡ false
      → rows_of k (world_of (erase_objects c thumb_path env ps w evs)).store.photos
        ≡ rows_of k w.store.photos
  unfolding erase_objects
  erase_objects-spares env [] w evs late h = refl
  erase_objects-spares env (p ∷ ps) w evs late h =
      let del = delete_objects c (batch_keys (p ∷ ps)) w.remote in
      let live = keep (was_erased del.failed) (p ∷ ps) in
      let w' : World R = record w { remote = del.remote } in
      ground (
        arith,
        erase_rows-spares env live w' (evs ++ refusal_events del.failed (p ∷ ps)) late
            (in_list-map-keep k kb (was_erased del.failed) (p ∷ ps) h),
      )

  -- A batch whose re-check does not see the key rejected leaves its rows alone.
  pub purge_batch-spares :
      (env : Env) (ps : List DiscardedPhoto) (w : World R)
      → Leaves k env.edits
      → Leaves k env.late_edits
      → rejected k w.store ≡ false
      → rows_of k (world_of (purge_batch c thumb_path env ps w)).store.photos
        ≡ rows_of k w.store.photos
  unfolding purge_batch
  purge_batch-spares env ps w early late h =
      elim (Sum-cases (still_discarded env.still_fault (map kb ps) (env.edits w.store))) [
        | inl (still, e) ↦
            rw (e, purge_batch)
              (erase_objects-spares env (keep (λ p. in_list p.key_base still) ps)
                  (record w { store = env.edits w.store }) (skip_events still ps) late
                  (in_list-keep_still k still ps (
                    ground (
                      arith,
                      early w.store,
                      still_discarded-in_list k env.still_fault (map kb ps) (env.edits w.store)
                          still e,
                    )))
                ∙ early w.store)
        | inr (m, e) ↦ rw (e, purge_batch) (early w.store)
      ]

  purge_loop-spares :
      (env : ℕ → Env) (at_end : Bool) (i : ℕ) (bs : List (List DiscardedPhoto)) (w : World R)
      → ((j : ℕ) → Leaves k (env j).edits)
      → ((j : ℕ) → Leaves k (env j).late_edits)
      → rejected k w.store ≡ false
      → rows_of k (purge_loop c thumb_path env at_end i bs w).0.store.photos
        ≡ rows_of k w.store.photos
  unfolding purge_loop
  purge_loop-spares env at_end i [] w early late h = refl
  purge_loop-spares env at_end i (b ∷ bs) w early late h = elim (Bool-cases (env i).is_cancelled) [
    | inl e ↦ rw e refl
    | inr e ↦ rw e (
        go (purge_batch c thumb_path (env i) b w)
          (purge_batch-spares (env i) b w (early i) (late i) h)
          (λ w' h'. purge_loop-spares env at_end (suc i) bs w' early late h'))
  ]
    where
      go :
          (r : Round R)
          → rows_of k (world_of r).store.photos ≡ rows_of k w.store.photos
          → ((w' : World R)
              → rejected k w'.store ≡ false
              → rows_of k (purge_loop c thumb_path env at_end (suc i) bs w').0.store.photos
                ≡ rows_of k w'.store.photos)
          → rows_of k
              (after_round r
                (λ w'. purge_loop c thumb_path env at_end (suc i) bs w')).0.store.photos
            ≡ rows_of k w.store.photos
      go (next w' evs) e rec = rec w' (ap (any is_discarded) e ∙ h) ∙ e
      go (stop w' evs) e rec = e

-- Whatever the client, the failures and the cancellations are: a key that no row marks as rejected
-- when the purge begins, and whose rows no other request edits, keeps its rows as they are.
pub purge-spares :
    {R : Type 0} (c : Client R) (thumb_path : String → String) (k : String) (opened : Option String)
    (env : ℕ → Env) (at_end : Bool) (ps : List DiscardedPhoto) (w : World R)
    → ((j : ℕ) → Leaves k (env j).edits)
    → ((j : ℕ) → Leaves k (env j).late_edits)
    → rejected k w.store ≡ false
    → rows_of k (purge c thumb_path opened env at_end ps w).0.store.photos
      ≡ rows_of k w.store.photos
unfolding purge
purge-spares c thumb_path k (some e) env at_end ps w early late h = refl
purge-spares c thumb_path k none env at_end ps w early late h =
    purge_loop-spares c thumb_path k env at_end 0 (chunks purge_batch_size ps) w early late h
