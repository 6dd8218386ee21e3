-- ===== src/Purge/Objects.antt =====
-- worker/purge.go: a row goes only after the objects of its photo.
use Prim.Native.String.{◌++◌ as str_append}
use fragments.Base.{
  ℕ, suc, String, Bool, true, false, ◌≡◌, All-chunks, refl, sym, ◌∙◌, ap, Option, none, some, List,
  [], ◌∷◌, ◌++◌, map, arith, ◌⊎◌, inl, inr, if◌then◌else◌, keep, All, All-keep, in_list,
  in_list-map-keep, Option-cases, Bool-cases, Sum-cases, chunks,
}
use fragments.Store.Rows.{rows_of}
use fragments.Store.Discard.{DiscardedPhoto, still_discarded}
use fragments.Status.{Event}
use fragments.Bucket.Delete.{Client, IsS3, delete_objects, Deleted}
use fragments.Bucket.Gone.{delete_objects-erases, delete_objects-absent}
use fragments.Purge.{
  World, Env, Round, next, stop, kb, photo_keys, batch_keys, was_erased, refusal_events,
  skip_events, fail_all, erase_rows, erase_objects, purge_batch, purge_loop, after_round, purge,
  purge_batch_size,
}
use fragments.Purge.Safety.{world_of, Leaves, erase_rows-spares}
use fragments.Purge.Reports.{Owns, in_list-batch_keys, in_list-keep_reported}

module _ {R : Type 0} (c : Client R) (s3 : IsS3 c) (thumb_path : String → String)
    (k x : String) where
  erase_rows-remote :
      (env : Env) (ps : List DiscardedPhoto) (w : World R) (evs : List Event)
      → (world_of (erase_rows c thumb_path env ps w evs)).remote ≡ w.remote
  unfolding erase_rows
  erase_rows-remote env [] w evs = refl
  erase_rows-remote env (p ∷ ps) w evs = ground arith

  erase_objects-absent :
      (env : Env) (ps : List DiscardedPhoto) (w : World R) (evs : List Event)
      → c.has x w.remote ≡ false
      → c.has x (world_of (erase_objects c thumb_path env ps w evs)).remote ≡ false
  unfolding erase_objects
  erase_objects-absent env [] w evs h = h
  erase_objects-absent env (p ∷ ps) w evs h =
      let del = delete_objects c (batch_keys (p ∷ ps)) w.remote in
      ground (
        arith,
        delete_objects-absent c s3 x (batch_keys (p ∷ ps)) w.remote h,
        erase_rows-remote env (keep (was_erased del.failed) (p ∷ ps))
            (record w { remote = del.remote }) (evs ++ refusal_events del.failed (p ∷ ps)),
      )

  purge_batch-absent :
      (env : Env) (ps : List DiscardedPhoto) (w : World R)
      → c.has x w.remote ≡ false
      → c.has x (world_of (purge_batch c thumb_path env ps w)).remote ≡ false
  unfolding purge_batch
  purge_batch-absent env ps w h =
      elim (Sum-cases (still_discarded env.still_fault (map kb ps) (env.edits w.store))) [
        | inl (still, e) ↦
            rw (e, purge_batch)
              (erase_objects-absent env (keep (λ p. in_list p.key_base still) ps)
                (record w { store = env.edits w.store }) (skip_events still ps) h)
        | inr (m, e) ↦ rw (e, purge_batch) h
      ]

  erase_objects-keeps :
      (env : Env) (ps : List DiscardedPhoto) (w : World R) (evs : List Event)
      → Leaves k env.late_edits
      → Owns k x ps
      → c.has x (world_of (erase_objects c thumb_path env ps w evs)).remote ≡ true
      → rows_of k (world_of (erase_objects c thumb_path env ps w evs)).store.photos
        ≡ rows_of k w.store.photos
  unfolding erase_objects
  erase_objects-keeps env [] w evs late own h = refl
  erase_objects-keeps env (p ∷ ps) w evs late own h =
      elim (Option-cases (delete_objects c (batch_keys (p ∷ ps)) w.remote).fatal) [
        | inr (m, e) ↦ rw (e, erase_objects) (stopped m (Bool-cases env.is_aborted))
        | inl e ↦
            rw (e, erase_objects)
              (erase_rows-spares c thumb_path k env live w' evs' late
                (elim (Bool-cases (in_list k (map kb (p ∷ ps)))) [
                  | inr out ↦ in_list-map-keep k kb (was_erased del.failed) (p ∷ ps) out
                  | inl listed ↦
                      in_list-keep_reported k x del.failed (p ∷ ps)
                        (delete_objects-erases c s3 x (batch_keys (p ∷ ps)) w.remote e
                          (in_list-batch_keys k x (p ∷ ps) own listed)
                          (ap (c.has x) (sym (erase_rows-remote env live w' evs'))
                            ∙ (rw (e, erase_objects) at h)))
                        own
                ]))
      ]
    where
      del : Deleted R
      del = delete_objects c (batch_keys (p ∷ ps)) w.remote

      live : List DiscardedPhoto
      live = keep (was_erased del.failed) (p ∷ ps)

      w' : World R
      w' = record w { remote = del.remote }

      evs' : List Event
      evs' = evs ++ refusal_events del.failed (p ∷ ps)

      stopped :
          (m : String)
          → (env.is_aborted ≡ true) ⊎ (env.is_aborted ≡ false)
          → rows_of k
              (world_of (
                if env.is_aborted
                then stop w' evs
                else next w' (evs ++ fail_all (str_append "s3: " m) (p ∷ ps)))).store.photos
            ≡ rows_of k w.store.photos
      stopped m (inl a) = rw a refl
      stopped m (inr a) = rw a refl

  purge_batch-keeps :
      (env : Env) (ps : List DiscardedPhoto) (w : World R)
      → Leaves k env.edits
      → Leaves k env.late_edits
      → Owns k x ps
      → c.has x (world_of (purge_batch c thumb_path env ps w)).remote ≡ true
      → rows_of k (world_of (purge_batch c thumb_path env ps w)).store.photos
        ≡ rows_of k w.store.photos
  unfolding purge_batch
  purge_batch-keeps env ps w early late own h =
      elim (Sum-cases (still_discarded env.still_fault (map kb ps) (env.edits w.store))) [
        | inl (still, e) ↦
            rw (e, purge_batch)
              (erase_objects-keeps env (keep (λ p. in_list p.key_base still) ps)
                  (record w { store = env.edits w.store }) (skip_events still ps) late
                  (All-keep (λ p. p.key_base ≡ k → in_list x (photo_keys p) ≡ true)
                    (λ p. in_list p.key_base still) ps own)
                  (rw (e, purge_batch) at h)
                ∙ early w.store)
        | inr (m, e) ↦ rw (e, purge_batch) (early w.store)
      ]

  purge_loop-absent :
      (env : ℕ → Env) (at_end : Bool) (i : ℕ) (bs : List (List DiscardedPhoto)) (w : World R)
      → c.has x w.remote ≡ false
      → c.has x (purge_loop c thumb_path env at_end i bs w).0.remote ≡ false
  unfolding purge_loop
  purge_loop-absent env at_end i [] w h = h
  purge_loop-absent env at_end i (b ∷ bs) w h = elim (Bool-cases (env i).is_cancelled) [
    | inl e ↦ rw e h
    | inr e ↦ rw e (
        go (purge_batch c thumb_path (env i) b w) (purge_batch-absent (env i) b w h)
          (purge_loop-absent env at_end (suc i) bs))
  ]
    where
      go :
          (r : Round R)
          → c.has x (world_of r).remote ≡ false
          → ((w' : World R)
              → c.has x w'.remote ≡ false
              → c.has x (purge_loop c thumb_path env at_end (suc i) bs w').0.remote ≡ false)
          → c.has x
              (after_round r (λ w'. purge_loop c thumb_path env at_end (suc i) bs w')).0.remote
            ≡ false
      go (next w' evs) e rec = rec w' e
      go (stop w' evs) e rec = e

  purge_loop-keeps :
      (env : ℕ → Env) (at_end : Bool) (i : ℕ) (bs : List (List DiscardedPhoto)) (w : World R)
      → ((j : ℕ) → Leaves k (env j).edits)
      → ((j : ℕ) → Leaves k (env j).late_edits)
      → All (Owns k x) bs
      → c.has x (purge_loop c thumb_path env at_end i bs w).0.remote ≡ true
      → rows_of k (purge_loop c thumb_path env at_end i bs w).0.store.photos
        ≡ rows_of k w.store.photos
  unfolding purge_loop
  purge_loop-keeps env at_end i [] w early late own h = refl
  purge_loop-keeps env at_end i (b ∷ bs) w early late own h =
      elim (Bool-cases (env i).is_cancelled) [
        | inl e ↦ rw e refl
        | inr e ↦ rw e (
            go (purge_batch c thumb_path (env i) b w)
              (purge_batch-keeps (env i) b w (early i) (late i) own.0)
              (λ w'. purge_loop-keeps env at_end (suc i) bs w' early late own.1) (rw e at h))
      ]
    where
      go :
          (r : Round R)
          → (c.has x (world_of r).remote ≡ true
              → rows_of k (world_of r).store.photos ≡ rows_of k w.store.photos)
          → ((w' : World R)
              → c.has x (purge_loop c thumb_path env at_end (suc i) bs w').0.remote ≡ true
              → rows_of k (purge_loop c thumb_path env at_end (suc i) bs w').0.store.photos
                ≡ rows_of k w'.store.photos)
          → c.has x
              (after_round r (λ w'. purge_loop c thumb_path env at_end (suc i) bs w')).0.remote
            ≡ true
          → rows_of k
              (after_round r
                (λ w'. purge_loop c thumb_path env at_end (suc i) bs w')).0.store.photos
            ≡ rows_of k w.store.photos
      go (stop w' evs) e rec h' = e h'
      go (next w' evs) e rec h' = elim (Bool-cases (c.has x w'.remote)) [
        | inl there ↦ rec w' h' ∙ e there
        | inr gone ↦ absurd (cc (purge_loop-absent env at_end (suc i) bs w' gone, h'))
      ]

-- With a client that keeps S3's promises, and no other request that edits the rows of `k`: if an
-- object that every listed photo of key `k` owns is still in the bucket when the purge ends, the
-- rows of `k` are as they were before it.
pub purge-keeps :
    {R : Type 0} (c : Client R) (s3 : IsS3 c) (thumb_path : String → String) (k x : String)
    (opened : Option String) (env : ℕ → Env) (at_end : Bool) (ps : List DiscardedPhoto)
    (w : World R)
    → ((j : ℕ) → Leaves k (env j).edits)
    → ((j : ℕ) → Leaves k (env j).late_edits)
    → Owns k x ps
    → c.has x (purge c thumb_path opened env at_end ps w).0.remote ≡ true
    → rows_of k (purge c thumb_path opened env at_end ps w).0.store.photos
      ≡ rows_of k w.store.photos
unfolding purge
purge-keeps c s3 thumb_path k x (some e) env at_end ps w early late own h = refl
purge-keeps c s3 thumb_path k x none env at_end ps w early late own h =
    purge_loop-keeps c s3 thumb_path k x env at_end 0 (chunks purge_batch_size ps) w early late
      (All-chunks _ purge_batch_size ps own) h
