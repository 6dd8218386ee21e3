-- ===== src/Purge/Complete.antt =====
-- worker/purge.go: an undisturbed purge erases everything that is rejected.
use fragments.Base.{
  ℕ, suc, String, Bool, false, ◌≡◌, refl, ◌∙◌, ap, none, List, [], ◌∷◌, ◌++◌, map, map-append,
  arith, inl, str_eq_iff, if◌then◌else◌, keep, any, in_list, in_list-append, concat, chunks,
  concat-chunks, subst,
}
use fragments.Store.Rows.{Store, rows_of}
use fragments.Store.Select.{is_discarded}
use fragments.Store.Discard.{DiscardedPhoto, delete_photos}
use fragments.Store.Discard.Removal.{
  rejected, delete_photos-removes, still_discarded-in_list, delete_photos_total,
  still_discarded_total,
}
use fragments.Status.{Event, Phase, done}
use fragments.Bucket.Delete.{Client, DeleteError, Deleted, delete_loop, delete_objects}
use fragments.Purge.{
  World, Env, Round, next, kb, batch_keys, failed_message, refusal, was_erased, refusal_events,
  skip_events, done_events, remove_thumbs, erase_rows, erase_objects, purge_batch, purge_loop,
  purge, purge_batch_size,
}

-- Nothing disturbs the batch.
pub record IsQuiet (env : Env) : Type 0 where
  pub goes_on : env.is_cancelled ≡ false
  pub no_edit : (s : Store) → env.edits s ≡ s
  pub no_late_edit : (s : Store) → env.late_edits s ≡ s
  pub recheck_ok : (i : ℕ) → env.still_fault i ≡ none
  pub delete_ok : (i : ℕ) → env.rows_fault i ≡ none

-- The client answers every call and reports no key.
abbrev pub Answers : {R : Type 0} → Client R → Type 0
Answers {R} c = (ks : List String) (r : R) → (c.delete_call ks r).1 ≡ inl []

module _ {R : Type 0} (c : Client R) (ok : Answers c) where
  delete_loop-Answers :
      (bs : List (List String)) (r : R)
      → (r' : R) × (delete_loop c bs r [] ≡ record { remote = r'; failed = []; fatal = none })
  unfolding delete_loop
  delete_loop-Answers [] r = (r, refl)
  delete_loop-Answers (b ∷ bs) r =
      rw (ok b r, delete_loop) (delete_loop-Answers bs (c.delete_call b r).0)

  delete_objects-Answers :
      (ks : List String) (r : R)
      → (r' : R) × (delete_objects c ks r ≡ record { remote = r'; failed = []; fatal = none })
  unfolding delete_objects
  delete_objects-Answers ks r = delete_loop-Answers (chunks 1000 ks) r

keep_erased :
    (es : List DeleteError) (ps : List DiscardedPhoto) → es ≡ [] → keep (was_erased es) ps ≡ ps
unfolding refusal failed_message
keep_erased es [] h = refl
keep_erased es (p ∷ ps) h = ground (arith, keep_erased es ps h)

in_list-keep_still_iff :
    (k : String) (still : List String) (ps : List DiscardedPhoto)
    → in_list k (map kb (keep (λ p. in_list p.key_base still) ps))
      ≡ (if in_list k still then in_list k (map kb ps) else false)
in_list-keep_still_iff k still [] = ground arith
in_list-keep_still_iff k still (p ∷ ps) =
    ground (arith, str_eq_iff k p.key_base, in_list-keep_still_iff k still ps)

-- The round goes on, and has removed the rows of exactly the keys that pass the test.
abbrev Removes : {R : Type 0} → (String → Bool) → World R → Round R → Type 0
Removes {R} gone w r =
    (w' : World R) × (evs : List Event) × (r ≡ next w' evs)
    × ((k : String) → rows_of k w'.store.photos ≡ (if gone k then [] else rows_of k w.store.photos))

module _ {R : Type 0} (c : Client R) (ok : Answers c) (thumb_path : String → String) (env : Env)
    (q : IsQuiet env) where
  erase_rows-Removes :
      (ps : List DiscardedPhoto) (w : World R) (evs : List Event)
      → Removes (λ k. in_list k (map kb ps)) w (erase_rows c thumb_path env ps w evs)
  unfolding erase_rows
  erase_rows-Removes [] w evs = (w, evs, refl, λ k. refl)
  erase_rows-Removes (p ∷ ps) w evs =
      let ks = map kb (p ∷ ps) in
      let d = delete_photos env.rows_fault ks (env.late_edits w.store) in
      let fine : d.1 ≡ none =
        delete_photos_total env.rows_fault ks (env.late_edits w.store) q.delete_ok in
      (
        record w {
          store = d.0;
          thumbs = remove_thumbs env.stuck_file thumb_path (p ∷ ps) w.thumbs;
        },
        evs ++ done_events (p ∷ ps),
        rw (fine, erase_rows) refl,
        λ k.
            delete_photos-removes k env.rows_fault ks (env.late_edits w.store) fine
            ∙ ap (λ (s : Store). if in_list k ks then [] else rows_of k s.photos)
                (q.no_late_edit w.store),
      )

  erase_objects-Removes :
      (ps : List DiscardedPhoto) (w : World R) (evs : List Event)
      → Removes (λ k. in_list k (map kb ps)) w (erase_objects c thumb_path env ps w evs)
  unfolding erase_objects
  erase_objects-Removes [] w evs = (w, evs, refl, λ k. refl)
  erase_objects-Removes (p ∷ ps) w evs =
      let del = delete_objects c (batch_keys (p ∷ ps)) w.remote in
      let e = delete_objects-Answers c ok (batch_keys (p ∷ ps)) w.remote in
      rw (ap (λ (d : Deleted R). d.fatal) e.1, erase_objects)
        (rw (keep_erased del.failed (p ∷ ps) (ap (λ (d : Deleted R). d.failed) e.1)) (
          erase_rows-Removes (p ∷ ps) (record w { remote = del.remote })
            (evs ++ refusal_events del.failed (p ∷ ps))))

  purge_batch-Removes :
      (ps : List DiscardedPhoto) (w : World R)
      → Removes
          (λ k. if rejected k w.store then in_list k (map kb ps) else false)
          w
          (purge_batch c thumb_path env ps w)
  unfolding purge_batch
  purge_batch-Removes ps w =
      let (still, e) =
        still_discarded_total env.still_fault (map kb ps) (env.edits w.store) q.recheck_ok in
      let live = keep (λ p. in_list p.key_base still) ps in
      let w1 : World R = record w { store = env.edits w.store } in
      let (w', evs, done_next, gone) = erase_objects-Removes live w1 (skip_events still ps) in
      (
        w',
        evs,
        rw (e, purge_batch) done_next,
        λ k.
            gone k
            ∙ ap (λ (b : Bool). if b then [] else rows_of k (env.edits w.store).photos)
                (in_list-keep_still_iff k still ps)
            ∙ ground (
              arith,
              q.no_edit w.store,
              still_discarded-in_list k env.still_fault (map kb ps) (env.edits w.store) still e,
            ),
      )

module _ {R : Type 0} (c : Client R) (ok : Answers c) (thumb_path : String → String) (env : ℕ → Env)
    (q : (i : ℕ) → IsQuiet (env i)) (k : String) where
  abbrev Finishes : Bool → World R → World R × List Event × Phase → Type 0
  Finishes listed w r =
      (r.2 ≡ done)
      × (rows_of k r.0.store.photos ≡ (
          if rejected k w.store
          then (if listed then [] else rows_of k w.store.photos)
          else rows_of k w.store.photos))

  purge_loop-Finishes :
      (i : ℕ) (bs : List (List DiscardedPhoto)) (w : World R)
      → Finishes (in_list k (map kb (concat bs))) w (purge_loop c thumb_path env false i bs w)
  unfolding purge_loop
  purge_loop-Finishes i [] w = (refl, ground arith)
  purge_loop-Finishes i (b ∷ bs) w =
      let (w', evs, e, gone) = purge_batch-Removes c ok thumb_path (env i) (q i) b w in
      let rest = purge_loop-Finishes (suc i) bs w' in
      rw ((q i).goes_on, e)
        (
          rest.0,
          rest.1
              ∙ ground (
                arith,
                gone k,
                ap (any is_discarded) (gone k),
                map-append kb b (concat bs),
                in_list-append k (map kb b) (map kb (concat bs)),
              ),
        )

-- With a client that answers every call and no failure, cancellation or edit on the way, a purge
-- ends as done, and it has removed the rows of exactly the listed keys that are marked as rejected.
pub purge-completes :
    {R : Type 0} (c : Client R) (thumb_path : String → String) (env : ℕ → Env)
    (ps : List DiscardedPhoto) (w : World R) (k : String)
    → Answers c
    → ((i : ℕ) → IsQuiet (env i))
    → let r = purge c thumb_path none env false ps w in
      (r.2 ≡ done)
      × (rows_of k r.0.store.photos ≡ (
          if rejected k w.store
          then (if in_list k (map kb ps) then [] else rows_of k w.store.photos)
          else rows_of k w.store.photos))
unfolding purge
purge-completes c thumb_path env ps w k ok q =
    subst
      (λ (l : List DiscardedPhoto).
        Finishes c ok thumb_path env q k (in_list k (map kb l)) w
          (purge_loop c thumb_path env false 0 (chunks purge_batch_size ps) w))
      (concat-chunks purge_batch_size ps (omega arith))
      (purge_loop-Finishes c ok thumb_path env q k 0 (chunks purge_batch_size ps) w)
