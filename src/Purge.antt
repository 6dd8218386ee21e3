-- ===== src/Purge.antt =====
-- worker/purge.go: StartPurge's checks and the batch loop that erases S3 objects, thumbnails and rows.
pub mod Safety
pub mod Reports
pub mod Objects
pub mod Totals
pub mod Account
pub mod Complete
use Prim.Native.String.{◌++◌ as str_append}
use fragments.Base.{
  ℕ, zero, suc, ◌+◌, String, Bool, true, false, not, ◌≡◌, Option, none, some, List, [], ◌∷◌, ◌++◌,
  map, ◌⊎◌, inl, inr, str_eq, if◌then◌else◌, keep, in_list, chunks, length, ◌==◌,
}
use fragments.Store.Rows.{Store}
use fragments.Store.Discard.{DiscardedPhoto, list_discarded, still_discarded, delete_photos}
use fragments.Status.{
  Event, ev_phase, ev_item_done, ev_item_failed, ev_skip, Phase, purging, done, cancelled, error,
}
use fragments.Bucket.Delete.{Client, DeleteError, Deleted, delete_objects}

abbrev pub purge_batch_size : ℕ
purge_batch_size = 200

-- What a purge changes: the catalogue, the bucket, and the thumbnail files.
pub record World (R : Type 0) : Type 0 where
  pub store : Store
  pub remote : R
  pub thumbs : List String

-- What happens around one batch: whether the context is cancelled when the loop tests it and when a
-- delete call has failed, the edits that HTTP handlers make before the re-check and before the rows
-- are deleted, the database's faults at the two statements, and the files that os.Remove refuses.
pub record Env : Type 0 where
  pub is_cancelled : Bool
  pub edits : Store → Store
  pub still_fault : ℕ → Option String
  pub is_aborted : Bool
  pub stuck_file : String → Bool
  pub late_edits : Store → Store
  pub rows_fault : ℕ → Option String

abbrev pub kb : DiscardedPhoto → String
kb p = p.key_base

-- JPEG, and the RAW sibling when there is one.
unfoldable pub photo_keys : DiscardedPhoto → List String
photo_keys p = if str_eq p.raf_key "" then p.jpeg_key ∷ [] else p.jpeg_key ∷ p.raf_key ∷ []

unfoldable pub batch_keys : List DiscardedPhoto → List String
unfolding photo_keys
batch_keys [] = []
batch_keys (p ∷ ps) = photo_keys p ++ batch_keys ps

-- failedKeys[key]; of two reports for one key the later stays in the map.
unfoldable pub failed_message : String → List DeleteError → Option String
failed_message k [] = none
failed_message k (e ∷ es) = elim (failed_message k es) [
  | some m ↦ some m
  | none ↦ if str_eq e.key k then some e.message else none
]

abbrev s3_message : String → String → String
s3_message key m = str_append "s3 " (str_append key (str_append ": " m))

-- The event of a photo that one of its keys keeps alive, or none if both deletions went through.
unfoldable pub refusal : List DeleteError → DiscardedPhoto → Option String
unfolding failed_message
refusal es p = elim (failed_message p.jpeg_key es) [
  | some m ↦ some (s3_message p.jpeg_key m)
  | none ↦ if str_eq p.raf_key "" then none else (elim (failed_message p.raf_key es) [
    | some m ↦ some (s3_message p.raf_key m)
    | none ↦ none
  ])
]

abbrev pub was_erased : List DeleteError → DiscardedPhoto → Bool
was_erased es p = elim (refusal es p) [ none ↦ true | some _ ↦ false ]

unfoldable pub fail_all : String → List DiscardedPhoto → List Event
fail_all m [] = []
fail_all m (p ∷ ps) = ev_item_failed p.key_base m ∷ fail_all m ps

unfoldable pub refusal_events : List DeleteError → List DiscardedPhoto → List Event
refusal_events es [] = []
refusal_events es (p ∷ ps) = elim (refusal es p) [
  | some m ↦ ev_item_failed p.key_base m ∷ refusal_events es ps
  | none ↦ refusal_events es ps
]

unfoldable pub skip_events : List String → List DiscardedPhoto → List Event
skip_events still [] = []
skip_events still (p ∷ ps) =
    if in_list p.key_base still
    then skip_events still ps
    else ev_skip p.key_base ∷ skip_events still ps

unfoldable pub done_events : List DiscardedPhoto → List Event
done_events [] = []
done_events (p ∷ ps) = ev_item_done p.key_base (p.jpeg_size + p.raf_size) ∷ done_events ps

-- removeThumb: an empty path is no file, a missing file is no error, a refusal is logged only.
unfoldable pub remove_thumb : (String → Bool) → String → List String → List String
remove_thumb stuck path files =
    if str_eq path ""
    then files
    else (if stuck path then files else keep (λ f. not (str_eq f path)) files)

unfoldable pub remove_thumbs :
    (String → Bool) → (String → String) → List DiscardedPhoto → List String → List String
unfolding remove_thumb
remove_thumbs stuck thumb_path [] files = files
remove_thumbs stuck thumb_path (p ∷ ps) files =
    remove_thumbs stuck thumb_path ps
      (remove_thumb stuck p.thumb_path (remove_thumb stuck (thumb_path p.key_base) files))

-- One round of the loop: go on to the next batch, or finish as cancelled.
pub data Round (R : Type 0) : Type 0 where
  next : World R → List Event → Round R
  stop : World R → List Event → Round R

-- The rest of the loop runs on the world that the round leaves, unless the round ends it.
abbrev pub after_round :
    {R : Type 0} → Round R → (World R → World R × List Event × Phase) → World R × List Event × Phase
after_round (stop w evs) rest = (w, evs, cancelled)
after_round (next w evs) rest = ((rest w).0, evs ++ (rest w).1, (rest w).2)

-- `thumb_path` is Cataloger.ThumbPath.
module _ {R : Type 0} (c : Client R) (thumb_path : String → String) where
  -- Steps 2 and 3, for the photos whose objects are gone.
  unfoldable pub erase_rows : Env → List DiscardedPhoto → World R → List Event → Round R
  unfolding remove_thumbs fail_all done_events
  erase_rows env [] w evs = next w evs
  erase_rows env (p ∷ ps) w evs =
      let thumbs = remove_thumbs env.stuck_file thumb_path (p ∷ ps) w.thumbs in
      let deleted = delete_photos env.rows_fault (map kb (p ∷ ps)) (env.late_edits w.store) in
      let w' = record w { store = deleted.0; thumbs = thumbs } in
      elim (deleted.1) [
        | some e ↦ next w' (evs ++ fail_all (str_append "store: " e) (p ∷ ps))
        | none ↦ next w' (evs ++ done_events (p ∷ ps))
      ]

  -- Step 1, for the photos still rejected.
  unfoldable pub erase_objects : Env → List DiscardedPhoto → World R → List Event → Round R
  unfolding erase_rows batch_keys fail_all refusal_events
  erase_objects env [] w evs = next w evs
  erase_objects env (p ∷ ps) w evs =
      let del = delete_objects c (batch_keys (p ∷ ps)) w.remote in
      let w' = record w { remote = del.remote } in
      elim del.fatal [
        | some e ↦
            if env.is_aborted
            then stop w' evs
            else next w' (evs ++ fail_all (str_append "s3: " e) (p ∷ ps))
        | none ↦
            erase_rows env (keep (was_erased del.failed) (p ∷ ps)) w'
              (evs ++ refusal_events del.failed (p ∷ ps))
      ]

  unfoldable pub purge_batch : Env → List DiscardedPhoto → World R → Round R
  unfolding erase_objects skip_events fail_all
  purge_batch env batch w =
      let w' = record w { store = env.edits w.store } in
      elim (still_discarded env.still_fault (map kb batch) w'.store) [
        | inr e ↦ next w' (fail_all (str_append "store: " e) batch)
        | inl still ↦
            erase_objects env (keep (λ p. in_list p.key_base still) batch) w'
              (skip_events still batch)
      ]

  -- The loop; `env i` is what happens around batch i, and `at_end` the last test of the context.
  unfoldable pub purge_loop :
      (ℕ → Env) → Bool → ℕ → List (List DiscardedPhoto) → World R → World R × List Event × Phase
  unfolding purge_batch
  purge_loop env at_end i [] w = (w, [], if at_end then cancelled else done)
  purge_loop env at_end i (b ∷ bs) w =
      if (env i).is_cancelled
      then (w, [], cancelled)
      else after_round (purge_batch (env i) b w) (λ w'. purge_loop env at_end (suc i) bs w')

  -- The whole run, its phase events included; `opened` is what OpenBucket answers.
  unfoldable pub purge :
      Option String
      → (ℕ → Env)
      → Bool
      → List DiscardedPhoto
      → World R
      → World R × List Event × Phase
  unfolding purge_loop chunks
  purge (some e) env at_end photos w = (w, ev_phase purging ∷ ev_phase error ∷ [], error)
  purge none env at_end photos w =
      let r = purge_loop env at_end 0 (chunks purge_batch_size photos) w in
      (r.0, ev_phase purging ∷ r.1 ++ ev_phase r.2 ∷ [], r.2)

-- StartPurge: one run at a time, and nothing is deleted unless the count is the one displayed.
pub data Start : Type 0 where
  run_active : Start
  list_failed : String → Start
  count_mismatch : ℕ → ℕ → Start
  begun : List DiscardedPhoto → Start

unfoldable pub start_purge : Bool → Option String → ℕ → Store → Start
start_purge running fault expected s =
    let photos = list_discarded s in
    if running then run_active else (elim fault [
      | some e ↦ list_failed e
      | none ↦
          if length photos == expected
          then begun photos
          else count_mismatch expected (length photos)
    ])
