-- ===== src/Scan.antt =====
-- catalog/catalog.go: the sequential catalogue run, its skip test and the reconciliation with a
-- listing. What needs the bucket, an EXIF parser or an image codec is a parameter (`Codec`).
pub mod Reconcile
pub mod Listed
pub mod Account
pub mod Again
use Prim.Native.String.{◌++◌ as str_append}
use text.Mathlib.Text.{starts_with}
use fragments.Base.{
  ℕ, zero, suc, ◌+◌, String, Bool, true, false, not, ◌&&◌, ◌||◌, Option, none, some, List, [], ◌∷◌,
  map, ◌⊎◌, inl, inr, ℤ, pos, negsuc, str_eq, if◌then◌else◌, ltb, keep, in_list, length, take, ◌==◌,
}
use fragments.Store.Rows.{Photo, Metadata, ObjectRef, Store, upsert, existing_etags, raf_etag_of}
use fragments.Store.Discard.{KeyRef, bucket_key_refs, delete_photos}

-- The catalogue and the thumbnail files on disk.
pub record Disk : Type 0 where
  pub store : Store
  pub thumbs : List String

-- The steps of ProcessNoStore: the JPEG's bytes or an error, their metadata (with or without a
-- warning that is only logged), and the error of rendering the thumbnail, if any.
pub record Codec : Type 0 where
  pub fetch : Photo → List ℕ ⊎ String
  pub extract : List ℕ → Metadata
  pub render : List ℕ → Metadata → Option String

-- What else a run meets at photo i: a cancelled context, and the database's faults at the skip
-- check and at the upsert; and the clock.
pub record Env : Type 0 where
  pub is_cancelled : ℕ → Bool
  pub skip_fault : ℕ → Option String
  pub upsert_fault : ℕ → Option String
  pub now : ℕ → String

pub record RunOptions : Type 0 where
  pub limit : ℤ
  pub force : Bool
  pub prefix : String

pub record RunStats : Type 0 where
  pub total : ℕ
  pub processed : ℕ
  pub skipped : ℕ
  pub failed : ℕ
  pub removed : ℕ

-- opts.Limit > 0 && len(photos) > opts.Limit
unfoldable pub limit_photos : ℤ → List Photo → List Photo
limit_photos (negsuc _) ps = ps
limit_photos (pos n) ps = if ltb 0 n && ltb n (length ps) then take n ps else ps

abbrev pub listed_raf : Option ObjectRef → String
listed_raf none = ""
listed_raf (some r) = r.etag

abbrev pub file_exists : String → List String → Bool
file_exists path files = in_list path files

abbrev pub is_gone : List String → String → KeyRef → Bool
is_gone present prefix r = starts_with r.jpeg_key prefix && not (in_list r.key_base present)

abbrev pub effective_prefix : String → String → String
effective_prefix config prefix = if str_eq prefix "" then config else prefix

-- `thumb_path` is Cataloger.thumbPath.
module _ (thumb_path : String → String) where
  -- The answer when the database answers.
  unfoldable pub is_unchanged : Photo → Disk → Bool
  is_unchanged p d = elim (existing_etags p.key_base d.store) [
    | none ↦ false
    | some (jpeg_etag, raf_etag) ↦
        if str_eq jpeg_etag "" || not (str_eq jpeg_etag p.jpeg.etag)
        then false
        else (if not (str_eq (listed_raf p.raf) raf_etag)
            then false
            else file_exists (thumb_path p.key_base) d.thumbs)
  ]

  unfoldable pub should_skip : Option String → Bool → Photo → Disk → Bool ⊎ String
  unfolding is_unchanged
  should_skip fault true p d = inl false
  should_skip (some e) false p d = inr e
  should_skip none false p d = inl (is_unchanged p d)

  -- The photo with its metadata, its thumbnail on disk; or the error of the first step that fails.
  unfoldable pub process_no_store : Codec → Photo → List String → (Photo × List String) ⊎ String
  process_no_store codec p thumbs = elim (codec.fetch p) [
    | inr e ↦ inr (str_append "fetch jpeg: " e)
    | inl bytes ↦ elim (codec.render bytes (codec.extract bytes)) [
      | some e ↦ inr (str_append "thumbnail: " e)
      | none ↦ inl (
        record p { thumb_path = thumb_path p.key_base; meta = codec.extract bytes },
        thumb_path p.key_base ∷ thumbs,
      )
    ]
  ]

  unfoldable pub process_one : Codec → Option String → String → Photo → Disk → Disk × Option String
  unfolding process_no_store
  process_one codec fault now p d = elim (process_no_store codec p d.thumbs) [
    | inr e ↦ (d, some e)
    | inl (p', thumbs) ↦ elim fault [
      | some e ↦ (record d { thumbs = thumbs }, some e)
      | none ↦ (record { store = upsert p' now d.store; thumbs = thumbs }, none)
    ]
  ]

  -- The loop over the photos: the disk, the counters, and the error that ends it early.
  unfoldable pub run_loop :
      Codec → Env → Bool → ℕ → List Photo → Disk → RunStats → Disk × RunStats × Option String
  unfolding should_skip process_one
  run_loop codec env force i [] d stats = (d, stats, none)
  run_loop codec env force i (p ∷ ps) d stats =
      if env.is_cancelled i
      then (d, stats, some "context canceled")
      else (elim (should_skip (env.skip_fault i) force p d) [
        | inr e ↦ (d, stats, some e)
        | inl true ↦
            run_loop codec env force (suc i) ps d (record stats { skipped = suc stats.skipped })
        | inl false ↦
            (let made = process_one codec (env.upsert_fault i) (env.now i) p d in
              run_loop codec env force (suc i) ps made.0 (elim made.1 [
                | some _ ↦ record stats { failed = suc stats.failed }
                | none ↦ record stats { processed = suc stats.processed }
              ]))
      ])

  unfoldable pub run :
      Codec → Env → RunOptions → List Photo → Disk → Disk × RunStats × Option String
  unfolding run_loop limit_photos
  run codec env opts photos d =
      let ps = limit_photos opts.limit photos in
      run_loop codec env opts.force 0 ps d
        (record { total = length ps; processed = 0; skipped = 0; failed = 0; removed = 0 })

  -- removeThumbFile: a file that os.Remove refuses stays, and is only logged.
  unfoldable pub remove_thumb_file : (String → Bool) → String → List String → List String
  remove_thumb_file stuck path files =
      if str_eq path ""
      then files
      else (if stuck path then files else keep (λ f. not (str_eq f path)) files)

  unfoldable pub remove_thumb_files : (String → Bool) → List KeyRef → List String → List String
  unfolding remove_thumb_file
  remove_thumb_files stuck [] files = files
  remove_thumb_files stuck (r ∷ rs) files =
      remove_thumb_files stuck rs (
        remove_thumb_file stuck r.thumb_path
          (remove_thumb_file stuck (thumb_path r.key_base) files))

  -- The rows whose objects a complete listing no longer shows; the answer is their number.
  unfoldable pub reconcile_missing :
      String
      → (ℕ → Option String)
      → (String → Bool)
      → List String
      → String
      → Disk
      → Disk × (ℕ ⊎ String)
  unfolding remove_thumb_files
  reconcile_missing config fault stuck [] prefix d = (d, inl 0)
  reconcile_missing config fault stuck (b ∷ bs) prefix d =
      let gone =
        keep (is_gone (b ∷ bs) (effective_prefix config prefix)) (bucket_key_refs d.store) in
      let deleted = delete_photos fault (map (λ r. r.key_base) gone) d.store in
      let d' : Disk = record {
        store = deleted.0;
        thumbs = remove_thumb_files stuck gone d.thumbs;
      } in
      if length gone == 0 then (d, inl 0) else (elim (deleted.1) [
        | some e ↦ (record d { store = deleted.0 }, inr e)
        | none ↦ (d', inl (length gone))
      ])
