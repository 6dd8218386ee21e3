-- ===== src/Store/Discard.antt =====
-- catalog/query.go: the discard pile (ListDiscarded, StillDiscarded, DiscardedSummary), the rows that
-- stand for bucket objects (BucketKeyRefs), and DeletePhotos with its cascade.
pub mod Removal
use Prim.Native.Nat.{Ordering}
use Prim.Native.String.{compare, ◌++◌ as str_append}
use fragments.Base.{
  ℕ, zero, suc, ◌+◌, String, Bool, true, false, not, Option, none, some, List, [], ◌∷◌, ◌++◌, map,
  if◌then◌else◌, keep, any, in_list, chunks, length, leb, ◌&&◌, codes, ◌==◌, ◌⊎◌, inl, inr,
}
use fragments.Store.Rows.{Row, Store, Member}
use fragments.Store.Select.{is_discarded}

pub record DiscardedPhoto : Type 0 where
  pub key_base : String
  pub jpeg_key : String
  pub jpeg_size : ℕ
  pub raf_key : String
  pub raf_size : ℕ
  pub thumb_path : String

abbrev pub coalesce_text : Option String → String
coalesce_text none = ""
coalesce_text (some s) = s

abbrev pub coalesce_size : Option ℕ → ℕ
coalesce_size none = 0
coalesce_size (some n) = n

unfoldable pub discarded_of : Row → DiscardedPhoto
discarded_of r = record {
  key_base = r.key_base;
  jpeg_key = r.jpeg.key;
  jpeg_size = r.jpeg.size;
  raf_key = coalesce_text r.raf_key;
  raf_size = coalesce_size r.raf_size;
  thumb_path = coalesce_text r.thumb_path;
}

-- ORDER BY key_base, byte by byte.
abbrev str_le : String → String → Bool
str_le a b = elim (compare a b) [ Ordering.gt ↦ false | _ ↦ true ]

insert_row : Row → List Row → List Row
insert_row r [] = r ∷ []
insert_row r (x ∷ xs) = if str_le r.key_base x.key_base then r ∷ x ∷ xs else x ∷ insert_row r xs

unfoldable pub order_rows : List Row → List Row
unfolding insert_row
order_rows [] = []
order_rows (r ∷ rs) = insert_row r (order_rows rs)

unfoldable pub list_discarded : Store → List DiscardedPhoto
unfolding order_rows discarded_of
list_discarded s = map discarded_of (order_rows (keep is_discarded s.photos))

-- The bind-variable cap that both chunked statements stay under.
abbrev pub chunk_size : ℕ
chunk_size = 500

-- SELECT key_base … WHERE decision = 'discard' AND key_base IN (batch)
abbrev select_still : List String → List Row → List String
select_still batch rows =
    map (λ r. r.key_base)
      (keep (λ r. if is_discarded r then in_list r.key_base batch else false) rows)

-- A query may fail: `fault i` is the driver's error at the i-th statement of the call.
still_loop :
    (ℕ → Option String) → ℕ → List (List String) → List String → Store → List String ⊎ String
still_loop fault i [] found s = inl found
still_loop fault i (b ∷ bs) found s = elim (fault i) [
  | some e ↦ inr (str_append "still discarded: " e)
  | none ↦ still_loop fault (suc i) bs (found ++ select_still b s.photos) s
]

-- The keys still marked, or the error.
unfoldable pub still_discarded : (ℕ → Option String) → List String → Store → List String ⊎ String
unfolding still_loop chunks
still_discarded fault ks s = still_loop fault 0 (chunks chunk_size ks) [] s

abbrev pub gone_ids : List String → List Row → List ℕ
gone_ids batch rows = map (λ r. r.id) (keep (λ r. in_list r.key_base batch) rows)

abbrev pub has_id : ℕ → List ℕ → Bool
has_id n [] = false
has_id n (m ∷ ms) = if n == m then true else has_id n ms

-- DELETE FROM photos WHERE key_base IN (batch), with ON DELETE CASCADE on album_photos.photo_id.
unfoldable pub delete_batch : List String → Store → Store
delete_batch batch s = record s {
  photos = keep (λ r. not (in_list r.key_base batch)) s.photos;
  album_photos = keep (λ m. not (has_id m.photo_id (gone_ids batch s.photos))) s.album_photos;
}

delete_loop : (ℕ → Option String) → ℕ → List (List String) → Store → Store × Option String
unfolding delete_batch
delete_loop fault i [] s = (s, none)
delete_loop fault i (b ∷ bs) s = elim (fault i) [
  | some e ↦ (s, some (str_append "delete photos: " e))
  | none ↦ delete_loop fault (suc i) bs (delete_batch b s)
]

-- An error leaves the batches before it deleted.
unfoldable pub delete_photos : (ℕ → Option String) → List String → Store → Store × Option String
unfolding delete_loop chunks
delete_photos fault ks s = delete_loop fault 0 (chunks chunk_size ks) s

pub record DiscardedSummary : Type 0 where
  pub count : ℕ
  pub objects : ℕ
  pub bytes : ℕ
  pub in_albums : ℕ

sum_rows : (Row → ℕ) → List Row → ℕ
sum_rows f [] = 0
sum_rows f (r ∷ rs) = f r + sum_rows f rs

-- COUNT(DISTINCT ap.photo_id) over the members that are discarded photos: each photo counts once.
unfoldable pub discarded_summary : Store → DiscardedSummary
unfolding sum_rows
discarded_summary s =
    let pile = keep is_discarded s.photos in
    record {
      count = length pile;
      objects = sum_rows (λ r. elim r.raf_key [ none ↦ 1 | some _ ↦ 2 ]) pile;
      bytes = sum_rows (λ r. r.jpeg.size + coalesce_size r.raf_size) pile;
      in_albums = length (keep (λ r. any (λ m. m.photo_id == r.id) s.album_photos) pile);
    }

pub record KeyRef : Type 0 where
  pub key_base : String
  pub jpeg_key : String
  pub thumb_path : String

unfoldable pub key_ref : Row → KeyRef
key_ref r = record {
  key_base = r.key_base;
  jpeg_key = r.jpeg.key;
  thumb_path = coalesce_text r.thumb_path;
}

-- WHERE jpeg_etag NOT LIKE 'local-%'
-- LIKE ignores the case of ASCII letters.
abbrev fold_case : ℕ → ℕ
fold_case c = if leb b'A' c && leb c b'Z' then c + 32 else c

abbrev pub like_prefix : List ℕ → List ℕ → Bool
like_prefix [] s = true
like_prefix (p ∷ ps) [] = false
like_prefix (p ∷ ps) (c ∷ s) = if fold_case c == p then like_prefix ps s else false

abbrev pub is_local : Row → Bool
is_local r = like_prefix (codes "local-") (codes r.jpeg.etag)

unfoldable pub bucket_key_refs : Store → List KeyRef
unfolding key_ref
bucket_key_refs s = map key_ref (keep (λ r. not (is_local r)) s.photos)
