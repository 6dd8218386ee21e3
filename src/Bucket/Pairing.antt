-- ===== src/Bucket/Pairing.antt =====
-- catalog/s3.go: what ListPhotos answers, and why the reconciliation of catalog/catalog.go spares the
-- captures of which the bucket still shows a file.
use fragments.Base.{
  String, Bool, true, false, ◌&&◌, ◌||◌, Option, none, some, List, [], ◌∷◌, ◌++◌, map, ◌⊎◌, inl,
  inr, ◌≡◌, refl, sym, ◌∙◌, keep, sort_by, All, All-sort_by, any, in_list, str_eq, str_eq_iff,
  arith, Bool-cases, subst,
}
use fragments.Store.Rows.{ObjectRef, Photo}
use fragments.Bucket.Keys.{safe_key, split_ext, upper_codes}
use fragments.Bucket.Listing.{
  Object, FileKind, kind_other, kind_jpeg, kind_raf, classify, object_ref, new_photo, with_file,
  add_file, base_of, kind_of, is_wanted, filed, list_object, list_objects, list_pages, key_order,
  has_jpeg, listed_answer, list_bucket,
}

abbrev is_kept : FileKind → Bool
is_kept kind_other = false
is_kept k = true

-- The object is a file of the capture with the base k.
abbrev pub shows : String → Object → Bool
shows k o = is_wanted o && is_kept (kind_of o) && str_eq k (base_of o)

abbrev pub bases : List Photo → List String
bases = map (λ p. p.key_base)

in_list-add_file :
    (k base : String) (kind : FileKind) (ref : ObjectRef) (ps : List Photo)
    → in_list k (bases (add_file base kind ref ps)) ≡ (in_list k (bases ps) || str_eq k base)
unfolding add_file new_photo
in_list-add_file k base kind_other ref [] = ground (arith)
in_list-add_file k base kind_jpeg ref [] = ground (arith)
in_list-add_file k base kind_raf ref [] = ground (arith)
in_list-add_file k base kind_other ref (p ∷ ps) = ground (
  arith,
  in_list-add_file k base kind_other ref ps,
  str_eq_iff base p.key_base,
  str_eq_iff k base,
  str_eq_iff k p.key_base,
)
in_list-add_file k base kind_jpeg ref (p ∷ ps) = ground (
  arith,
  in_list-add_file k base kind_jpeg ref ps,
  str_eq_iff base p.key_base,
  str_eq_iff k base,
  str_eq_iff k p.key_base,
)
in_list-add_file k base kind_raf ref (p ∷ ps) = ground (
  arith,
  in_list-add_file k base kind_raf ref ps,
  str_eq_iff base p.key_base,
  str_eq_iff k base,
  str_eq_iff k p.key_base,
)

in_list-filed :
    (k : String) (kind : FileKind) (o : Object) (ps : List Photo)
    → in_list k (bases (filed kind o ps))
      ≡ (in_list k (bases ps) || (is_kept kind && str_eq k (base_of o)))
in_list-filed k kind_other o ps = ground (arith)
in_list-filed k kind_jpeg o ps = in_list-add_file k (base_of o) kind_jpeg (object_ref o) ps
in_list-filed k kind_raf o ps = in_list-add_file k (base_of o) kind_raf (object_ref o) ps

in_list-list_object :
    (k : String) (o : Object) (ps : List Photo)
    → in_list k (bases (list_object o ps)) ≡ (in_list k (bases ps) || shows k o)
unfolding list_object
in_list-list_object k o ps = elim (Bool-cases (is_wanted o)) [
  | inl e ↦ rw e (in_list-filed k (kind_of o) o ps)
  | inr e ↦ rw e (ground (arith))
]

in_list-list_objects :
    (k : String) (os : List Object) (ps : List Photo)
    → in_list k (bases (list_objects os ps)) ≡ (in_list k (bases ps) || any (shows k) os)
unfolding list_objects
in_list-list_objects k [] ps = ground (arith)
in_list-list_objects k (o ∷ os) ps =
    in_list-list_objects k os (list_object o ps) ∙ ground (arith, in_list-list_object k o ps)

-- All objects of the pages.
abbrev pub objects_of : List (List Object ⊎ String) → List Object
objects_of [] = []
objects_of (inr e ∷ pages) = []
objects_of (inl os ∷ pages) = os ++ objects_of pages

any-append :
    {A : Type 0} (p : A → Bool) (xs ys : List A) → any p (xs ++ ys) ≡ (any p xs || any p ys)
any-append p [] ys = refl
any-append p (x ∷ xs) ys = ground (arith, any-append p xs ys)

in_list-list_pages :
    (k : String) (pages : List (List Object ⊎ String)) (ps qs : List Photo)
    → list_pages pages ps ≡ inl qs
    → in_list k (bases qs) ≡ (in_list k (bases ps) || any (shows k) (objects_of pages))
unfolding list_pages
in_list-list_pages k [] ps qs h = let e : ps ≡ qs = cc (h) in rw (sym e) (ground (arith))
in_list-list_pages k (inr e ∷ pages) ps qs h = absurd (cc (h))
in_list-list_pages k (inl os ∷ pages) ps qs h =
    in_list-list_pages k pages (list_objects os ps) qs h
    ∙ ground (arith, in_list-list_objects k os ps, any-append (shows k) os (objects_of pages))

-- A file of a capture: its key is safe, and is the base with an extension of its kind.
abbrev pub IsFile : FileKind → String → ObjectRef → Type 0
IsFile kind base ref =
    (safe_key ref.key ≡ true)
    × ((split_ext ref.key).0 ≡ base)
    × (classify (upper_codes (split_ext ref.key).1) ≡ kind)

abbrev IsRaw : String → Option ObjectRef → Type 0
IsRaw base none = Unit
IsRaw base (some r) = IsFile kind_raf base r

-- Each file that a capture has is its own.
abbrev IsPaired : Photo → Type 0
IsPaired p = ((p.jpeg.key ≡ "") ⊎ IsFile kind_jpeg p.key_base p.jpeg) × IsRaw p.key_base p.raf

with_file-IsPaired :
    (kind : FileKind) (ref : ObjectRef) (p : Photo)
    → IsFile kind p.key_base ref
    → IsPaired p
    → IsPaired (with_file kind ref p)
with_file-IsPaired kind_other ref p f h = h
with_file-IsPaired kind_jpeg ref p f h = (inr f, h.1)
with_file-IsPaired kind_raf ref p f h = (h.0, f)

new_photo-IsPaired : (base : String) → IsPaired (new_photo base)
unfolding new_photo
new_photo-IsPaired base = (inl refl, tt)

new_photo-key_base : (base : String) → (new_photo base).key_base ≡ base
unfolding new_photo
new_photo-key_base base = refl

add_file-IsPaired :
    (base : String) (kind : FileKind) (ref : ObjectRef) (ps : List Photo)
    → IsFile kind base ref
    → All IsPaired ps
    → All IsPaired (add_file base kind ref ps)
unfolding add_file
add_file-IsPaired base kind ref [] f h = (
  with_file-IsPaired kind ref (new_photo base)
      (subst (λ b. IsFile kind b ref) (sym (new_photo-key_base base)) f) (new_photo-IsPaired base),
  tt,
)
add_file-IsPaired base kind ref (p ∷ ps) f h = elim (Bool-cases (str_eq base p.key_base)) [
  | inl e ↦ rw e (
    with_file-IsPaired kind ref p
        (subst (λ b. IsFile kind b ref) ((str_eq_iff base p.key_base).0 e) f) h.0,
    h.1,
  )
  | inr e ↦ rw e (h.0, add_file-IsPaired base kind ref ps f h.1)
]

filed-IsPaired :
    (kind : FileKind) (o : Object) (ps : List Photo)
    → kind_of o ≡ kind
    → safe_key o.key ≡ true
    → All IsPaired ps
    → All IsPaired (filed kind o ps)
unfolding object_ref
filed-IsPaired kind_other o ps e f h = h
filed-IsPaired kind_jpeg o ps e f h =
    add_file-IsPaired (base_of o) kind_jpeg (object_ref o) ps (f, refl, e) h
filed-IsPaired kind_raf o ps e f h =
    add_file-IsPaired (base_of o) kind_raf (object_ref o) ps (f, refl, e) h

list_objects-IsPaired :
    (os : List Object) (ps : List Photo) → All IsPaired ps → All IsPaired (list_objects os ps)
unfolding list_objects list_object
list_objects-IsPaired [] ps h = h
list_objects-IsPaired (o ∷ os) ps h = elim (Bool-cases (is_wanted o)) [
  | inl e ↦ rw e (
      list_objects-IsPaired os (filed (kind_of o) o ps)
        (filed-IsPaired (kind_of o) o ps refl (ground (arith)) h))
  | inr e ↦ rw e (list_objects-IsPaired os ps h)
]

list_pages-IsPaired :
    (pages : List (List Object ⊎ String)) (ps qs : List Photo)
    → list_pages pages ps ≡ inl qs
    → All IsPaired ps
    → All IsPaired qs
unfolding list_pages
list_pages-IsPaired [] ps qs h a = let e : ps ≡ qs = cc (h) in subst (All IsPaired) e a
list_pages-IsPaired (inr e ∷ pages) ps qs h a = absurd (cc (h))
list_pages-IsPaired (inl os ∷ pages) ps qs h a =
    list_pages-IsPaired pages (list_objects os ps) qs h (list_objects-IsPaired os ps a)

-- A listed capture has a JPEG, and it and the RAW file, if there is one, are its own.
abbrev pub IsCapture : Photo → Type 0
IsCapture p = IsFile kind_jpeg p.key_base p.jpeg × IsRaw p.key_base p.raf

kept-IsCapture : (ps : List Photo) → All IsPaired ps → All IsCapture (keep has_jpeg ps)
kept-IsCapture [] h = tt
kept-IsCapture (p ∷ ps) h = elim (Bool-cases (has_jpeg p)) [
  | inl e ↦
      rw e
        (elim h.0.0 [ inl z ↦ absurd (cc (rw z at e)) | inr f ↦ (f, h.0.1) ], kept-IsCapture ps h.1)
  | inr e ↦ rw e (kept-IsCapture ps h.1)
]

listed_answer-lists :
    (pages : List (List Object ⊎ String)) (r : List Photo ⊎ String) (photos : List Photo)
    (present : List String) (k : String)
    → list_pages pages [] ≡ r
    → listed_answer r ≡ inl (photos, present)
    → All IsCapture photos × (in_list k present ≡ any (shows k) (objects_of pages))
listed_answer-lists pages (inr e) photos present k h g = absurd (cc (g))
listed_answer-lists pages (inl ps) photos present k h g =
    let e : sort_by key_order (keep has_jpeg ps) ≡ photos = cc (g) in
    let f : bases ps ≡ present = cc (g) in
    (
      subst (All IsCapture) e (
          All-sort_by key_order IsCapture (keep has_jpeg ps)
            (kept-IsCapture ps (list_pages-IsPaired pages [] ps h tt))),
      rw (sym f) (in_list-list_pages k pages [] ps h),
    )

-- If the listing goes through: every photo that it answers has a JPEG under a safe key, and its JPEG
-- and RAW file, if it has one, are its key base with an extension of their kind; and a key base is
-- reported as present exactly when some object under a safe key is a JPEG or a RAW file of it.
pub list_bucket-lists :
    (pages : List (List Object ⊎ String)) (photos : List Photo) (present : List String) (k : String)
    → list_bucket pages ≡ inl (photos, present)
    → All IsCapture photos × (in_list k present ≡ any (shows k) (objects_of pages))
unfolding list_bucket
list_bucket-lists pages photos present k h =
    listed_answer-lists pages (list_pages pages []) photos present k refl h
