-- ===== src/Albums/Links.antt =====
-- catalog/albums.go: every member has its album and its photo, whatever the calls are.
use fragments.Base.{
  ℕ, suc, String, Bool, true, false, not, ◌≡◌, refl, subst, arith, ◌⊎◌, inl, inr, Option, none,
  some, List, [], ◌∷◌, keep, any, All, All-keep, ◌==◌, Option-cases, Bool-cases, in_list, All-mono,
}
use fragments.Store.Rows.{Album, Member, Row, Store, lookup_row}
use fragments.Store.Discard.{delete_batch, gone_ids, has_id}
use fragments.Albums.{
  Added, photo_unknown, no_album, added, photo_id, album_exists, is_member, create_album,
  delete_album, add_photo_to_album, remove_photo_from_album, set_position, move_to, add_by,
  remove_by, settle, reorder_loop, reorder_album,
}

abbrev pub photo_exists : ℕ → Store → Bool
photo_exists p s = any (λ r. r.id == p) s.photos

-- The foreign keys of the membership table.
abbrev pub IsLinked : Store → Member → Type 0
IsLinked s m = (album_exists m.album_id s ≡ true) × (photo_exists m.photo_id s ≡ true)

-- The calls that change albums, and the statement that deletes photos.
pub data AlbumEdit : Type 0 where
  creates : String → String → AlbumEdit
  deletes : ℕ → AlbumEdit
  adds : ℕ → String → AlbumEdit
  removes : ℕ → String → AlbumEdit
  reorders : (ℕ → Option String) → ℕ → List String → AlbumEdit
  drops : List String → AlbumEdit

abbrev pub after_add : Store → Added → Store
after_add s photo_unknown = s
after_add s no_album = s
after_add s (added t new) = t

unfoldable pub edit_album : AlbumEdit → Store → Store
edit_album (creates name now) s = (create_album name now s).0
edit_album (deletes a) s = (delete_album a s).0
edit_album (adds a k) s = after_add s (add_photo_to_album a k s)
edit_album (removes a k) s = (remove_photo_from_album a k s).0
edit_album (reorders fault a ks) s = (reorder_album fault a ks s).0
edit_album (drops batch) s = delete_batch batch s

unfoldable pub edit_albums : List AlbumEdit → Store → Store
unfolding edit_album
edit_albums [] s = s
edit_albums (e ∷ es) s = edit_albums es (edit_album e s)

lookup_row-exists :
    (k : String) (rows : List Row) (r : Row)
    → lookup_row k rows ≡ some r
    → any (λ x. x.id == r.id) rows ≡ true
unfolding lookup_row
lookup_row-exists k [] r h = cc
lookup_row-exists k (x ∷ rows) r h = ground (arith, lookup_row-exists k rows r)

any-keep_ne :
    (n a : ℕ) (xs : List Album)
    → (n == a) ≡ false
    → any (λ x. x.id == n) (keep (λ x. not (x.id == a)) xs) ≡ any (λ x. x.id == n) xs
any-keep_ne n a [] h = refl
any-keep_ne n a (x ∷ xs) h = ground (arith, any-keep_ne n a xs)

All-set_position :
    (s : Store) (i a p : ℕ) (ms : List Member)
    → All (IsLinked s) ms
    → All (IsLinked s) (set_position i a p ms)
unfolding set_position
All-set_position s i a p [] h = tt
All-set_position s i a p (m ∷ ms) h = (ground (arith, h.0), All-set_position s i a p ms h.1)

All-delete_album :
    (a : ℕ) (s : Store) (ms : List Member)
    → All (IsLinked s) ms
    → All (IsLinked (delete_album a s).0) (keep (λ m. not (m.album_id == a)) ms)
unfolding delete_album
All-delete_album a s [] h = tt
All-delete_album a s (m ∷ ms) h = elim (Bool-cases (m.album_id == a)) [
  | inl e ↦ rw e (All-delete_album a s ms h.1)
  | inr e ↦
      rw e (
        (ground (arith, any-keep_ne m.album_id a s.albums, h.0), h.0.1),
        All-delete_album a s ms h.1,
      )
]

photo-keep :
    (p : ℕ) (batch : List String) (rows : List Row)
    → has_id p (gone_ids batch rows) ≡ false
    → any (λ r. r.id == p) rows ≡ true
    → any (λ r. r.id == p) (keep (λ r. not (in_list r.key_base batch)) rows) ≡ true
photo-keep p batch [] h g = g
photo-keep p batch (r ∷ rows) h g = elim (Bool-cases (in_list r.key_base batch)) [
  | inl e ↦ ground (arith, e, h, g, photo-keep p batch rows)
  | inr e ↦ ground (arith, e, h, g, photo-keep p batch rows)
]

All-delete_batch :
    (batch : List String) (s : Store) (ms : List Member)
    → All (IsLinked s) ms
    → All
        (IsLinked (delete_batch batch s))
        (keep (λ m. not (has_id m.photo_id (gone_ids batch s.photos))) ms)
unfolding delete_batch
All-delete_batch batch s [] h = tt
All-delete_batch batch s (m ∷ ms) h =
    elim (Bool-cases (has_id m.photo_id (gone_ids batch s.photos))) [
      | inl e ↦ rw e (All-delete_batch batch s ms h.1)
      | inr e ↦
          rw e
            ((h.0.0, photo-keep m.photo_id batch s.photos e h.0.1), All-delete_batch batch s ms h.1)
    ]

abbrev pub Linked : Store → Type 0
Linked s = All (IsLinked s) s.album_photos

move_to-Linked : (i a : ℕ) (o : Option ℕ) (s : Store) → Linked s → Linked (move_to i a o s)
unfolding move_to
move_to-Linked i a none s h = h
move_to-Linked i a (some p) s h = All-set_position s i a p s.album_photos h

reorder_loop-Linked :
    (fault : ℕ → Option String) (i a : ℕ) (ks : List String) (s : Store)
    → Linked s
    → (t : Store) → reorder_loop fault i a ks s ≡ inl t
    → Linked t
unfolding reorder_loop
reorder_loop-Linked fault i a [] s h t e = elim (Option-cases (fault i)) [
  | inl q ↦ (let same : s ≡ t = ground (arith, rw (q, reorder_loop) at e) in subst Linked same h)
  | inr (m, q) ↦ absurd (cc (rw (q, reorder_loop) at e))
]
reorder_loop-Linked fault i a (k ∷ ks) s h t e = elim (Option-cases (fault i)) [
  | inl q ↦
      reorder_loop-Linked fault (suc i) a ks (move_to i a (photo_id k s) s)
        (move_to-Linked i a (photo_id k s) s h) t (rw (q, reorder_loop) at e)
  | inr (m, q) ↦ absurd (cc (rw (q, reorder_loop) at e))
]

settle-Linked :
    (s : Store) (o : Store ⊎ String)
    → Linked s
    → ((t : Store) → o ≡ inl t → Linked t)
    → Linked (settle s o).0
settle-Linked s (inl t) h k = k t refl
settle-Linked s (inr e) h k = h

remove_by-Linked : (a : ℕ) (o : Option ℕ) (s : Store) → Linked s → Linked (remove_by a o s).0
unfolding remove_by
remove_by-Linked a none s h = h
remove_by-Linked a (some p) s h = All-keep (IsLinked s) _ s.album_photos h

add_by-Linked :
    (a : ℕ) (o : Option ℕ) (s : Store)
    → ((p : ℕ) → o ≡ some p → photo_exists p s ≡ true)
    → Linked s
    → Linked (after_add s (add_by a o s))
unfolding add_by
add_by-Linked a none s k h = h
add_by-Linked a (some p) s k h = elim (Bool-cases (is_member a p s.album_photos)) [
  | inl e ↦ rw (e, add_by) h
  | inr e ↦ elim (Bool-cases (album_exists a s)) [
    | inl f ↦ rw (e, add_by, f) ((f, k p refl), h)
    | inr f ↦ rw (e, add_by, f) h
  ]
]

photo_id-exists : (k : String) (s : Store) (p : ℕ) → photo_id k s ≡ some p → photo_exists p s ≡ true
unfolding photo_id
photo_id-exists k s p h = elim (Option-cases (lookup_row k s.photos)) [
  | inl e ↦ absurd (cc (rw (e, photo_id) at h))
  | inr (r, e) ↦ ground (arith, lookup_row-exists k s.photos r e, rw (e, photo_id) at h)
]

edit_album-Linked : (e : AlbumEdit) (s : Store) → Linked s → Linked (edit_album e s)
unfolding edit_album create_album delete_album add_photo_to_album remove_photo_from_album
    reorder_album delete_batch
edit_album-Linked (creates name now) s h =
    All-mono _ _ (λ m l. (ground (arith, l.0), l.1)) s.album_photos h
edit_album-Linked (deletes a) s h = All-delete_album a s s.album_photos h
edit_album-Linked (adds a k) s h = add_by-Linked a (photo_id k s) s (photo_id-exists k s) h
edit_album-Linked (removes a k) s h = remove_by-Linked a (photo_id k s) s h
edit_album-Linked (reorders fault a ks) s h =
    settle-Linked s (reorder_loop fault 0 a ks s) h (reorder_loop-Linked fault 0 a ks s h)
edit_album-Linked (drops batch) s h = All-delete_batch batch s s.album_photos h

-- Over any calls on albums, and deletions of photos between them, every member keeps an album and a
-- photo that exist.
pub edit_albums-Linked : (es : List AlbumEdit) (s : Store) → Linked s → Linked (edit_albums es s)
unfolding edit_albums
edit_albums-Linked [] s h = h
edit_albums-Linked (e ∷ es) s h = edit_albums-Linked es (edit_album e s) (edit_album-Linked e s h)
