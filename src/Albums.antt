-- ===== src/Albums.antt =====
-- catalog/albums.go: the statements that change albums and their membership. The foreign keys are
-- on, so a member needs its album and its photo, and a deletion takes the members along.
pub mod Links
pub mod Order
use fragments.Base.{
  ℕ, suc, String, Bool, true, false, not, ◌&&◌, ◌⊎◌, inl, inr, Option, none, some, List, [], ◌∷◌,
  map, keep, any, if◌then◌else◌, ltb, ◌==◌,
}
use fragments.Store.Rows.{Album, Member, Store, lookup_row}

unfoldable pub photo_id : String → Store → Option ℕ
unfolding lookup_row
photo_id k s = elim (lookup_row k s.photos) [ none ↦ none | some r ↦ some r.id ]

abbrev pub album_exists : ℕ → Store → Bool
album_exists a s = any (λ x. x.id == a) s.albums

abbrev pub is_of : ℕ → ℕ → Member → Bool
is_of a p m = m.album_id == a && m.photo_id == p

abbrev pub is_member : ℕ → ℕ → List Member → Bool
is_member a p ms = any (is_of a p) ms

-- COALESCE(MAX(position), -1) + 1 over the members of an album
unfoldable pub next_position : ℕ → List Member → ℕ
next_position a [] = 0
next_position a (m ∷ ms) =
    let rest = next_position a ms in
    if m.album_id == a && ltb rest (suc m.position) then suc m.position else rest

-- The new album's id is the next of AUTOINCREMENT.
unfoldable pub create_album : String → String → Store → Store × ℕ
create_album name now s = (
  record s {
    albums = record { id = s.next_album; name = name; created_at = now } ∷ s.albums;
    next_album = suc s.next_album;
  },
  s.next_album,
)

-- The tables, and whether there was an album.
unfoldable pub delete_album : ℕ → Store → Store × Bool
delete_album a s = (
  record s {
    albums = keep (λ x. not (x.id == a)) s.albums;
    album_photos = keep (λ m. not (m.album_id == a)) s.album_photos;
  },
  album_exists a s,
)

-- ErrPhotoNotFound, the refusal of the foreign key, or the tables and whether a member is new.
pub data Added : Type 0 where
  photo_unknown no_album : Added
  added : Store → Bool → Added

-- The INSERT for the photo that the key resolves to.
unfoldable pub add_by : ℕ → Option ℕ → Store → Added
unfolding next_position
add_by a none s = photo_unknown
add_by a (some p) s =
    if is_member a p s.album_photos
    then added s false
    else if not (album_exists a s)
    then no_album
    else added
        (record s {
          album_photos =
              record { album_id = a; photo_id = p; position = next_position a s.album_photos }
              ∷ s.album_photos;
        })
        true

unfoldable pub add_photo_to_album : ℕ → String → Store → Added
unfolding photo_id add_by
add_photo_to_album a k s = add_by a (photo_id k s) s

unfoldable pub remove_by : ℕ → Option ℕ → Store → Store × Bool
remove_by a none s = (s, false)
remove_by a (some p) s = (
  record s { album_photos = keep (λ m. not (is_of a p m)) s.album_photos },
  is_member a p s.album_photos,
)

unfoldable pub remove_photo_from_album : ℕ → String → Store → Store × Bool
unfolding photo_id remove_by
remove_photo_from_album a k s = remove_by a (photo_id k s) s

-- UPDATE album_photos SET position = i WHERE album_id = a AND photo_id = p
unfoldable pub set_position : ℕ → ℕ → ℕ → List Member → List Member
set_position i a p [] = []
set_position i a p (m ∷ ms) =
    (if is_of a p m then record m { position = i } else m) ∷ set_position i a p ms

-- A key without a photo matches no member.
unfoldable pub move_to : ℕ → ℕ → Option ℕ → Store → Store
unfolding set_position
move_to i a none s = s
move_to i a (some p) s = record s { album_photos = set_position i a p s.album_photos }

-- The transaction's statements and its commit; `fault i` is the driver's error at the i-th.
unfoldable pub reorder_loop : (ℕ → Option String) → ℕ → ℕ → List String → Store → Store ⊎ String
unfolding photo_id move_to
reorder_loop fault i a [] s = elim (fault i) [ some e ↦ inr e | none ↦ inl s ]
reorder_loop fault i a (k ∷ ks) s = elim (fault i) [
  | some e ↦ inr e
  | none ↦ reorder_loop fault (suc i) a ks (move_to i a (photo_id k s) s)
]

-- An error rolls the transaction back.
abbrev pub settle : Store → Store ⊎ String → Store × Option String
settle s (inl t) = (t, none)
settle s (inr e) = (s, some e)

unfoldable pub reorder_album : (ℕ → Option String) → ℕ → List String → Store → Store × Option String
unfolding reorder_loop
reorder_album fault a ks s = settle s (reorder_loop fault 0 a ks s)
