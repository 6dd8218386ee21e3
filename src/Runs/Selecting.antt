-- ===== src/Runs/Selecting.antt =====
-- catalog/query.go on the two photos: ratings, decisions and the gallery's filter; and catalog/albums.go.
use fragments.Base.{true, ◌+◌, ◌≡◌, refl, arith, inl, inr, none, List, [], ◌∷◌, pos, All}
use fragments.Store.Rows.{Store}
use fragments.Store.Select.{PhotoFilter, count_photos, discard}
use fragments.Store.Edits.{Edit, rates, decides, catalogs, deletes, serve_all}
use fragments.Store.Chosen.{IsChosen, in_state, serve_all-Chosen, count_photos_split}
use fragments.Albums.{add_photo_to_album, remove_photo_from_album}
use fragments.Albums.Links.{adds, reorders, drops, edit_albums, Linked, edit_albums-Linked}
use fragments.Albums.Order.{remove-add_photo}
use fragments.Runs.Data.{two_photos, photo}

two_photos-Chosen : All IsChosen two_photos.photos
two_photos-Chosen = (
  record { exclusive = inl refl; bounded = omega arith; starred = λ e. cc; worded = inr refl },
  (
    record { exclusive = inr refl; bounded = omega arith; starred = λ e. cc; worded = inl refl },
    tt,
  ),
)

abbrev history : List Edit
history =
    rates "a" (pos 3) "t1"
    ∷ decides "b" "discard" "t2"
    ∷ rates "b" (pos 9) "t3"
    ∷ catalogs (photo "c" "e") "t4"
    ∷ deletes (λ i. none) ("b" ∷ [])
    ∷ []

abbrev all_photos : PhotoFilter
all_photos = record {
  folder = "";
  film_simulation = "Acros";
  camera_model = "";
  recipe = "";
  min_rating = 0;
  decision = "";
}

serve_all-Chosen_example : All IsChosen (serve_all history two_photos).photos
serve_all-Chosen_example = serve_all-Chosen history two_photos two_photos-Chosen

count_photos_split_example :
    count_photos (in_state "keep" all_photos) two_photos
      + count_photos (in_state discard all_photos) two_photos
      + count_photos (in_state "none" all_photos) two_photos
    ≡ count_photos (in_state "" all_photos) two_photos
count_photos_split_example = count_photos_split all_photos two_photos two_photos-Chosen

-- The two photos, in an album with the first of them.
abbrev with_album : Store
with_album = record two_photos {
  albums = record { id = 1; name = "Trip"; created_at = "t" } ∷ [];
  next_album = 2;
  album_photos = record { album_id = 1; photo_id = 1; position = 0 } ∷ [];
}

abbrev with_both : Store
with_both = record with_album {
  album_photos =
      record { album_id = 1; photo_id = 2; position = 1 }
      ∷ record { album_id = 1; photo_id = 1; position = 0 }
      ∷ [];
}

edit_albums-Linked_example : Linked (
    edit_albums
      (adds 1 "b" ∷ reorders (λ i. none) 1 ("b" ∷ "a" ∷ []) ∷ drops ("a" ∷ []) ∷ [])
      with_album)
edit_albums-Linked_example =
    edit_albums-Linked
      (adds 1 "b" ∷ reorders (λ i. none) 1 ("b" ∷ "a" ∷ []) ∷ drops ("a" ∷ []) ∷ []) with_album
      ((refl, refl), tt)

remove-add_photo_example : remove_photo_from_album 1 "b" with_both ≡ (with_album, true)
unfolding add_photo_to_album
remove-add_photo_example = remove-add_photo 1 "b" with_album with_both refl
