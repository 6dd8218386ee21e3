-- ===== src/Albums/Order.antt =====
-- catalog/albums.go: an addition can be undone, and a reorder changes positions only.
use fragments.Base.{
  ℕ, suc, String, true, false, not, ◌≡◌, refl, ap, subst, ◌∙◌, arith, inl, inr, Option, none, some,
  List, [], ◌∷◌, keep, Option-cases, Bool-cases,
}
use fragments.Store.Rows.{Member, Store}
use fragments.Albums.{
  added, photo_id, album_exists, is_of, is_member, next_position, add_by, add_photo_to_album,
  remove_by, remove_photo_from_album, set_position, move_to, reorder_loop, reorder_album, settle,
}

is_member-set_position :
    (b q i a p : ℕ) (ms : List Member) → is_member b q (set_position i a p ms) ≡ is_member b q ms
unfolding set_position
is_member-set_position b q i a p [] = refl
is_member-set_position b q i a p (m ∷ ms) = ground (arith, is_member-set_position b q i a p ms)

is_member-move_to :
    (b q i a : ℕ) (o : Option ℕ) (s : Store)
    → is_member b q (move_to i a o s).album_photos ≡ is_member b q s.album_photos
unfolding move_to
is_member-move_to b q i a none s = refl
is_member-move_to b q i a (some p) s = is_member-set_position b q i a p s.album_photos

is_member-reorder_loop :
    (b q : ℕ) (fault : ℕ → Option String) (i a : ℕ) (ks : List String) (u s : Store)
    → is_member b q u.album_photos ≡ is_member b q s.album_photos
    → is_member b q (settle s (reorder_loop fault i a ks u)).0.album_photos
      ≡ is_member b q s.album_photos
unfolding reorder_loop
is_member-reorder_loop b q fault i a [] u s h = elim (Option-cases (fault i)) [
  | inl e ↦ rw (reorder_loop, e) h
  | inr (m, e) ↦ rw (reorder_loop, e) refl
]
is_member-reorder_loop b q fault i a (k ∷ ks) u s h = elim (Option-cases (fault i)) [
  | inl e ↦
      rw (reorder_loop, e)
        (is_member-reorder_loop b q fault (suc i) a ks (move_to i a (photo_id k u) u) s
          (is_member-move_to b q i a (photo_id k u) u ∙ h))
  | inr (m, e) ↦ rw (reorder_loop, e) refl
]

-- A reorder, failed or not, keeps the members of every album.
pub is_member-reorder_album :
    (b q : ℕ) (fault : ℕ → Option String) (a : ℕ) (ks : List String) (s : Store)
    → is_member b q (reorder_album fault a ks s).0.album_photos ≡ is_member b q s.album_photos
unfolding reorder_album
is_member-reorder_album b q fault a ks s = is_member-reorder_loop b q fault 0 a ks s s refl

keep-none :
    (a p : ℕ) (ms : List Member) → is_member a p ms ≡ false → keep (λ m. not (is_of a p m)) ms ≡ ms
keep-none a p [] h = refl
keep-none a p (m ∷ ms) h = ground (arith, keep-none a p ms)

abbrev with_member : ℕ → ℕ → Store → Store
with_member a p s = record s {
  album_photos =
      record { album_id = a; photo_id = p; position = next_position a s.album_photos }
      ∷ s.album_photos;
}

remove_by-with_member :
    (a p : ℕ) (s : Store)
    → is_member a p s.album_photos ≡ false
    → remove_by a (some p) (with_member a p s) ≡ (s, true)
unfolding remove_by
remove_by-with_member a p s h = ground (arith, keep-none a p s.album_photos h)

remove-add_by :
    (a : ℕ) (o : Option ℕ) (s t : Store)
    → add_by a o s ≡ added t true
    → (t.photos ≡ s.photos) × (remove_by a o t ≡ (s, true))
unfolding add_by
remove-add_by a none s t h = absurd (cc h)
remove-add_by a (some p) s t h = elim (Bool-cases (is_member a p s.album_photos)) [
  | inl e ↦ absurd (cc (rw (e, add_by) at h))
  | inr e ↦ elim (Bool-cases (album_exists a s)) [
    | inl f ↦
        (let same : with_member a p s ≡ t = cc (rw (e, add_by, f) at h) in
          subst (λ (u : Store). (u.photos ≡ s.photos) × (remove_by a (some p) u ≡ (s, true))) same
            (refl, remove_by-with_member a p s e))
    | inr f ↦ absurd (cc (rw (e, add_by, f) at h))
  ]
]

-- Where an addition made a new member, removing the photo again restores the tables.
pub remove-add_photo :
    (a : ℕ) (k : String) (s t : Store)
    → add_photo_to_album a k s ≡ added t true
    → remove_photo_from_album a k t ≡ (s, true)
unfolding add_photo_to_album remove_photo_from_album photo_id
remove-add_photo a k s t h =
    let (same, back) = remove-add_by a (photo_id k s) s t h in
    let found : photo_id k t ≡ photo_id k s = rw (photo_id, same) refl in
    ap (λ o. remove_by a o t) found ∙ back
