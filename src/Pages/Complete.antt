-- ===== src/Pages/Complete.antt =====
-- catalog/query.go: a client that asks ListPhotos for page after page sees the whole selection.
use fragments.Base.{
  ℕ, zero, suc, ◌<◌, ◌≤◌, ◌^◌, ◌≡◌, refl, sym, ap, ◌∙◌, String, Option, none, some, List, [], ◌∷◌,
  ◌++◌, append_assoc, ◌⊎◌, inl, inr, pos, All, keep, take, length, length-append, map, map-append,
  arith, subst, length-keep, length-sort_by, ℤ, negsuc, All-middle, All-keep, All-sort_by,
  sort_by-Perm, InOrder, length-base64_encode,
}
use mathlib.Core.List.{Perm}
use fragments.Store.Rows.{Row, Store}
use fragments.Store.Select.{PhotoFilter, photo_where, count_photos}
use fragments.Pages.Cursor.{
  Cursor, IsTaken, encode_cursor, decode_cursor, decode_cursor-encode_cursor,
}
use fragments.Pages.Page.{
  PhotoListItem, PhotoPage, taken_of, row_before, selected, page_limit, scan_list_item, page_rows,
  read_cursor, cursor_of, query_page, page_behind, list_photos,
}
use fragments.Pages.Order.{DistinctIds, selected-rest, selected-InOrder}

-- A row of the database: its time is spelt without the separator, and its id is an int64.
abbrev pub IsStored : Row → Type 0
IsStored r = IsTaken (taken_of r) × (r.id < 2 ^ 63)

-- The bytes of a cursor start with a flag, so its text is not empty.
encode_cursor-cons : (taken : Option (List ℕ)) (id : ℕ) → 1 ≤ length (encode_cursor taken id)
unfolding encode_cursor
encode_cursor-cons none id = length-base64_encode _ _
encode_cursor-cons (some t) id = length-base64_encode _ _

page_limit-positive : (limit : ℤ) → 0 < page_limit limit
unfolding page_limit
page_limit-positive (negsuc n) = omega arith
page_limit-positive (pos zero) = omega arith
page_limit-positive (pos (suc n)) = ground (arith)

selected-length : (f : PhotoFilter) (s : Store) → length (selected f none s) ≤ length s.photos
unfolding selected
selected-length f s = omega (
  arith,
  length-sort_by row_before (keep (photo_where f) s.photos),
  length-keep (photo_where f) s.photos,
)

module _ {T : Type 0} (parse : String → String → Option T) where
  page_rows-take :
      (n : ℕ) (taken : Option (List ℕ)) (id : ℕ) (rs : List Row)
      → page_rows parse n taken id (take (suc n) rs) ≡ page_rows parse n taken id rs
  unfolding page_rows
  page_rows-take n taken id [] = refl
  page_rows-take zero taken id (r ∷ rs) = refl
  page_rows-take (suc n) taken id (r ∷ rs) = rw (page_rows-take n (taken_of r) r.id rs) refl

  -- A page ends the selection, or its cursor is its last row's and there are rows behind it.
  abbrev Fills : List Row → List (PhotoListItem T) × List ℕ → Type 0
  Fills rs page =
      (page ≡ (map (scan_list_item parse) rs, []))
      ⊎ ((front : List Row) × (last : Row) × (rest : List Row) × (rs ≡ front ++ last ∷ rest)
          × (page ≡ (
            map (scan_list_item parse) (front ++ last ∷ []),
            encode_cursor (taken_of last) last.id,
          )))

  page_rows-Fills :
      (n : ℕ) (taken : Option (List ℕ)) (id : ℕ) (r : Row) (rs : List Row)
      → Fills (r ∷ rs) (page_rows parse (suc n) taken id (r ∷ rs))
  unfolding page_rows
  page_rows-Fills n taken id r [] = inl refl
  page_rows-Fills zero taken id r (s ∷ rs) = inr ([], r, s ∷ rs, refl, refl)
  page_rows-Fills (suc n) taken id r (s ∷ rs) =
      let first : List (PhotoListItem T) × List ℕ → List (PhotoListItem T) × List ℕ =
        λ q. (scan_list_item parse r ∷ q.0, q.1) in
      elim (page_rows-Fills n (taken_of r) r.id s rs) [
        | inl e ↦ inl (ap first e)
        | inr h ↦ inr (r ∷ h.0, h.1, h.2, ap (◌∷◌ r) h.3, ap first h.4)
      ]

  page_rows-all :
      (n : ℕ) (taken : Option (List ℕ)) (id : ℕ) (rs : List Row)
      → 0 < n
      → Fills rs (page_rows parse n taken id rs)
  unfolding page_rows
  page_rows-all zero taken id rs h = absurd (omega arith)
  page_rows-all (suc n) taken id [] h = inl refl
  page_rows-all (suc n) taken id (r ∷ rs) h = page_rows-Fills n taken id r rs

  abbrev go_on :
      List (PhotoListItem T) → List ℕ → (List ℕ → List (PhotoListItem T)) → List (PhotoListItem T)
  go_on items [] ask = items
  go_on items (c ∷ cs) ask = items ++ ask (c ∷ cs)

  abbrev gather : PhotoPage T ⊎ String → (List ℕ → List (PhotoListItem T)) → List (PhotoListItem T)
  gather (inr e) ask = []
  gather (inl page) ask = go_on page.items page.next_cursor ask

  -- A client that asks for the page behind each cursor that it is given, at most `fuel` times.
  unfoldable pub follow : ℕ → PhotoFilter → ℤ → Store → List ℕ → List (PhotoListItem T)
  follow zero f limit s cursor = []
  follow (suc fuel) f limit s cursor =
      gather (list_photos parse (λ i. none) f cursor limit s) (λ c. follow fuel f limit s c)

  encode_cursor-go_on :
      (items : List (PhotoListItem T)) (taken : Option (List ℕ)) (id : ℕ)
      (ask : List ℕ → List (PhotoListItem T))
      → go_on items (encode_cursor taken id) ask ≡ items ++ ask (encode_cursor taken id)
  encode_cursor-go_on items taken id ask = go (encode_cursor taken id) (encode_cursor-cons taken id)
    where
      go : (cs : List ℕ) → (1 ≤ length cs) → go_on items cs ask ≡ items ++ ask cs
      go [] h = absurd (omega arith)
      go (c ∷ cs) h = refl

  nonempty :
      (cs : List ℕ) {cur : Cursor}
      → 1 ≤ length cs
      → decode_cursor cs ≡ some cur
      → cursor_of cs ≡ inl (some cur)
  unfolding cursor_of
  nonempty [] h e = absurd (omega arith)
  nonempty (c ∷ cs) h e = ap read_cursor e

  cursor_of-encode_cursor :
      (taken : Option (List ℕ)) (id : ℕ)
      → IsTaken taken
      → id < 2 ^ 63
      → cursor_of (encode_cursor taken id) ≡ inl (some (record { taken = taken; id = pos id }))
  cursor_of-encode_cursor taken id h k =
      nonempty (encode_cursor taken id) (encode_cursor-cons taken id)
        (decode_cursor-encode_cursor taken id h k)

  module _ (f : PhotoFilter) (limit : ℤ) (s : Store) (distinct : DistinctIds s.photos)
      (stored : All IsStored s.photos) where
    -- `rest` is what the cursor selects.
    Shows : List ℕ → List Row → Type 0
    Shows cursor rest =
        (cur : Option Cursor) × (cursor_of cursor ≡ inl cur) × (selected f cur s ≡ rest)

    Shows-list_photos :
        (cursor : List ℕ) (rest : List Row)
        → Shows cursor rest
        → list_photos parse (λ i. none) f cursor limit s
          ≡ inl (
              let page = page_rows parse (page_limit limit) none 0 rest in
              record { items = page.0; next_cursor = page.1; total = count_photos f s })
    unfolding Shows list_photos page_behind query_page
    Shows-list_photos cursor rest h =
        let page : List (PhotoListItem T) × List ℕ → PhotoPage T ⊎ String =
          λ q. inl (record { items = q.0; next_cursor = q.1; total = count_photos f s }) in
        ap (λ c. page_behind parse none f c (page_limit limit) (count_photos f s) s) h.1
        ∙ ap page (
            ap (λ rs. page_rows parse (page_limit limit) none 0 (take (suc (page_limit limit)) rs))
              h.2
            ∙ page_rows-take (page_limit limit) none 0 rest)

    selected-IsStored : All IsStored (selected f none s)
    unfolding selected
    selected-IsStored =
        All-sort_by row_before IsStored (keep (photo_where f) s.photos)
          (All-keep IsStored (photo_where f) s.photos stored)

    encode_cursor-Shows :
        (before : List Row) (r : Row) (rest : List Row)
        → selected f none s ≡ before ++ r ∷ rest
        → Shows (encode_cursor (taken_of r) r.id) rest
    unfolding Shows
    encode_cursor-Shows before r rest e =
        let ok = All-middle IsStored before r rest (subst (All IsStored) e selected-IsStored) in
        (
          some (record { taken = taken_of r; id = pos r.id }),
          cursor_of-encode_cursor (taken_of r) r.id ok.0 ok.1,
          selected-rest f s distinct before r rest e,
        )

    follow-rest :
        (fuel : ℕ) (cursor : List ℕ) (before rest : List Row)
        → length rest < fuel
        → selected f none s ≡ before ++ rest
        → Shows cursor rest
        → follow fuel f limit s cursor ≡ map (scan_list_item parse) rest
    unfolding follow
    follow-rest zero cursor before rest h e c = absurd (omega arith)
    follow-rest (suc fuel) cursor before rest h e c =
        ap (λ p. gather p (λ c. follow fuel f limit s c)) (Shows-list_photos cursor rest c)
        ∙ elim (page_rows-all (page_limit limit) none 0 rest (page_limit-positive limit)) [
          | inl q ↦ rw q refl
          | inr q ↦
              let front = q.0 in
              let last = q.1 in
              let later = q.2 in
              let place : selected f none s ≡ (before ++ front) ++ last ∷ later =
                e ∙ ap (◌++◌ before) q.3 ∙ sym (append_assoc before front (last ∷ later)) in
              let shorter = length-append front (last ∷ later) in
              let through : selected f none s ≡ ((before ++ front) ++ last ∷ []) ++ later =
                place ∙ sym (append_assoc (before ++ front) (last ∷ []) later) in
              let ask : List ℕ → List (PhotoListItem T) = λ c. follow fuel f limit s c in
              ap (λ (p : List (PhotoListItem T) × List ℕ). go_on p.0 p.1 ask) q.4
              ∙ encode_cursor-go_on (map (scan_list_item parse) (front ++ last ∷ []))
                  (taken_of last) last.id ask
              ∙ ap (◌++◌ (map (scan_list_item parse) (front ++ last ∷ []))) (
                  follow-rest fuel (encode_cursor (taken_of last) last.id)
                    ((before ++ front) ++ last ∷ []) later
                    (let size = ap length q.3 in omega (arith, shorter)) through
                    (encode_cursor-Shows (before ++ front) last later place))
              ∙ sym (map-append (scan_list_item parse) (front ++ last ∷ []) later)
              ∙ ap (map (scan_list_item parse)) (append_assoc front (last ∷ []) later ∙ sym q.3)
        ]

    selected-Perm : Perm (selected f none s) (keep (photo_where f) s.photos)
    unfolding selected
    selected-Perm = sort_by-Perm row_before (keep (photo_where f) s.photos)

    -- If the rows' ids are distinct int64s and their times are bytes without the cursor's separator,
    -- a client that follows the cursors from the top, with more requests than there are photos, gets
    -- the items of exactly the rows that the filter selects, each once, every row before all that
    -- follow it in the gallery's order, whatever page size it asks for.
    pub follow_complete :
        (fuel : ℕ)
        → length s.photos < fuel
        → (rows : List Row) × Perm rows (keep (photo_where f) s.photos)
          × InOrder row_before rows
          × (follow fuel f limit s [] ≡ map (scan_list_item parse) rows)
    unfolding cursor_of Shows
    follow_complete fuel h = (
      selected f none s,
      selected-Perm,
      selected-InOrder f s distinct,
      follow-rest fuel [] [] (selected f none s) (omega (arith, selected-length f s)) refl
          (none, refl, refl),
    )
