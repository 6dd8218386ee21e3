-- ===== src/Library/Detail.antt =====
-- catalog/query.go: GetPhoto, a photo with the recipe that shares its fingerprint.
use fragments.Base.{
  ℕ, String, true, false, Option, none, some, List, [], ◌∷◌, ◌≡◌, Float, get_or, find, ◌==◌,
  str_eq_iff, All, Bool-cases, inl, inr, arith, ap, sym, subst,
}
use fragments.Store.Rows.{Row, Store, lookup_row}
use fragments.Pages.Page.{PhotoListItem, scan_list_item}
use fragments.Library.{RecipeRow, Library, same_hash}
use fragments.Library.Unique.{apart, AllApart}

pub record PhotoDetail (T : Type 0) : Type 0 where
  pub item : PhotoListItem T
  pub jpeg_key : String
  pub raf_key : String
  pub gps_lat : Option Float
  pub gps_lon : Option Float
  pub exif_json : String
  pub recipe_hash : String
  pub recipe_id : ℕ
  pub recipe_name : String

-- The recipe whose hash is the photo's, NULL never.
abbrev pub recipe_of_hash : Option String → Library → Option RecipeRow
recipe_of_hash h l = find (λ r. same_hash r.hash h) l.recipes

abbrev id_or_zero : Option RecipeRow → ℕ
id_or_zero none = 0
id_or_zero (some r) = r.id

abbrev name_or_empty : Option RecipeRow → String
name_or_empty none = ""
name_or_empty (some r) = r.name

module _ {T : Type 0} (parse : String → String → Option T) where
  abbrev pub photo_detail : Library → Row → PhotoDetail T
  photo_detail l r = record {
    item = scan_list_item parse r;
    jpeg_key = r.jpeg.key;
    raf_key = get_or r.raf_key "";
    gps_lat = r.exif.gps_lat;
    gps_lon = r.exif.gps_lon;
    exif_json = get_or r.exif.exif_json "";
    recipe_hash = get_or r.exif.recipe_hash "";
    recipe_id = id_or_zero (recipe_of_hash r.exif.recipe_hash l);
    recipe_name = name_or_empty (recipe_of_hash r.exif.recipe_hash l);
  }

  abbrev detail_of : Library → Option Row → Option (PhotoDetail T)
  detail_of l none = none
  detail_of l (some r) = some (photo_detail l r)

  -- `none` is an unknown key.
  unfoldable pub get_photo : String → Store → Library → Option (PhotoDetail T)
  get_photo k s l = detail_of l (lookup_row k s.photos)

same_hash-meets :
    (g k h : Option String) → same_hash g h ≡ true → same_hash k h ≡ true → same_hash g k ≡ true
same_hash-meets none k h e f = absurd (cc (e))
same_hash-meets (some g) none h e f = absurd (cc (f))
same_hash-meets (some g) (some k) none e f = absurd (cc (e))
same_hash-meets (some g) (some k) (some h) e f =
    ground (arith, str_eq_iff g h, str_eq_iff k h, str_eq_iff g k)

found-apart :
    (s r : RecipeRow) (rs : List RecipeRow)
    → All (λ t. apart s t ≡ true) rs
    → find (λ t. t.id == r.id) rs ≡ some r
    → same_hash s.hash r.hash ≡ false
found-apart s r [] h e = absurd (cc (e))
found-apart s r (t ∷ rs) h e = elim (Bool-cases (t.id == r.id)) [
  | inl f ↦
      let same : t ≡ r = cc (rw f at e) in
      let parted : apart s r ≡ true = subst (λ x. apart s x ≡ true) same h.0 in ground (arith)
  | inr f ↦ found-apart s r rs h.1 (rw f at e)
]

-- In a library without shared fingerprints, a photo's recipe is the one that has its fingerprint.
pub recipe_of_hash-found :
    (h : Option String) (rs : List RecipeRow) (r : RecipeRow)
    → AllApart rs
    → find (λ s. s.id == r.id) rs ≡ some r
    → same_hash r.hash h ≡ true
    → find (λ s. same_hash s.hash h) rs ≡ some r
recipe_of_hash-found h [] r a e f = absurd (cc (e))
recipe_of_hash-found h (s ∷ rs) r a e f = elim (Bool-cases (s.id == r.id)) [
  | inl g ↦
      let same : s ≡ r = cc (rw g at e) in
      let own : same_hash s.hash h ≡ true = subst (λ x. same_hash x.hash h ≡ true) (sym same) f in
      rw own (ap some same)
  | inr g ↦
      let rest : find (λ t. t.id == r.id) rs ≡ some r = rw g at e in
      elim (Bool-cases (same_hash s.hash h)) [
        | inl m ↦ absurd (cc (found-apart s r rs a.0 rest, same_hash-meets s.hash r.hash h m f))
        | inr m ↦ rw m (recipe_of_hash-found h rs r a.1 rest f)
      ]
]
