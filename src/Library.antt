-- ===== src/Library.antt =====
-- catalog/recipes.go: the library of named recipes. A row keeps the fields that its JSON text reads
-- back as; the table has no order of its own.
pub mod Unique
pub mod Detail
use fragments.Base.{
  ℕ, suc, ◌+◌, ◌-◌, String, str_append, Bool, true, false, not, ◌&&◌, ◌||◌, Option, none, some,
  List, [], ◌∷◌, map, ltb, leb, ◌==◌, str_eq, codes, text_lt, keep, any, find, length, sort_by,
  get_or, is_none, if◌then◌else◌,
}
use fragments.Store.Rows.{Row, Store, null_if_empty}
use fragments.Recipe.{RecipeFields, missing_fields}
use fragments.Recipe.Fingerprint.{fingerprint}
use fragments.Pages.Page.{row_before, parse_taken_at}

pub record RecipeRow : Type 0 where
  pub id : ℕ
  pub name : String
  pub hash : Option String
  pub fields : RecipeFields
  pub notes : Option String
  pub author : Option String
  pub author_url : Option String
  pub source : Option String
  pub created_at : String

-- The table, with the next id of AUTOINCREMENT.
pub record Library : Type 0 where
  pub recipes : List RecipeRow
  pub next_recipe : ℕ

-- What a caller gives.
pub record Draft : Type 0 where
  pub name : String
  pub fields : RecipeFields
  pub notes : String
  pub author : String
  pub author_url : String
  pub source : String

pub record Recipe (T : Type 0) : Type 0 where
  pub id : ℕ
  pub name : String
  pub hash : String
  pub fields : RecipeFields
  pub notes : String
  pub author : String
  pub author_url : String
  pub source : String
  pub created_at : Option T
  pub photo_count : ℕ
  pub cover_thumb_url : String
  pub incomplete : Bool
  pub missing_fields : List String

-- What the writes answer; `panicked` is a nil dereference.
pub data Outcome : Type 0 where
  saved : ℕ → Outcome
  name_taken hash_taken not_found panicked : Outcome

-- `a = b` on a column, never true of NULL.
abbrev pub same_hash : Option String → Option String → Bool
same_hash none h = false
same_hash (some g) none = false
same_hash (some g) (some h) = str_eq g h

abbrev photos_of : Option String → Store → List Row
photos_of h s = keep (λ r. same_hash r.exif.recipe_hash h) s.photos

abbrev first_key : List Row → String
first_key [] = ""
first_key (r ∷ rs) = r.key_base

-- ORDER BY p.taken_at DESC, p.id DESC: NULL is the least value, and so the last.
unfoldable pub cover_of : Option String → Store → String
cover_of h s = first_key (sort_by row_before (photos_of h s))

module _ {T : Type 0} (parse : String → String → Option T) where
  unfoldable pub scan_recipe : Store → RecipeRow → Recipe T
  unfolding cover_of
  scan_recipe s r =
      let hash = get_or r.hash "" in
      let cover = cover_of r.hash s in
      record {
        id = r.id;
        name = r.name;
        hash = hash;
        fields = r.fields;
        notes = get_or r.notes "";
        author = get_or r.author "";
        author_url = get_or r.author_url "";
        source = get_or r.source "";
        created_at = parse_taken_at parse r.created_at;
        photo_count = length (photos_of r.hash s);
        cover_thumb_url =
            if str_eq cover "" then "" else str_append "/thumbs/" (str_append cover ".jpg");
        incomplete = str_eq hash "";
        missing_fields = if str_eq hash "" then missing_fields r.fields else [];
      }

  abbrev lower_code : ℕ → ℕ
  lower_code n = if leb b'A' n && leb n b'Z' then 32 + n else n

  -- ORDER BY r.name COLLATE NOCASE
  unfoldable pub list_recipes : Store → Library → List (Recipe T)
  unfolding scan_recipe
  list_recipes s l = map (scan_recipe s) (
      sort_by (λ r t. text_lt (map lower_code (codes r.name)) (map lower_code (codes t.name)))
        l.recipes)

  unfoldable pub get_recipe : ℕ → Store → Library → Option (Recipe T)
  unfolding scan_recipe
  get_recipe id s l = elim (find (λ r. r.id == id) l.recipes) [
    | none ↦ none
    | some r ↦ some (scan_recipe s r)
  ]

unfoldable pub recipe_name_by_hash : String → Library → Option String
recipe_name_by_hash hash l =
    if str_eq hash "" then none else elim (find (λ r. same_hash r.hash (some hash)) l.recipes) [
      | none ↦ none
      | some r ↦ some r.name
    ]

abbrev pub has_name : String → RecipeRow → Bool
has_name name r = str_eq name r.name

abbrev pub has_hash : Option String → RecipeRow → Bool
has_hash h r = same_hash h r.hash

-- The UNIQUE constraints against other rows; `name_first` is which the driver reports of two.
unfoldable pub recipe_conflict : Bool → String → Option String → List RecipeRow → Option Outcome
recipe_conflict name_first name h rows =
    if any (has_name name) rows
    then (if any (has_hash h) rows && not name_first then some hash_taken else some name_taken)
    else (if any (has_hash h) rows then some hash_taken else none)

unfoldable pub recipe_row : ℕ → String → Option String → Draft → RecipeRow
recipe_row id created h d = record {
  id = id;
  name = d.name;
  hash = h;
  fields = d.fields;
  notes = null_if_empty d.notes;
  author = null_if_empty d.author;
  author_url = null_if_empty d.author_url;
  source = null_if_empty d.source;
  created_at = created;
}

unfoldable pub inserted :
    String → Draft → Library → Option String → Option Outcome → Library × Outcome
unfolding recipe_row
inserted now d l h (some e) = (l, e)
inserted now d l h none = (
  record {
    recipes = recipe_row l.next_recipe now h d ∷ l.recipes;
    next_recipe = suc l.next_recipe;
  },
  saved l.next_recipe,
)

unfoldable pub insert_recipe : Bool → String → Draft → Library → Option String → Library × Outcome
unfolding inserted
insert_recipe name_first now d l h =
    inserted now d l h (recipe_conflict name_first d.name h l.recipes)

abbrev pub others : ℕ → List RecipeRow → List RecipeRow
others id = keep (λ r. not (r.id == id))

unfoldable pub replaced :
    ℕ → String → Draft → Library → Option String → Option Outcome → Library × Outcome
unfolding recipe_row
replaced id created d l h (some e) = (l, e)
replaced id created d l h none =
    (record l { recipes = recipe_row id created h d ∷ others id l.recipes }, saved id)

-- An update of no row meets no constraint.
unfoldable pub replace_found :
    Bool → ℕ → Draft → Library → Option String → Option RecipeRow → Library × Outcome
unfolding replaced
replace_found name_first id d l h none = (l, not_found)
replace_found name_first id d l h (some r) =
    replaced id r.created_at d l h (recipe_conflict name_first d.name h (others id l.recipes))

unfoldable pub replace_recipe : Bool → ℕ → Draft → Library → Option String → Library × Outcome
unfolding replace_found
replace_recipe name_first id d l h =
    replace_found name_first id d l h (find (λ r. r.id == id) l.recipes)

-- The fingerprint is taken of the fields, never of what the caller says.
module _ (digest : List ℕ → String) where
  abbrev pub with_hash :
      (Option String → Library × Outcome) → Library → Option String → Library × Outcome
  with_hash write l none = (l, panicked)
  with_hash write l (some h) = write (null_if_empty h)

  unfoldable pub create_recipe : Bool → String → Draft → Library → Library × Outcome
  unfolding insert_recipe
  create_recipe name_first now d l =
      with_hash (insert_recipe name_first now d l) l (fingerprint digest d.fields)

  unfoldable pub update_recipe : Bool → ℕ → Draft → Library → Library × Outcome
  unfolding replace_recipe
  update_recipe name_first id d l =
      with_hash (replace_recipe name_first id d l) l (fingerprint digest d.fields)

unfoldable pub delete_recipe : ℕ → Library → Library × Bool
delete_recipe id l = (record l { recipes = others id l.recipes }, any (λ r. r.id == id) l.recipes)
