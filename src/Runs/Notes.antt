-- ===== src/Runs/Notes.antt =====
-- catalog/fuji.go and catalog/recipe.go on a small maker note and two recipes.
use fragments.Base.{
  ℕ, String, true, ◌≡◌, refl, arith, some, List, [], ◌∷◌, ◌++◌, pos, neg, codes, is_some, concat,
}
use fragments.Recipe.{default_recipe_fields, complete, normalized}
use fragments.Recipe.Fingerprint.{fingerprint}
use fragments.Recipe.Hash.{grain_of, change, fingerprint_total, fingerprint-change}
use fragments.Recipe.Sound.{validate-normalized}
use fragments.Recipe.Validate.{validate, tone_ok, known, grain, grain_conflict}
use fragments.Fuji.Note.{MakerNote, first, parse_fuji_maker_note}
use fragments.Fuji.Safe.{parse_fuji_maker_note_total}
use fragments.Fuji.Decode.{recipe_of, recipe_fields, film_simulation}
use fragments.Fuji.Recipes.{recipe_fields-complete}
use fragments.Fuji.Vocabulary.{tabled, recipe_fields-tabled}

-- One entry: the tag 0x1401, a SHORT, with the value 0x600.
abbrev raw_note : List ℕ
raw_note =
    codes "FUJIFILM" ++ 12 ∷ 0 ∷ 0 ∷ 0 ∷ 1 ∷ 0 ∷ 1 ∷ 20 ∷ 3 ∷ 0 ∷ 1 ∷ 0 ∷ 0 ∷ 0 ∷ 0 ∷ 6 ∷ 0 ∷ 0 ∷ []

abbrev chrome_note : MakerNote
chrome_note = record {
  ints = (5121, pos 1536 ∷ []) ∷ (4161, neg 16 ∷ []) ∷ (4106, pos 40 ∷ neg 60 ∷ []) ∷ [];
  strs = [];
}

-- A digest for the tests.
abbrev size_of : List ℕ → String
size_of bytes = "0123456789abcdef"

parse_fuji_maker_note_total_example : is_some (parse_fuji_maker_note raw_note) ≡ true
parse_fuji_maker_note_total_example = parse_fuji_maker_note_total raw_note (omega arith)

recipe_fields-complete_example : complete (recipe_of chrome_note) ≡ true
unfolding recipe_fields film_simulation first
recipe_fields-complete_example = recipe_fields-complete chrome_note (recipe_of chrome_note) refl

-- An active grain without a size.
abbrev grain_note : MakerNote
grain_note = record { ints = (5121, pos 1536 ∷ []) ∷ (4167, pos 32 ∷ []) ∷ []; strs = [] }

recipe_fields-tabled_example :
    (concat (tabled (recipe_of grain_note)) ≡ [])
    × (grain (recipe_of grain_note).grain_effect (recipe_of grain_note).grain_size
        ≡ grain_conflict "Weak" ∷ [])
unfolding recipe_fields film_simulation first
recipe_fields-tabled_example = recipe_fields-tabled grain_note (recipe_of grain_note) refl

fingerprint_total_example : is_some (fingerprint size_of default_recipe_fields) ≡ true
fingerprint_total_example = fingerprint_total size_of default_recipe_fields

fingerprint-change_example :
    fingerprint size_of (change (grain_of (some "Large")) default_recipe_fields)
    ≡ fingerprint size_of default_recipe_fields
unfolding default_recipe_fields
fingerprint-change_example =
    fingerprint-change size_of (grain_of (some "Large")) default_recipe_fields refl

validate-normalized_example : validate (normalized default_recipe_fields) ≡ []
unfolding default_recipe_fields validate known tone_ok
validate-normalized_example = validate-normalized default_recipe_fields refl
