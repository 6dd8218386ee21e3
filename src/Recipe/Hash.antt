-- ===== src/Recipe/Hash.antt =====
-- catalog/recipe.go: what a fingerprint depends on, and what the normal form keeps.
use fragments.Base.{◌≡◌, Bool, true, not, ◌&&◌, Option, arith, List, String, ℕ, ℤ, is_some}
use fragments.Recipe.{
  RecipeFields, apply_neutral_defaults, missing_fields, complete, normalized, holds, is_mono,
}
use fragments.Recipe.Fingerprint.{fingerprint, recipe_lines}

complete-Lines :
    (f : RecipeFields) → complete f ≡ true → is_some (recipe_lines (normalized f)) ≡ true
unfolding complete missing_fields normalized recipe_lines apply_neutral_defaults
complete-Lines f h = ground arith

-- The fingerprint of a recipe, complete or not, is computed without a read through a nil field.
pub fingerprint_total :
    (digest : List ℕ → String) (f : RecipeFields) → is_some (fingerprint digest f) ≡ true
unfolding fingerprint
fingerprint_total digest f = ground (arith, complete-Lines f)

missing_fields-normalized : (f : RecipeFields) → missing_fields (normalized f) ≡ missing_fields f
unfolding missing_fields normalized
missing_fields-normalized f = ground arith

-- A control of the recipe with a value it is set to.
pub data Control : Type 0 where
  temperature : Option ℤ → Control
  tint : Option ℤ → Option ℤ → Control
  color_level : Option ℤ → Control
  grain_of : Option String → Control

abbrev pub change : Control → RecipeFields → RecipeFields
change (temperature t) f = record f { color_temperature = t }
change (tint wc mg) f = record f { monochromatic_wc = wc; monochromatic_mg = mg }
change (color_level c) f = record f { color = c }
change (grain_of s) f = record f { grain_size = s }

-- The camera does not use the control under the rest of the recipe.
abbrev pub is_ignored : Control → RecipeFields → Bool
is_ignored (temperature t) f = not (holds f.white_balance "Kelvin")
is_ignored (tint wc mg) f = is_some f.film_simulation && not (is_mono f.film_simulation)
is_ignored (color_level c) f = is_mono f.film_simulation
is_ignored (grain_of s) f = holds f.grain_effect "Off"

normalized-change :
    (c : Control) (f : RecipeFields)
    → is_ignored c f ≡ true
    → normalized (change c f) ≡ normalized f
unfolding normalized apply_neutral_defaults
normalized-change (temperature t) f h = ground arith
normalized-change (tint wc mg) f h = ground arith
normalized-change (color_level c) f h = ground arith
normalized-change (grain_of s) f h = ground arith

missing_fields-change :
    (c : Control) (f : RecipeFields)
    → is_ignored c f ≡ true
    → missing_fields (change c f) ≡ missing_fields f
unfolding missing_fields apply_neutral_defaults
missing_fields-change (temperature t) f h = ground arith
missing_fields-change (tint wc mg) f h = ground arith
missing_fields-change (color_level c) f h = ground arith
missing_fields-change (grain_of s) f h = ground arith

-- Setting a control that the rest of the recipe makes the camera ignore, the color temperature off
-- Kelvin, the tint of a color film, the color of a monochrome film or the size of a grain that is
-- off, leaves the fingerprint the same.
pub fingerprint-change :
    (digest : List ℕ → String) (c : Control) (f : RecipeFields)
    → is_ignored c f ≡ true
    → fingerprint digest (change c f) ≡ fingerprint digest f
unfolding fingerprint complete
fingerprint-change digest c f h =
    rw (fingerprint, complete, missing_fields-change c f h, normalized-change c f h)

-- The normal form of a recipe is complete exactly when the recipe is.
pub complete-normalized : (f : RecipeFields) → complete (normalized f) ≡ complete f
unfolding complete
complete-normalized f = rw (complete, missing_fields-normalized f)
