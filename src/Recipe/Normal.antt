-- ===== src/Recipe/Normal.antt =====
-- catalog/recipe.go: the normal form of a recipe.
use fragments.Base.{◌≡◌, arith}
use fragments.Recipe.{RecipeFields, apply_neutral_defaults, normalized}

-- The defaults are filled in once.
pub apply_neutral_defaults_idem :
    (f : RecipeFields)
    → apply_neutral_defaults (apply_neutral_defaults f) ≡ apply_neutral_defaults f
unfolding apply_neutral_defaults
apply_neutral_defaults_idem f = ground arith

-- A normal form is its own.
pub normalized_idem : (f : RecipeFields) → normalized (normalized f) ≡ normalized f
unfolding normalized
normalized_idem f = ground arith
