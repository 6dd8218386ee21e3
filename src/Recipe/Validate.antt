-- ===== src/Recipe/Validate.antt =====
-- catalog/recipe.go: RecipeFields.Validate. A problem stands for the message that reports it.
use fragments.Base.{
  ◌*◌, ◌%◌, ◌^◌, String, Bool, not, ◌&&◌, Option, none, some, List, [], ◌∷◌, ℤ, pos, neg, Float,
  str_eq, in_list, concat, if◌then◌else◌, ltb, ltb_ℤ, ◌==◌,
}
use fragments.Recipe.{RecipeFields, holds}
use fragments.Recipe.Vocabulary.{
  film_simulation_names, dynamic_range_names, d_range_priority_names, strength_names,
  grain_size_names, white_balance_list_names,
}

pub data Problem : Type 0 where
  unknown : String → String → Problem
  bad_tone : String → Float → Problem
  out_of_range : String → ℤ → ℤ → ℤ → Problem
  grain_conflict : String → Problem

unfoldable pub known : String → List String → Bool
known v names = in_list v names

abbrev pub enum : String → Option String → List String → List Problem
enum name none names = []
enum name (some v) names = if known v names then [] else unknown name v ∷ []

-- *v < -2 || *v > 4 || math.Mod(*v*2, 1) != 0
unfoldable pub tone_ok : Float → Bool
tone_ok v =
    not (v.negative && ltb (2 * 2 ^ v.scale) v.mantissa)
    && not (not v.negative && ltb (4 * 2 ^ v.scale) v.mantissa)
    && (2 * v.mantissa % 2 ^ v.scale == 0)

abbrev pub tone : String → Option Float → List Problem
tone name none = []
tone name (some v) = if tone_ok v then [] else bad_tone name v ∷ []

abbrev pub in_range : ℤ → ℤ → ℤ → Bool
in_range lo hi v = not (ltb_ℤ v lo) && not (ltb_ℤ hi v)

abbrev pub int_range : String → Option ℤ → ℤ → ℤ → List Problem
int_range name none lo hi = []
int_range name (some v) lo hi = if in_range lo hi v then [] else out_of_range name v lo hi ∷ []

-- An active effect with size Off is no setting of the camera.
abbrev pub grain : Option String → Option String → List Problem
grain none size = []
grain (some effect) size =
    if not (str_eq effect "Off") && holds size "Off" then grain_conflict effect ∷ [] else []

-- The problems that each check reports, in the order of the checks.
abbrev pub checks : RecipeFields → List (List Problem)
checks f =
    enum "filmSimulation" f.film_simulation film_simulation_names
    ∷ enum "dynamicRange" f.dynamic_range dynamic_range_names
    ∷ enum "dRangePriority" f.d_range_priority d_range_priority_names
    ∷ tone "highlightTone" f.highlight_tone
    ∷ tone "shadowTone" f.shadow_tone
    ∷ int_range "color" f.color (neg 4) (pos 4)
    ∷ int_range "sharpness" f.sharpness (neg 4) (pos 4)
    ∷ int_range "noiseReduction" f.noise_reduction (neg 4) (pos 4)
    ∷ int_range "clarity" f.clarity (neg 5) (pos 5)
    ∷ int_range "wbShiftRed" f.wb_shift_red (neg 9) (pos 9)
    ∷ int_range "wbShiftBlue" f.wb_shift_blue (neg 9) (pos 9)
    ∷ int_range "monochromaticWC" f.monochromatic_wc (neg 18) (pos 18)
    ∷ int_range "monochromaticMG" f.monochromatic_mg (neg 18) (pos 18)
    ∷ int_range "colorTemperature" f.color_temperature (pos 2500) (pos 10000)
    ∷ enum "grainEffect" f.grain_effect strength_names
    ∷ enum "grainSize" f.grain_size grain_size_names
    ∷ grain f.grain_effect f.grain_size
    ∷ enum "colorChrome" f.color_chrome strength_names
    ∷ enum "colorChromeFXBlue" f.color_chrome_fx_blue strength_names
    ∷ enum "whiteBalance" f.white_balance white_balance_list_names
    ∷ []

-- Validate reports an error if there is a problem.
unfoldable pub validate : RecipeFields → List Problem
validate f = concat (checks f)
