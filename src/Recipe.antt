-- ===== src/Recipe.antt =====
-- catalog/recipe.go: the rendering fields of a Fujifilm recipe, their neutral defaults and their
-- normal form.
pub mod Vocabulary
pub mod Validate
pub mod Fingerprint
pub mod Normal
pub mod Hash
pub mod Sound
use fragments.Base.{
  ℕ, String, Bool, true, false, ◌&&◌, Option, none, some, List, [], ◌∷◌, ◌++◌, ℤ, pos, Float, whole,
  str_eq, in_list, if◌then◌else◌, is_none, is_some, not,
}
use Vocabulary.{is_monochrome_sim}

pub record RecipeFields : Type 0 where
  pub film_simulation : Option String
  pub dynamic_range : Option String
  pub d_range_priority : Option String
  pub highlight_tone : Option Float
  pub shadow_tone : Option Float
  pub color : Option ℤ
  pub sharpness : Option ℤ
  pub noise_reduction : Option ℤ
  pub clarity : Option ℤ
  pub grain_effect : Option String
  pub grain_size : Option String
  pub color_chrome : Option String
  pub color_chrome_fx_blue : Option String
  pub white_balance : Option String
  pub color_temperature : Option ℤ
  pub wb_shift_red : Option ℤ
  pub wb_shift_blue : Option ℤ
  pub monochromatic_wc : Option ℤ
  pub monochromatic_mg : Option ℤ

unfoldable pub default_recipe_fields : RecipeFields
default_recipe_fields = record {
  film_simulation = some "Provia/Standard";
  dynamic_range = some "Auto";
  d_range_priority = some "Off";
  highlight_tone = some (whole 0);
  shadow_tone = some (whole 0);
  color = some (pos 0);
  sharpness = some (pos 0);
  noise_reduction = some (pos 0);
  clarity = some (pos 0);
  grain_effect = some "Off";
  grain_size = some "Off";
  color_chrome = some "Off";
  color_chrome_fx_blue = some "Off";
  white_balance = some "Auto";
  color_temperature = none;
  wb_shift_red = some (pos 0);
  wb_shift_blue = some (pos 0);
  monochromatic_wc = some (pos 0);
  monochromatic_mg = some (pos 0);
}

-- `p != nil && *p == v`
abbrev pub holds : Option String → String → Bool
holds none v = false
holds (some s) v = str_eq s v

abbrev pub is_mono : Option String → Bool
is_mono none = false
is_mono (some s) = is_monochrome_sim s

abbrev pub or_default {ℓ} : {A : Type ℓ} → Option A → A → Option A
or_default none d = some d
or_default (some a) d = some a

unfoldable pub apply_neutral_defaults : RecipeFields → RecipeFields
apply_neutral_defaults f = record f {
  d_range_priority = or_default f.d_range_priority "Off";
  monochromatic_wc = or_default f.monochromatic_wc (pos 0);
  monochromatic_mg = or_default f.monochromatic_mg (pos 0);
  grain_size =
      if is_none f.grain_size && holds f.grain_effect "Off" then some "Off" else f.grain_size;
  color = if is_mono f.film_simulation && is_none f.color then some (pos 0) else f.color;
}

abbrev pub need {ℓ} : {A : Type ℓ} → String → Option A → List String → List String
need name none rest = name ∷ rest
need name (some a) rest = rest

-- The names still missing of a fingerprint, in the order of the checks.
unfoldable pub missing_fields : RecipeFields → List String
unfolding apply_neutral_defaults
missing_fields f =
    let g = apply_neutral_defaults f in
    need "filmSimulation" g.film_simulation (
      need "dynamicRange" g.dynamic_range (
        need "highlightTone" g.highlight_tone (
          need "shadowTone" g.shadow_tone (
            need "color" g.color (
              need "sharpness" g.sharpness (
                need "noiseReduction" g.noise_reduction (
                  need "clarity" g.clarity (
                    need "grainEffect" g.grain_effect (
                      need "grainSize" g.grain_size (
                        need "colorChrome" g.color_chrome (
                          need "colorChromeFXBlue" g.color_chrome_fx_blue (
                            need "whiteBalance" g.white_balance (
                              need "wbShiftRed" g.wb_shift_red (
                                need "wbShiftBlue" g.wb_shift_blue (
                                  if holds g.white_balance "Kelvin"
                                  then need "colorTemperature" g.color_temperature []
                                  else [])))))))))))))))

unfoldable pub complete : RecipeFields → Bool
unfolding missing_fields
complete f = elim (missing_fields f) [ [] ↦ true | ◌∷◌ _ _ ↦ false ]

unfoldable pub normalized : RecipeFields → RecipeFields
unfolding apply_neutral_defaults
normalized f =
    let g = apply_neutral_defaults f in
    record g {
      color = if is_mono g.film_simulation then some (pos 0) else g.color;
      monochromatic_wc =
          if is_some g.film_simulation && not (is_mono g.film_simulation)
          then some (pos 0)
          else g.monochromatic_wc;
      monochromatic_mg =
          if is_some g.film_simulation && not (is_mono g.film_simulation)
          then some (pos 0)
          else g.monochromatic_mg;
      grain_size = if holds g.grain_effect "Off" then some "Off" else g.grain_size;
      color_temperature = if holds g.white_balance "Kelvin" then g.color_temperature else none;
    }
