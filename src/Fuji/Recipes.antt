-- ===== src/Fuji/Recipes.antt =====
-- catalog/recipe.go: the recipe that is decoded of a maker note.
use fragments.Base.{
  ◌≡◌, refl, arith, ◌+◌, ◌*◌, ◌%◌, ◌≤◌, ◌<◌, String, true, ◌&&◌, Option, none, some, ℤ, pos, negsuc,
  pos_part, neg_part, leb, ◌==◌, is_some, whole, subst, if◌then◌else◌,
}
use fragments.Recipe.{
  RecipeFields, complete, missing_fields, apply_neutral_defaults, holds, default_recipe_fields,
}
use fragments.Recipe.Validate.{tone_ok}
use fragments.Fuji.Note.{MakerNote, first, pair, lookup}
use fragments.Fuji.Tables.{
  strength_labels, grain_size_labels, white_balance_names, sharpness_values, noise_reduction_values,
}
use fragments.Fuji.Decode.{
  recipe_fields, recipe_of, clarity_value, enum_label, tone_value, wb_shift_value, lookup_signed,
  color_entry, uint32, with_entry, with_first, temperature_of, with_shift, or_else,
}

abbrev IsGiven : RecipeFields → Type 0
IsGiven f =
    (is_some f.film_simulation ≡ true)
    × (is_some f.dynamic_range ≡ true)
    × (is_some f.highlight_tone ≡ true)
    × (is_some f.shadow_tone ≡ true)
    × (is_some f.color ≡ true)
    × (is_some f.sharpness ≡ true)
    × (is_some f.noise_reduction ≡ true)
    × (is_some f.clarity ≡ true)
    × (is_some f.grain_effect ≡ true)
    × (is_some f.grain_size ≡ true)
    × (is_some f.color_chrome ≡ true)
    × (is_some f.color_chrome_fx_blue ≡ true)
    × (is_some f.white_balance ≡ true)
    × (is_some f.wb_shift_red ≡ true)
    × (is_some f.wb_shift_blue ≡ true)
    × ((if holds f.white_balance "Kelvin" then is_some f.color_temperature else true) ≡ true)

IsGiven-complete : (f : RecipeFields) → IsGiven f → complete f ≡ true
unfolding complete missing_fields apply_neutral_defaults
IsGiven-complete f h = ground arith

with_first-Some :
    {A : Type 0} (o : Option ℤ) (g : ℤ → A) (d : A) → is_some (with_first o g (some d)) ≡ true
with_first-Some none g d = refl
with_first-Some (some v) g d = refl

or_else-Some : {A : Type 0} (o : Option A) (d : A) → is_some (or_else o (some d)) ≡ true
or_else-Some none d = refl
or_else-Some (some a) d = refl

with_entry-Some :
    {A : Type 0} (o : Option ℤ) (g : ℤ → Option A) (d : A)
    → is_some (with_entry o g (some d)) ≡ true
with_entry-Some none g d = refl
with_entry-Some (some v) g d = or_else-Some (g v) d

with_shift-Some :
    (side : ℤ × ℤ → ℤ) (o : Option (ℤ × ℤ)) (d : ℤ) → is_some (with_shift side o (some d)) ≡ true
unfolding with_shift
with_shift-Some side none d = refl
with_shift-Some side (some p) d = refl

abbrev white_balance_of : Option ℤ → Option String
white_balance_of o = with_first o (enum_label white_balance_names "WhiteBalance") (some "Auto")

temperature-Given :
    (wb temperature : Option ℤ)
    → (if holds (white_balance_of wb) "Kelvin"
        then is_some (temperature_of wb temperature (white_balance_of wb))
        else true)
      ≡ true
temperature-Given none t = ground arith
temperature-Given (some v) none = ground arith
temperature-Given (some v) (some t) = ground arith

recipe_of-Given : (fn : MakerNote) → IsGiven (recipe_of fn)
unfolding recipe_of default_recipe_fields
recipe_of-Given fn = (
  refl,
  refl,
  with_first-Some (first fn 4161) tone_value (whole 0),
  with_first-Some (first fn 4160) tone_value (whole 0),
  with_entry-Some (first fn 4099) color_entry (pos 0),
  with_entry-Some (first fn 4097) (λ v. lookup_signed v sharpness_values) (pos 0),
  with_entry-Some (first fn 4110) (λ v. lookup_signed v noise_reduction_values) (pos 0),
  with_first-Some (first fn 4111) clarity_value (pos 0),
  with_entry-Some (first fn 4167) (λ v. lookup (uint32 v) strength_labels) "Off",
  with_entry-Some (first fn 4172) (λ v. lookup (uint32 v) grain_size_labels) "Off",
  with_entry-Some (first fn 4168) (λ v. lookup (uint32 v) strength_labels) "Off",
  with_entry-Some (first fn 4174) (λ v. lookup (uint32 v) strength_labels) "Off",
  with_first-Some (first fn 4098) (enum_label white_balance_names "WhiteBalance") "Auto",
  with_shift-Some (λ p. p.0) (pair fn 4106) (pos 0),
  with_shift-Some (λ p. p.1) (pair fn 4106) (pos 0),
  temperature-Given (first fn 4098) (first fn 4101),
)

-- A decoded recipe names a value for every control of the fingerprint, whatever tags the note has.
pub recipe_fields-complete :
    (fn : MakerNote) (f : RecipeFields) → recipe_fields fn ≡ some f → complete f ≡ true
unfolding recipe_fields
recipe_fields-complete fn f h =
    let e : recipe_of fn ≡ f = ground arith in
    subst (λ g. complete g ≡ true) e (IsGiven-complete (recipe_of fn) (recipe_of-Given fn))

-- A raw shift decodes to the nearest step of twenty, its sign kept.
pub wb_shift_value_nearest :
    (raw : ℤ)
    → (20 * pos_part (wb_shift_value raw) ≤ pos_part raw + 10)
      × (pos_part raw < 20 * pos_part (wb_shift_value raw) + 10)
      × (20 * neg_part (wb_shift_value raw) ≤ neg_part raw + 10)
      × (neg_part raw < 20 * neg_part (wb_shift_value raw) + 10)
unfolding wb_shift_value
wb_shift_value_nearest (pos n) = ground arith
wb_shift_value_nearest (negsuc n) = ground arith

-- A decoded tone validates exactly if the raw value is a multiple of 8 from -64 to 32: a half step
-- from -2 to 4 with the sign turned.
pub tone_ok-tone_value :
    (raw : ℤ)
    → tone_ok (tone_value raw) ≡ (
        leb (pos_part raw) 32
        && leb (neg_part raw) 64
        && (pos_part raw % 8 == 0)
        && (neg_part raw % 8 == 0))
unfolding tone_ok tone_value
tone_ok-tone_value (pos n) = ground arith
tone_ok-tone_value (negsuc n) = ground arith
