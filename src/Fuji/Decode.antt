-- ===== src/Fuji/Decode.antt =====
-- catalog/fuji.go and catalog/recipe.go: what a decoded maker note says of the recipe.
use Prim.Native.String.{◌++◌, char_at}
use fragments.Base.{
  ℕ, zero, suc, ◌+◌, ◌-◌, ◌/◌, ◌%◌, ◌^◌, String, true, false, Option, none, some, List, ℤ, pos,
  negsuc, neg, Float, is_some, ◌||◌, if◌then◌else◌, ltb, ltb_ℤ, eq_ℤ, str_eq,
}
use fragments.Fuji.Note.{MakerNote, lookup, first, pair}
use fragments.Fuji.Tables.{
  film_mode_names, saturation_film_sim, sharpness_values, saturation_values, noise_reduction_values,
  white_balance_names, strength_labels, grain_size_labels,
}
use fragments.Recipe.{RecipeFields, default_recipe_fields, holds}

-- The digits of a number in a base of at most sixteen; n + 1 is fuel enough.
in_base : ℕ → ℕ → ℕ → String
in_base zero base n = ""
in_base (suc f) base n =
    let digit = char_at "0123456789abcdef" (n % base) in
    elim (ltb n base) [
      | true ↦ String.◌∷◌ digit ""
      | false ↦ in_base f base (n / base) ++ String.◌∷◌ digit ""
    ]

-- %x and %d
unfoldable pub hex : ℤ → String
unfolding in_base
hex (pos n) = in_base (suc n) 16 n
hex (negsuc n) = "-" ++ in_base (suc (suc n)) 16 (suc n)

unfoldable pub decimal : ℤ → String
unfolding in_base
decimal (pos n) = in_base (suc n) 10 n
decimal (negsuc n) = "-" ++ in_base (suc (suc n)) 10 (suc n)

-- uint32(v) of a 64-bit integer
abbrev pub uint32 : ℤ → ℕ
uint32 (pos n) = n % 2 ^ 32
uint32 (negsuc n) = 2 ^ 32 - 1 - n % 2 ^ 32

-- table[v] under a signed key
abbrev pub lookup_signed : ℤ → List (ℕ × ℤ) → Option ℤ
lookup_signed (pos n) table = lookup n table
lookup_signed (negsuc n) table = none

unfoldable pub enum_label : List (ℕ × String) → String → ℤ → String
unfolding hex
enum_label table name v = elim (lookup (uint32 v) table) [
  | some s ↦ s
  | none ↦ name ++ "(0x" ++ hex v ++ ")"
]

-- What saturationFilmSim says of the Saturation tag.
unfoldable pub monochrome_of : MakerNote → Option String
unfolding first
monochrome_of fn = elim (first fn 4099) [
  | none ↦ none
  | some sat ↦ lookup (uint32 sat) saturation_film_sim
]

-- "" where the note says nothing.
unfoldable pub film_simulation : MakerNote → String
unfolding first monochrome_of hex
film_simulation fn = elim (monochrome_of fn) [
  | some name ↦ name
  | none ↦ elim (first fn 5121) [
    | none ↦ ""
    | some fm ↦ elim (lookup (uint32 fm) film_mode_names) [
      | some name ↦ name
      | none ↦ "FilmMode(0x" ++ hex fm ++ ")"
    ]
  ]
]

unfoldable pub d_range_priority : MakerNote → String
unfolding first hex
d_range_priority fn = elim (first fn 5187) [
  | none ↦ "Off"
  | some mode ↦
      if eq_ℤ mode (pos 0)
      then "Auto"
      else if eq_ℤ mode (pos 1)
      then (elim (first fn 5189) [
        | none ↦ "Fixed"
        | some v ↦ if eq_ℤ v (pos 1) then "Weak" else if eq_ℤ v (pos 2) then "Strong" else "Fixed"
      ])
      else "DRangePriority(0x" ++ hex mode ++ ")"
]

-- A user-fixed range without a recorded percentage.
abbrev pub fixed_range : ℤ → String
fixed_range set =
    if eq_ℤ set (pos 256) then "DR100" else if eq_ℤ set (pos 513) then "DR400" else "Auto"

unfoldable pub recipe_dynamic_range : MakerNote → String
unfolding first decimal
recipe_dynamic_range fn = elim (first fn 5122) [
  | none ↦ "Auto"
  | some set ↦
      if eq_ℤ set (pos 1) || eq_ℤ set (pos 256) || eq_ℤ set (pos 512) || eq_ℤ set (pos 513)
      then (elim (first fn 5123) [
        | none ↦ fixed_range set
        | some dev ↦ if ltb_ℤ (pos 0) dev then "DR" ++ decimal dev else fixed_range set
      ])
      else "Auto"
]

-- float64(-raw) / 16
unfoldable pub tone_value : ℤ → Float
tone_value (pos n) = record { negative = ltb 0 n; mantissa = n; scale = 4 }
tone_value (negsuc n) = record { negative = false; mantissa = suc n; scale = 4 }

-- Go's integer division rounds towards zero.
unfoldable pub wb_shift_value : ℤ → ℤ
wb_shift_value (pos n) = pos ((n + 10) / 20)
wb_shift_value (negsuc n) = neg ((suc n + 10) / 20)

unfoldable pub clarity_value : ℤ → ℤ
clarity_value (pos n) = pos (n / 1000)
clarity_value (negsuc n) = neg (suc n / 1000)

-- `if v, ok := fn.first(tag); ok { field = ptr(g(v)) }`
abbrev pub with_first {ℓ} : {A : Type ℓ} → Option ℤ → (ℤ → A) → Option A → Option A
with_first none g field = field
with_first (some v) g field = some (g v)

abbrev pub or_else {ℓ} : {A : Type ℓ} → Option A → Option A → Option A
or_else none field = field
or_else (some a) field = some a

-- The same under a second test, on the table's entry.
abbrev pub with_entry {ℓ} : {A : Type ℓ} → Option ℤ → (ℤ → Option A) → Option A → Option A
with_entry none g field = field
with_entry (some v) g field = or_else (g v) field

abbrev pub color_entry : ℤ → Option ℤ
color_entry v =
    if is_some (lookup (uint32 v) saturation_film_sim)
    then none
    else lookup_signed v saturation_values

-- The white balance and the color temperature tags, and the white balance that is set.
abbrev pub temperature_of : Option ℤ → Option ℤ → Option String → Option ℤ
temperature_of none t wb = none
temperature_of (some v) none wb = if holds wb "Kelvin" then some (pos 0) else none
temperature_of (some v) (some t) wb = if holds wb "Kelvin" then some t else none

unfoldable pub with_shift : (ℤ × ℤ → ℤ) → Option (ℤ × ℤ) → Option ℤ → Option ℤ
unfolding wb_shift_value
with_shift side none field = field
with_shift side (some p) field = some (wb_shift_value (side p))

-- The recipe of a note with a film simulation.
unfoldable pub recipe_of : MakerNote → RecipeFields
unfolding film_simulation recipe_dynamic_range d_range_priority tone_value clarity_value enum_label
    default_recipe_fields first pair with_shift
recipe_of fn =
    let f = default_recipe_fields in
    let wb =
      with_first (first fn 4098) (enum_label white_balance_names "WhiteBalance") f.white_balance in
    record {
      film_simulation = some (film_simulation fn);
      dynamic_range = some (recipe_dynamic_range fn);
      d_range_priority = some (d_range_priority fn);
      highlight_tone = with_first (first fn 4161) tone_value f.highlight_tone;
      shadow_tone = with_first (first fn 4160) tone_value f.shadow_tone;
      color = with_entry (first fn 4099) color_entry f.color;
      sharpness = with_entry (first fn 4097) (λ v. lookup_signed v sharpness_values) f.sharpness;
      noise_reduction =
          with_entry (first fn 4110) (λ v. lookup_signed v noise_reduction_values)
            f.noise_reduction;
      clarity = with_first (first fn 4111) clarity_value f.clarity;
      grain_effect =
          with_entry (first fn 4167) (λ v. lookup (uint32 v) strength_labels) f.grain_effect;
      grain_size =
          with_entry (first fn 4172) (λ v. lookup (uint32 v) grain_size_labels) f.grain_size;
      color_chrome =
          with_entry (first fn 4168) (λ v. lookup (uint32 v) strength_labels) f.color_chrome;
      color_chrome_fx_blue =
          with_entry (first fn 4174) (λ v. lookup (uint32 v) strength_labels)
            f.color_chrome_fx_blue;
      white_balance = wb;
      color_temperature = temperature_of (first fn 4098) (first fn 4101) wb;
      wb_shift_red = with_shift (λ p. p.0) (pair fn 4106) f.wb_shift_red;
      wb_shift_blue = with_shift (λ p. p.1) (pair fn 4106) f.wb_shift_blue;
      monochromatic_wc = with_first (first fn 4169) (λ v. v) f.monochromatic_wc;
      monochromatic_mg = with_first (first fn 4171) (λ v. v) f.monochromatic_mg;
    }

unfoldable pub recipe_fields : MakerNote → Option RecipeFields
unfolding film_simulation recipe_of
recipe_fields fn = if str_eq (film_simulation fn) "" then none else some (recipe_of fn)
