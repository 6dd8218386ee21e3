-- ===== src/Fuji/Vocabulary.antt =====
-- catalog/fuji.go and catalog/recipe.go: the tables of the decoder stay in the vocabulary of recipes.
use fragments.Base.{
  Bool, false, not, ◌||◌, ◌==◌, if◌then◌else◌, ◌≡◌, refl, arith, ℕ, String, Option, none, some,
  List, [], ◌∷◌, ℤ, pos, neg, subst, concat,
}
use fragments.Recipe.{RecipeFields, default_recipe_fields, holds}
use fragments.Recipe.Validate.{enum, int_range, known, grain, Problem, grain_conflict}
use fragments.Recipe.Vocabulary.{strength_names, grain_size_names}
use fragments.Fuji.Note.{MakerNote, first, lookup}
use fragments.Fuji.Tables.{
  strength_labels, grain_size_labels, sharpness_values, saturation_values, noise_reduction_values,
}
use fragments.Fuji.Decode.{
  recipe_fields, recipe_of, lookup_signed, color_entry, uint32, with_entry, or_else,
}

strength-Known :
    (n : ℕ) (name : String)
    → enum name (or_else (lookup n strength_labels) (some "Off")) strength_names ≡ []
unfolding known
strength-Known n name = ground arith

size-Known :
    (n : ℕ) (name : String)
    → enum name (or_else (lookup n grain_size_labels) (some "Off")) grain_size_names ≡ []
unfolding known
size-Known n name = ground arith

sharpness-Scale :
    (v : ℤ) (name : String)
    → int_range name (or_else (lookup_signed v sharpness_values) (some (pos 0))) (neg 4) (pos 4)
      ≡ []
sharpness-Scale v name = ground arith

noise-Scale :
    (v : ℤ) (name : String)
    → int_range name
        (or_else (lookup_signed v noise_reduction_values) (some (pos 0)))
        (neg 4)
        (pos 4)
      ≡ []
noise-Scale v name = ground arith

saturation-Scale :
    (v : ℤ) (name : String)
    → int_range name (or_else (lookup_signed v saturation_values) (some (pos 0))) (neg 4) (pos 4)
      ≡ []
saturation-Scale v name = ground arith

color-Scale :
    (v : ℤ) → int_range "color" (or_else (color_entry v) (some (pos 0))) (neg 4) (pos 4) ≡ []
color-Scale v = ground (arith, saturation-Scale v "color")

-- The checks of Validate on the fields that the decoder reads from tables, without that of the grain's
-- effect against its size.
abbrev pub tabled : RecipeFields → List (List Problem)
tabled f =
    int_range "color" f.color (neg 4) (pos 4)
    ∷ int_range "sharpness" f.sharpness (neg 4) (pos 4)
    ∷ int_range "noiseReduction" f.noise_reduction (neg 4) (pos 4)
    ∷ enum "grainEffect" f.grain_effect strength_names
    ∷ enum "grainSize" f.grain_size grain_size_names
    ∷ enum "colorChrome" f.color_chrome strength_names
    ∷ enum "colorChromeFXBlue" f.color_chrome_fx_blue strength_names
    ∷ []

strength-Entry :
    (o : Option ℤ) (name : String)
    → enum name (with_entry o (λ v. lookup (uint32 v) strength_labels) (some "Off")) strength_names
      ≡ []
unfolding known
strength-Entry none name = refl
strength-Entry (some v) name = strength-Known (uint32 v) name

scale-Entry :
    (o : Option ℤ) (g : ℤ → Option ℤ) (name : String)
    → ((v : ℤ) → int_range name (or_else (g v) (some (pos 0))) (neg 4) (pos 4) ≡ [])
    → int_range name (with_entry o g (some (pos 0))) (neg 4) (pos 4) ≡ []
scale-Entry none g name h = refl
scale-Entry (some v) g name h = h v

size-Entry :
    (o : Option ℤ)
    → enum "grainSize"
        (with_entry o (λ v. lookup (uint32 v) grain_size_labels) (some "Off"))
        grain_size_names
      ≡ []
unfolding known
size-Entry none = refl
size-Entry (some v) = size-Known (uint32 v) "grainSize"

recipe_of-tabled : (fn : MakerNote) → concat (tabled (recipe_of fn)) ≡ []
unfolding recipe_of default_recipe_fields
recipe_of-tabled fn =
    rw
      (
        scale-Entry (first fn 4099) color_entry "color" color-Scale,
        scale-Entry (first fn 4097) (λ v. lookup_signed v sharpness_values) "sharpness"
            (λ v. sharpness-Scale v "sharpness"),
        scale-Entry (first fn 4110) (λ v. lookup_signed v noise_reduction_values) "noiseReduction"
            (λ v. noise-Scale v "noiseReduction"),
        strength-Entry (first fn 4167) "grainEffect",
        size-Entry (first fn 4172),
        strength-Entry (first fn 4168) "colorChrome",
        strength-Entry (first fn 4174) "colorChromeFXBlue",
      )
      refl

-- The grain's effect, where its tag names an active one, and whether the size's tag names a size.
abbrev pub active_grain : Option ℤ → Option String
active_grain none = none
active_grain (some v) =
    if uint32 v == 32 then some "Weak" else (if uint32 v == 64 then some "Strong" else none)

abbrev pub is_sized : Option ℤ → Bool
is_sized none = false
is_sized (some v) = uint32 v == 16 || uint32 v == 32

-- An active grain without a size is a conflict.
abbrev pub grain_problems : Option String → Bool → List Problem
grain_problems none sized = []
grain_problems (some effect) sized = if sized then [] else grain_conflict effect ∷ []

grain_size-Off :
    (o : Option ℤ)
    → holds (with_entry o (λ v. lookup (uint32 v) grain_size_labels) (some "Off")) "Off"
      ≡ not (is_sized o)
grain_size-Off none = refl
grain_size-Off (some v) = ground arith

grain-Known :
    (o : Option ℤ) (size : Option String) (sized : Bool)
    → holds size "Off" ≡ not sized
    → grain (with_entry o (λ v. lookup (uint32 v) strength_labels) (some "Off")) size
      ≡ grain_problems (active_grain o) sized
grain-Known none size sized h = refl
grain-Known (some v) size sized h = ground arith

recipe_of-grain :
    (fn : MakerNote)
    → grain (recipe_of fn).grain_effect (recipe_of fn).grain_size
      ≡ grain_problems (active_grain (first fn 4167)) (is_sized (first fn 4172))
unfolding recipe_of default_recipe_fields
recipe_of-grain fn =
    grain-Known (first fn 4167)
      (with_entry (first fn 4172) (λ v. lookup (uint32 v) grain_size_labels) (some "Off"))
      (is_sized (first fn 4172)) (grain_size-Off (first fn 4172))

-- Whatever the raw values of a maker note: of a decoded recipe the color, sharpness and noise
-- reduction pass the range checks of Validate, and the labels of grain and chrome its vocabulary
-- checks; its check of the grain's effect against the size reports a conflict exactly if tag 0x1047
-- says Weak or Strong and tag 0x104c says neither Small nor Large.
pub recipe_fields-tabled :
    (fn : MakerNote) (f : RecipeFields)
    → recipe_fields fn ≡ some f
    → (concat (tabled f) ≡ [])
      × (grain f.grain_effect f.grain_size
          ≡ grain_problems (active_grain (first fn 4167)) (is_sized (first fn 4172)))
unfolding recipe_fields
recipe_fields-tabled fn f h =
    let e : recipe_of fn ≡ f = ground arith in
    (
      subst (λ g. concat (tabled g) ≡ []) e (recipe_of-tabled fn),
      subst
          (λ g.
            grain g.grain_effect g.grain_size
            ≡ grain_problems (active_grain (first fn 4167)) (is_sized (first fn 4172)))
          e (recipe_of-grain fn),
    )
