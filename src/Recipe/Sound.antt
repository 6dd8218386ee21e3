-- ===== src/Recipe/Sound.antt =====
-- catalog/recipe.go: what the validation of a recipe promises.
use fragments.Base.{◌≡◌, refl, true, arith, List, [], ◌∷◌, pos, neg, All, concat}
use fragments.Recipe.{RecipeFields, apply_neutral_defaults, normalized}
use fragments.Recipe.Vocabulary.{d_range_priority_names, grain_size_names}
use fragments.Recipe.Validate.{validate, known, checks, enum, int_range, grain, Problem}

abbrev IsClean : List Problem → Type 0
IsClean c = c ≡ []

All-validate : (cs : List (List Problem)) → concat cs ≡ [] → All IsClean cs
All-validate [] h = tt
All-validate ([] ∷ cs) h = (refl, All-validate cs h)
All-validate ((p ∷ ps) ∷ cs) h = ground arith

validate-All : (cs : List (List Problem)) → All IsClean cs → concat cs ≡ []
validate-All [] h = refl
validate-All ([] ∷ cs) h = validate-All cs h.1
validate-All ((p ∷ ps) ∷ cs) h = ground arith

off_priority : known "Off" d_range_priority_names ≡ true
unfolding known
off_priority = refl

off_size : known "Off" grain_size_names ≡ true
unfolding known
off_size = refl

enum-priority :
    (f : RecipeFields)
    → enum "dRangePriority" f.d_range_priority d_range_priority_names ≡ []
    → enum "dRangePriority" (normalized f).d_range_priority d_range_priority_names ≡ []
unfolding normalized apply_neutral_defaults
enum-priority f h = ground (arith, off_priority)

enum-size :
    (f : RecipeFields)
    → enum "grainSize" f.grain_size grain_size_names ≡ []
    → enum "grainSize" (normalized f).grain_size grain_size_names ≡ []
unfolding normalized apply_neutral_defaults
enum-size f h = ground (arith, off_size)

grain-size :
    (f : RecipeFields)
    → grain f.grain_effect f.grain_size ≡ []
    → grain (normalized f).grain_effect (normalized f).grain_size ≡ []
unfolding normalized apply_neutral_defaults
grain-size f h = ground arith

range-color :
    (f : RecipeFields)
    → int_range "color" f.color (neg 4) (pos 4) ≡ []
    → int_range "color" (normalized f).color (neg 4) (pos 4) ≡ []
unfolding normalized apply_neutral_defaults
range-color f h = ground arith

range-wc :
    (f : RecipeFields)
    → int_range "monochromaticWC" f.monochromatic_wc (neg 18) (pos 18) ≡ []
    → int_range "monochromaticWC" (normalized f).monochromatic_wc (neg 18) (pos 18) ≡ []
unfolding normalized apply_neutral_defaults
range-wc f h = ground arith

range-mg :
    (f : RecipeFields)
    → int_range "monochromaticMG" f.monochromatic_mg (neg 18) (pos 18) ≡ []
    → int_range "monochromaticMG" (normalized f).monochromatic_mg (neg 18) (pos 18) ≡ []
unfolding normalized apply_neutral_defaults
range-mg f h = ground arith

range-temperature :
    (f : RecipeFields)
    → int_range "colorTemperature" f.color_temperature (pos 2500) (pos 10000) ≡ []
    → int_range "colorTemperature" (normalized f).color_temperature (pos 2500) (pos 10000) ≡ []
unfolding normalized apply_neutral_defaults
range-temperature f h = ground arith

normalized-checks :
    (f : RecipeFields) → All IsClean (checks f) → All IsClean (checks (normalized f))
unfolding normalized apply_neutral_defaults
normalized-checks f
      (
        fs,
        (
          dr,
          (
            dp,
            (
              ht,
              (
                st,
                (
                  co,
                  (
                    sh,
                    (nr, (cl, (wr, (wb, (wc, (mg, (ct, (ge, (gs, (gr, (cc, (cb, (wh, e))))))))))))),
                  ),
                ),
              ),
            ),
          ),
        ),
      ) =
    (
      fs,
      (
        dr,
        (
          enum-priority f dp,
          (
            ht,
            (
              st,
              (
                range-color f co,
                (
                  sh,
                  (
                    nr,
                    (
                      cl,
                      (
                        wr,
                        (
                          wb,
                          (
                            range-wc f wc,
                            (
                              range-mg f mg,
                              (
                                range-temperature f ct,
                                (ge, (enum-size f gs, (grain-size f gr, (cc, (cb, (wh, e)))))),
                              ),
                            ),
                          ),
                        ),
                      ),
                    ),
                  ),
                ),
              ),
            ),
          ),
        ),
      ),
    )

-- A recipe that validates still does in its normal form.
pub validate-normalized : (f : RecipeFields) → validate f ≡ [] → validate (normalized f) ≡ []
unfolding validate
validate-normalized f h =
    validate-All (checks (normalized f)) (normalized-checks f (All-validate (checks f) h))
