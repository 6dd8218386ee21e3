-- ===== src/Recipe/Vocabulary.antt =====
-- catalog/recipe.go: the canonical vocabulary.
use fragments.Base.{String, Bool, List, [], ◌∷◌, in_list}

abbrev pub film_simulation_names : List String
film_simulation_names =
    "Provia/Standard" ∷ "Velvia/Vivid" ∷ "Astia/Soft" ∷ "Classic Chrome" ∷ "Reala ACE"
    ∷ "Pro Neg. Hi" ∷ "Pro Neg. Std" ∷ "Classic Negative" ∷ "Nostalgic Neg" ∷ "Eterna/Cinema"
    ∷ "Bleach Bypass/Eterna Bleach Bypass" ∷ "Fujichrome/Velvia" ∷ "Studio Portrait"
    ∷ "Studio Portrait Enhanced Saturation" ∷ "Studio Portrait Increased Sharpness"
    ∷ "Studio Portrait Ex" ∷ "Acros" ∷ "Acros + Ye Filter" ∷ "Acros + R Filter" ∷ "Acros + G Filter"
    ∷ "Monochrome" ∷ "Monochrome + Ye Filter" ∷ "Monochrome + R Filter" ∷ "Monochrome + G Filter"
    ∷ "Sepia" ∷ []

abbrev pub monochrome_simulations : List String
monochrome_simulations =
    "Acros" ∷ "Acros + Ye Filter" ∷ "Acros + R Filter" ∷ "Acros + G Filter" ∷ "Monochrome"
    ∷ "Monochrome + Ye Filter" ∷ "Monochrome + R Filter" ∷ "Monochrome + G Filter" ∷ "Sepia" ∷ []

abbrev pub dynamic_range_names : List String
dynamic_range_names = "Auto" ∷ "DR100" ∷ "DR200" ∷ "DR400" ∷ []

abbrev pub d_range_priority_names : List String
d_range_priority_names = "Off" ∷ "Auto" ∷ "Weak" ∷ "Strong" ∷ []

abbrev pub strength_names : List String
strength_names = "Off" ∷ "Weak" ∷ "Strong" ∷ []

abbrev pub grain_size_names : List String
grain_size_names = "Off" ∷ "Small" ∷ "Large" ∷ []

abbrev pub white_balance_list_names : List String
white_balance_list_names =
    "Auto" ∷ "Auto (white priority)" ∷ "Auto (ambiance priority)" ∷ "Daylight" ∷ "Cloudy"
    ∷ "Daylight Fluorescent" ∷ "Day White Fluorescent" ∷ "White Fluorescent"
    ∷ "Warm White Fluorescent" ∷ "Living Room Warm White Fluorescent" ∷ "Incandescent" ∷ "Flash"
    ∷ "Underwater" ∷ "Kelvin" ∷ "Custom" ∷ "Custom2" ∷ "Custom3" ∷ "Custom4" ∷ "Custom5" ∷ []

unfoldable pub is_monochrome_sim : String → Bool
is_monochrome_sim sim = in_list sim monochrome_simulations
