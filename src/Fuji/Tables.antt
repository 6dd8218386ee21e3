-- ===== src/Fuji/Tables.antt =====
-- catalog/fuji.go: the tables from raw tag values to labels and to the scales of the menus. The
-- keys of the signed tables are the non-negative raw values.
use fragments.Base.{ℕ, String, List, [], ◌∷◌, ℤ, pos, neg}

abbrev pub film_mode_names : List (ℕ × String)
film_mode_names =
    (0, "Provia/Standard")
    ∷ (256, "Studio Portrait")
    ∷ (272, "Studio Portrait Enhanced Saturation")
    ∷ (288, "Astia/Soft")
    ∷ (304, "Studio Portrait Increased Sharpness")
    ∷ (512, "Fujichrome/Velvia")
    ∷ (768, "Studio Portrait Ex")
    ∷ (1024, "Velvia/Vivid")
    ∷ (1280, "Pro Neg. Std")
    ∷ (1281, "Pro Neg. Hi")
    ∷ (1536, "Classic Chrome")
    ∷ (1792, "Eterna/Cinema")
    ∷ (2048, "Classic Negative")
    ∷ (2304, "Bleach Bypass/Eterna Bleach Bypass")
    ∷ (2560, "Nostalgic Neg")
    ∷ (2816, "Reala ACE")
    ∷ []

abbrev pub saturation_film_sim : List (ℕ × String)
saturation_film_sim =
    (768, "Monochrome")
    ∷ (769, "Monochrome + R Filter")
    ∷ (770, "Monochrome + Ye Filter")
    ∷ (771, "Monochrome + G Filter")
    ∷ (784, "Sepia")
    ∷ (1280, "Acros")
    ∷ (1281, "Acros + R Filter")
    ∷ (1282, "Acros + Ye Filter")
    ∷ (1283, "Acros + G Filter")
    ∷ []

abbrev pub white_balance_names : List (ℕ × String)
white_balance_names =
    (0, "Auto")
    ∷ (1, "Auto (white priority)")
    ∷ (2, "Auto (ambiance priority)")
    ∷ (256, "Daylight")
    ∷ (512, "Cloudy")
    ∷ (768, "Daylight Fluorescent")
    ∷ (769, "Day White Fluorescent")
    ∷ (770, "White Fluorescent")
    ∷ (771, "Warm White Fluorescent")
    ∷ (772, "Living Room Warm White Fluorescent")
    ∷ (1024, "Incandescent")
    ∷ (1280, "Flash")
    ∷ (1536, "Underwater")
    ∷ (3840, "Custom")
    ∷ (3841, "Custom2")
    ∷ (3842, "Custom3")
    ∷ (3843, "Custom4")
    ∷ (3844, "Custom5")
    ∷ (4080, "Kelvin")
    ∷ []

abbrev pub strength_labels : List (ℕ × String)
strength_labels = (0, "Off") ∷ (32, "Weak") ∷ (64, "Strong") ∷ []

abbrev pub grain_size_labels : List (ℕ × String)
grain_size_labels = (0, "Off") ∷ (16, "Small") ∷ (32, "Large") ∷ []

abbrev pub sharpness_values : List (ℕ × ℤ)
sharpness_values =
    (0, neg 4)
    ∷ (1, neg 3)
    ∷ (2, neg 2)
    ∷ (130, neg 1)
    ∷ (3, pos 0)
    ∷ (132, pos 1)
    ∷ (4, pos 2)
    ∷ (5, pos 3)
    ∷ (6, pos 4)
    ∷ []

abbrev pub saturation_values : List (ℕ × ℤ)
saturation_values =
    (0, pos 0)
    ∷ (128, pos 1)
    ∷ (256, pos 2)
    ∷ (192, pos 3)
    ∷ (224, pos 4)
    ∷ (384, neg 1)
    ∷ (1024, neg 2)
    ∷ (1216, neg 3)
    ∷ (1248, neg 4)
    ∷ []

abbrev pub noise_reduction_values : List (ℕ × ℤ)
noise_reduction_values =
    (0, pos 0)
    ∷ (384, pos 1)
    ∷ (256, pos 2)
    ∷ (448, pos 3)
    ∷ (480, pos 4)
    ∷ (640, neg 1)
    ∷ (512, neg 2)
    ∷ (704, neg 3)
    ∷ (736, neg 4)
    ∷ []
