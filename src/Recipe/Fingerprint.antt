-- ===== src/Recipe/Fingerprint.antt =====
-- catalog/recipe.go: RecipeFields.Fingerprint. The digest, hex of SHA-256 cut to 16 digits, is a
-- parameter; the bytes that it is taken of are built as the code builds them. A read through a nil
-- field is `none`.
use fragments.Base.{
  ℕ, zero, suc, ◌+◌, ◌*◌, ◌/◌, ◌%◌, ◌^◌, String, Bool, true, false, Option, none, some, List, [],
  ◌∷◌, ◌++◌, digits, ℤ, pos, negsuc, Float, is_zero, codes, if◌then◌else◌, ◌>>=◌, ltb, ◌==◌,
}
use fragments.Recipe.{RecipeFields, complete, normalized}

-- strconv.Itoa
unfoldable pub itoa : ℤ → List ℕ
unfolding digits
itoa (pos n) = digits n
itoa (negsuc n) = b'-' ∷ digits (suc n)

-- The decimals of frac / den until none is left; a binary fraction has `scale` of them at most.
frac_digits : ℕ → ℕ → ℕ → List ℕ
frac_digits zero frac den = []
frac_digits (suc f) frac den = elim (frac == 0) [
  | true ↦ []
  | false ↦ (b'0' + frac * 10 / den) ∷ frac_digits f (frac * 10 % den) den
]

-- strconv.FormatFloat(v, 'f', -1, 64): the exact decimal expansion, which is the shortest one that
-- reads back for values of up to fifteen digits.
unfoldable pub format_float : Float → List ℕ
unfolding frac_digits digits
format_float v =
    let den = 2 ^ v.scale in
    let decimals = frac_digits v.scale (v.mantissa % den) den in
    (if v.negative then b'-' ∷ [] else [])
    ++ digits (v.mantissa / den)
    ++ (elim decimals [ [] ↦ [] | ◌∷◌ d ds ↦ b'.' ∷ d ∷ ds ])

-- Both zeros render as "0".
unfoldable pub num : Float → List ℕ
unfolding format_float
num v = if is_zero v then b'0' ∷ [] else format_float v

abbrev pub line : String → List ℕ → List ℕ
line name value = codes name ++ value

unfoldable pub temperature_line : Option ℤ → List (List ℕ)
unfolding itoa
temperature_line none = []
temperature_line (some t) = line "colorTemperature=" (itoa t) ∷ []

unfoldable pub recipe_lines : RecipeFields → Option (List (List ℕ))
unfolding itoa num temperature_line
recipe_lines g = do
  clarity ← g.clarity
  color ← g.color
  chrome ← g.color_chrome
  blue_fx ← g.color_chrome_fx_blue
  priority ← g.d_range_priority
  range ← g.dynamic_range
  film ← g.film_simulation
  grain ← g.grain_effect
  size ← g.grain_size
  highlight ← g.highlight_tone
  mg ← g.monochromatic_mg
  wc ← g.monochromatic_wc
  noise ← g.noise_reduction
  shadow ← g.shadow_tone
  sharp ← g.sharpness
  blue ← g.wb_shift_blue
  red ← g.wb_shift_red
  white ← g.white_balance
  some (
      line "clarity=" (itoa clarity)
      ∷ line "color=" (itoa color)
      ∷ line "colorChrome=" (codes chrome)
      ∷ line "colorChromeFXBlue=" (codes blue_fx)
      ∷ line "dRangePriority=" (codes priority)
      ∷ line "dynamicRange=" (codes range)
      ∷ line "filmSimulation=" (codes film)
      ∷ line "grainEffect=" (codes grain)
      ∷ line "grainSize=" (codes size)
      ∷ line "highlightTone=" (num highlight)
      ∷ line "monochromaticMG=" (itoa mg)
      ∷ line "monochromaticWC=" (itoa wc)
      ∷ line "noiseReduction=" (itoa noise)
      ∷ line "shadowTone=" (num shadow)
      ∷ line "sharpness=" (itoa sharp)
      ∷ line "wbShiftBlue=" (itoa blue)
      ∷ line "wbShiftRed=" (itoa red)
      ∷ line "whiteBalance=" (codes white)
      ∷ temperature_line g.color_temperature)

-- sort.Strings, byte by byte.
bytes_le : List ℕ → List ℕ → Bool
bytes_le [] ys = true
bytes_le (x ∷ xs) [] = false
bytes_le (x ∷ xs) (y ∷ ys) = let rest = bytes_le xs ys in if x == y then rest else ltb x y

insert_line : List ℕ → List (List ℕ) → List (List ℕ)
unfolding bytes_le
insert_line l [] = l ∷ []
insert_line l (m ∷ ms) = if bytes_le l m then l ∷ m ∷ ms else m ∷ insert_line l ms

unfoldable pub sort_lines : List (List ℕ) → List (List ℕ)
unfolding insert_line
sort_lines [] = []
sort_lines (l ∷ ls) = insert_line l (sort_lines ls)

-- strings.Join(lines, "\n")
unfoldable pub join_lines : List (List ℕ) → List ℕ
join_lines [] = []
join_lines (l ∷ []) = l
join_lines (l ∷ m ∷ ms) = l ++ 10 ∷ join_lines (m ∷ ms)

unfoldable pub preimage : List (List ℕ) → List ℕ
unfolding sort_lines join_lines
preimage ls = codes "v1" ++ 10 ∷ join_lines (sort_lines ls)

-- `none` is a panic, "" an incomplete recipe.
unfoldable pub fingerprint : (List ℕ → String) → RecipeFields → Option String
unfolding recipe_lines preimage
fingerprint digest f =
    if complete f
    then (do ls ← recipe_lines (normalized f); some (digest (preimage ls)))
    else some ""
