-- ===== src/Bucket/Keys.antt =====
-- catalog/s3.go: what an object's key says, with the functions of path and strings that it calls.
use Prim.Native.Nat.{ℕ}
use Prim.Native.Char.{Char, code}
use fragments.Base.{
  String, Bool, true, false, not, ◌&&◌, ◌||◌, List, [], ◌∷◌, ◌-◌, str_eq, leb, ◌==◌, if◌then◌else◌,
}

abbrev pub is_empty : String → Bool
is_empty String.[] = true
is_empty (String.◌∷◌ c s) = false

unfoldable pub has_code : ℕ → String → Bool
has_code n String.[] = false
has_code n (String.◌∷◌ c s) = (code c == n) || has_code n s

unfoldable pub starts_at : ℕ → String → Bool
starts_at n String.[] = false
starts_at n (String.◌∷◌ c s) = code c == n

unfoldable pub ends_at : ℕ → String → Bool
ends_at n String.[] = false
ends_at n (String.◌∷◌ c s) = if is_empty s then code c == n else ends_at n s

abbrev push : Char → List String → List String
push c [] = (String.◌∷◌ c String.[]) ∷ []
push c (s ∷ rest) = (String.◌∷◌ c s) ∷ rest

-- strings.Split at a byte
unfoldable pub split_at : ℕ → String → List String
split_at n String.[] = "" ∷ []
split_at n (String.◌∷◌ c s) = if code c == n then "" ∷ split_at n s else push c (split_at n s)

abbrev any_dots : List String → Bool
any_dots [] = false
any_dots (seg ∷ rest) = str_eq seg "." || str_eq seg ".." || any_dots rest

unfoldable pub safe_key : String → Bool
unfolding has_code starts_at split_at
safe_key key =
    not (is_empty key || starts_at b'/' key || has_code b'\\' key)
    && not (any_dots (split_at b'/' key))

-- The text without its extension, and the extension: path.Ext and strings.TrimSuffix.
abbrev with_char : Char → String × String → Bool → String × String
with_char c (b, e) in_dir =
    if not (is_empty e)
    then (String.◌∷◌ c b, e)
    else (if (code c == b'.') && not in_dir then ("", String.◌∷◌ c b) else (String.◌∷◌ c b, e))

unfoldable pub split_ext : String → String × String
unfolding has_code
split_ext String.[] = ("", "")
split_ext (String.◌∷◌ c s) = with_char c (split_ext s) (has_code b'/' s)

-- strings.ToUpper where the answer is ASCII: of other letters only the long s and the dotless i
-- have an ASCII capital.
abbrev upper_code : ℕ → ℕ
upper_code n =
    if leb b'a' n && leb n b'z'
    then n - 32
    else (if n == 383 then b'S' else (if n == 305 then b'I' else n))

unfoldable pub upper_codes : String → List ℕ
upper_codes String.[] = []
upper_codes (String.◌∷◌ c s) = upper_code (code c) ∷ upper_codes s
