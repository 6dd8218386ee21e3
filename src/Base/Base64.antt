-- ===== src/Base/Base64.antt =====
-- base64.RawURLEncoding of encoding/base64, on bytes.
use Prim.Native.Nat.{ℕ, ◌+◌, ◌-◌, ◌*◌, ◌/◌, ◌%◌, ◌≤◌, ◌<◌}
use mathlib.Core.Path.{◌≡◌, refl}
use mathlib.Core.Logic.{◌≢◌}
use mathlib.Core.Bool.{Bool, false, not, ◌&&◌, ◌||◌}
use mathlib.Core.Option.{Option, none, some}
use mathlib.Core.List.{List, [], ◌∷◌}
use native.Mathlib.Omega.{arith}
use fragments.Base.Tests.{ltb, leb, ◌==◌, if◌then◌else◌, ◌>>=◌}
use fragments.Base.Lists.{All, keep, length}

-- The URL alphabet: A-Z, a-z, 0-9, - and _.
abbrev pub sextet_char : ℕ → ℕ
sextet_char d =
    if ltb d 26
    then b'A' + d
    else (if ltb d 52
        then b'a' + (d - 26)
        else (if ltb d 62 then b'0' + (d - 52) else (if d == 62 then b'-' else b'_')))

abbrev pub char_sextet : ℕ → Option ℕ
char_sextet c =
    if leb b'A' c && leb c b'Z'
    then some (c - b'A')
    else (if leb b'a' c && leb c b'z'
        then some (26 + (c - b'a'))
        else (if leb b'0' c && leb c b'9'
            then some (52 + (c - b'0'))
            else (if c == b'-' then some 62 else (if c == b'_' then some 63 else none))))

sextets : List ℕ → List ℕ
sextets [] = []
sextets (a ∷ []) = (a / 4) ∷ (a % 4 * 16) ∷ []
sextets (a ∷ b ∷ []) = (a / 4) ∷ (a % 4 * 16 + b / 16) ∷ (b % 16 * 4) ∷ []
sextets (a ∷ b ∷ c ∷ rest) =
    (a / 4) ∷ (a % 4 * 16 + b / 16) ∷ (b % 16 * 4 + c / 64) ∷ (c % 64) ∷ sextets rest

-- The bits that are left over at the end are not looked at; a single character is an error.
octets : List ℕ → Option (List ℕ)
octets [] = some []
octets (p ∷ []) = none
octets (p ∷ q ∷ []) = some ((p * 4 + q / 16) ∷ [])
octets (p ∷ q ∷ r ∷ []) = some ((p * 4 + q / 16) ∷ (q % 16 * 16 + r / 4) ∷ [])
octets (p ∷ q ∷ r ∷ s ∷ rest) = do
  bytes ← octets rest
  some ((p * 4 + q / 16) ∷ (q % 16 * 16 + r / 4) ∷ (r % 4 * 64 + s) ∷ bytes)

map_chars : List ℕ → List ℕ
map_chars [] = []
map_chars (d ∷ ds) = sextet_char d ∷ map_chars ds

read_chars : List ℕ → Option (List ℕ)
read_chars [] = some []
read_chars (c ∷ cs) = do d ← char_sextet c; ds ← read_chars cs; some (d ∷ ds)

abbrev pub is_newline : ℕ → Bool
is_newline c = (c == 10) || (c == 13)

unfoldable pub base64_encode : List ℕ → List ℕ
unfolding sextets map_chars
base64_encode bytes = map_chars (sextets bytes)

-- The decoder passes over line ends.
unfoldable pub base64_decode : List ℕ → Option (List ℕ)
unfolding octets read_chars
base64_decode text = do ds ← read_chars (keep (λ c. not (is_newline c)) text); octets ds

abbrev pub IsByte : ℕ → Type 0
IsByte b = b < 256

abbrev IsSextet : ℕ → Type 0
IsSextet d = d < 64

char_sextet-sextet_char : (d : ℕ) → d < 64 → char_sextet (sextet_char d) ≡ some d
char_sextet-sextet_char d h = ground (arith)

newline-sextet_char : (d : ℕ) → d < 64 → is_newline (sextet_char d) ≡ false
newline-sextet_char d h = ground (arith)

read_chars-map_chars :
    (ds : List ℕ)
    → All IsSextet ds
    → read_chars (keep (λ c. not (is_newline c)) (map_chars ds)) ≡ some ds
unfolding map_chars read_chars
read_chars-map_chars [] h = refl
read_chars-map_chars (d ∷ ds) h =
    rw (newline-sextet_char d h.0, char_sextet-sextet_char d h.0, read_chars-map_chars ds h.1) refl

sextets-IsSextet : (bs : List ℕ) → All IsByte bs → All IsSextet (sextets bs)
unfolding sextets
sextets-IsSextet [] h = tt
sextets-IsSextet (a ∷ []) h = ground (arith)
sextets-IsSextet (a ∷ b ∷ []) h = ground (arith)
sextets-IsSextet (a ∷ b ∷ c ∷ rest) h = ground (arith, sextets-IsSextet rest h.1.1.1)

octets-sextets : (bs : List ℕ) → All IsByte bs → octets (sextets bs) ≡ some bs
unfolding octets sextets
octets-sextets [] h = refl
octets-sextets (a ∷ []) h = ground (arith)
octets-sextets (a ∷ b ∷ []) h = ground (arith)
octets-sextets (a ∷ b ∷ c ∷ rest) h = ground (arith, octets-sextets rest h.1.1.1)

-- Bytes are read back from their encoding.
pub base64_decode-base64_encode :
    (bs : List ℕ) → All IsByte bs → base64_decode (base64_encode bs) ≡ some bs
unfolding base64_decode base64_encode
base64_decode-base64_encode bs h =
    rw (read_chars-map_chars (sextets bs) (sextets-IsSextet bs h)) (octets-sextets bs h)

-- The text of a byte at least is not empty.
pub length-base64_encode : (b : ℕ) (bs : List ℕ) → 1 ≤ length (base64_encode (b ∷ bs))
unfolding base64_encode sextets map_chars
length-base64_encode b [] = omega arith
length-base64_encode b (c ∷ []) = omega arith
length-base64_encode b (c ∷ d ∷ rest) = omega arith

dotless_chars : (ds : List ℕ) → All IsSextet ds → All (λ c. c ≢ b'.') (map_chars ds)
unfolding map_chars
dotless_chars [] h = tt
dotless_chars (d ∷ ds) h = (ground (arith), dotless_chars ds h.1)

-- The alphabet has no dot.
pub base64_encode-dotless : (bs : List ℕ) → All IsByte bs → All (λ c. c ≢ b'.') (base64_encode bs)
unfolding base64_encode
base64_encode-dotless bs h = dotless_chars (sextets bs) (sextets-IsSextet bs h)
