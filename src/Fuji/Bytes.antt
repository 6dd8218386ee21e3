-- ===== src/Fuji/Bytes.antt =====
-- catalog/fuji.go: reads of a byte slice. `none` is the panic of a read out of range.
use fragments.Base.{
  ℕ, ◌+◌, ◌-◌, ◌*◌, ◌%◌, ◌^◌, Bool, true, false, ◌&&◌, Option, none, some, List, [], ◌∷◌, length,
  take, drop, if◌then◌else◌, leb, ◌==◌, ◌>>=◌,
}

-- b[lo:]
abbrev pub from : ℕ → List ℕ → Option (List ℕ)
from lo b = if leb lo (length b) then some (drop lo b) else none

-- b[lo:hi]
abbrev pub slice : ℕ → ℕ → List ℕ → Option (List ℕ)
slice lo hi b = if leb lo hi && leb hi (length b) then some (take (hi - lo) (drop lo b)) else none

-- binary.LittleEndian
abbrev pub le16 : List ℕ → Option ℕ
le16 [] = none
le16 (x ∷ []) = none
le16 (x ∷ y ∷ rest) = some (x + 256 * y)

abbrev pub le32 : List ℕ → Option ℕ
le32 b = do low ← le16 b; rest ← from 2 b; high ← le16 rest; some (low + 65536 * high)

abbrev pub u32 : ℕ → ℕ
u32 n = n % 2 ^ 32

abbrev pub starts_with : List ℕ → List ℕ → Bool
starts_with [] b = true
starts_with (p ∷ ps) [] = false
starts_with (p ∷ ps) (x ∷ xs) = p == x && starts_with ps xs

-- raw[bytes.Index(raw, pattern):], `none` where the index is -1.
abbrev pub from_index : List ℕ → List ℕ → Option (List ℕ)
from_index pattern [] = if starts_with pattern [] then some [] else none
from_index pattern (x ∷ xs) =
    if starts_with pattern (x ∷ xs) then some (x ∷ xs) else from_index pattern xs

-- bytes.TrimRight(data, "\x00")
abbrev pub trim_zeros : List ℕ → List ℕ
trim_zeros [] = []
trim_zeros (x ∷ xs) = elim (trim_zeros xs) [
  | [] ↦ if x == 0 then [] else x ∷ []
  | ◌∷◌ y ys ↦ x ∷ y ∷ ys
]
