-- ===== src/Fuji/Note.antt =====
-- catalog/fuji.go: parseFujiMakerNote, readASCII and the reads of a decoded note. The code's
-- uint32 products and sums keep their wrap-around; `none` is a panic.
use fragments.Base.{
  ℕ, zero, suc, ◌+◌, ◌-◌, ◌*◌, ◌^◌, ◌||◌, Option, none, some, List, [], ◌∷◌, ◌⊎◌, inl, inr, ℤ, pos,
  neg, length, codes, if◌then◌else◌, leb, ltb, ◌==◌, ◌>>=◌,
}
use fragments.Fuji.Bytes.{from, slice, le16, le32, u32, from_index, trim_zeros}

-- A map that is written by assignment: the newest entry of a key counts.
abbrev pub lookup {ℓ} : {B : Type ℓ} → ℕ → List (ℕ × B) → Option B
lookup k [] = none
lookup k (e ∷ es) = if e.0 == k then some e.1 else lookup k es

pub record MakerNote : Type 0 where
  pub ints : List (ℕ × List ℤ)
  pub strs : List (ℕ × List ℕ)

pub data NoteError : Type 0 where
  not_fujifilm : NoteError
  too_short : NoteError
  bad_ifd_offset : NoteError

abbrev pub tiff_int_sizes : List (ℕ × ℕ)
tiff_int_sizes = (1, 1) ∷ (3, 2) ∷ (4, 4) ∷ (6, 1) ∷ (8, 2) ∷ (9, 4) ∷ []

-- The conversion of a w-bit word to a signed integer.
abbrev pub signed : ℕ → ℕ → ℤ
signed w v = if ltb v (2 ^ (w - 1)) then pos v else neg (2 ^ w - v)

abbrev pub first_byte : List ℕ → Option ℕ
first_byte [] = none
first_byte (x ∷ xs) = some x

abbrev pub element : ℕ → List ℕ → Option ℤ
element typ el =
    if typ == 1
    then (do v ← first_byte el; some (pos v))
    else if typ == 3
    then (do v ← le16 el; some (pos v))
    else if typ == 4
    then (do v ← le32 el; some (pos v))
    else if typ == 6
    then (do v ← first_byte el; some (signed 8 v))
    else if typ == 8
    then (do v ← le16 el; some (signed 16 v))
    else if typ == 9
    then (do v ← le32 el; some (signed 32 v))
    else some (pos 0)

-- The elements j, j + 1, … of the data, as many as are left.
unfoldable pub elements : ℕ → ℕ → List ℕ → ℕ → ℕ → Option (List ℤ)
elements typ size bytes zero j = some []
elements typ size bytes (suc left) j = do
  el ← from (u32 (j * size)) bytes
  v ← element typ el
  rest ← elements typ size bytes left (suc j)
  some (v ∷ rest)

unfoldable pub read_ascii : List ℕ → List ℕ → ℕ → Option (List ℕ)
read_ascii b val cnt =
    if leb cnt 4 then (do bytes ← slice 0 cnt val; some (trim_zeros bytes)) else do
      o ← le32 val
      if ltb (length b) (o + cnt)
          then some []
          else do bytes ← slice o (u32 (o + cnt)) b; some (trim_zeros bytes)

abbrev pub put_ints : MakerNote → ℕ → List ℤ → MakerNote
put_ints fn tag vals = record fn { ints = (tag, vals) ∷ fn.ints }

abbrev pub put_str : MakerNote → ℕ → List ℕ → MakerNote
put_str fn tag s = record fn { strs = (tag, s) ∷ fn.strs }

unfoldable pub integer_entry : List ℕ → MakerNote → ℕ → ℕ → ℕ → ℕ → List ℕ → Option MakerNote
unfolding elements
integer_entry b fn tag typ cnt size val =
    if ltb 4 (u32 (size * cnt))
    then (do
      o ← le32 val
      if ltb (length b) (o + size * cnt) then some fn else do
        bytes ← slice o (u32 (o + u32 (size * cnt))) b
        vals ← elements typ size bytes cnt 0
        some (put_ints fn tag vals))
    else do vals ← elements typ size val cnt 0; some (put_ints fn tag vals)

unfoldable pub entry : List ℕ → MakerNote → ℕ → Option MakerNote
unfolding read_ascii integer_entry
entry b fn off = do
  at_tag ← from off b
  tag ← le16 at_tag
  at_typ ← from (off + 2) b
  typ ← le16 at_typ
  at_cnt ← from (off + 4) b
  cnt ← le32 at_cnt
  val ← slice (off + 8) (off + 12) b
  if typ == 2
      then (if ltb 4096 cnt then some fn else do s ← read_ascii b val cnt; some (put_str fn tag s))
      else elim (lookup typ tiff_int_sizes) [
        | none ↦ some fn
        | some size ↦
            if cnt == 0 || ltb 64 cnt then some fn else integer_entry b fn tag typ cnt size val
      ]

unfoldable pub entries : List ℕ → ℕ → ℕ → ℕ → MakerNote → Option MakerNote
unfolding entry
entries b base zero i fn = some fn
entries b base (suc left) i fn =
    if ltb (length b) (base + i * 12 + 12)
    then some fn
    else do next ← entry b fn (base + i * 12); entries b base left (suc i) next

abbrev pub empty_note : MakerNote
empty_note = record { ints = []; strs = [] }

-- The decoding of b = raw[idx:].
unfoldable pub parse_at : Option (List ℕ) → Option (NoteError ⊎ MakerNote)
unfolding entries
parse_at none = some (inl not_fujifilm)
parse_at (some b) = if ltb (length b) 12 then some (inl too_short) else do
  field ← slice 8 12 b
  ifd_off ← le32 field
  if ltb (length b) (ifd_off + 2) then some (inl bad_ifd_offset) else do
    at_count ← from ifd_off b
    count ← le16 at_count
    fn ← entries b (ifd_off + 2) count 0 empty_note
    some (inr fn)

unfoldable pub parse_fuji_maker_note : List ℕ → Option (NoteError ⊎ MakerNote)
unfolding parse_at
parse_fuji_maker_note raw = parse_at (from_index (codes "FUJIFILM") raw)

unfoldable pub first : MakerNote → ℕ → Option ℤ
first fn tag = elim (lookup tag fn.ints) [
  | none ↦ none
  | some vs ↦ elim vs [ [] ↦ none | ◌∷◌ v rest ↦ some v ]
]

unfoldable pub pair : MakerNote → ℕ → Option (ℤ × ℤ)
pair fn tag = elim (lookup tag fn.ints) [
  | none ↦ none
  | some vs ↦ elim vs [
    | [] ↦ none
    | ◌∷◌ a rest ↦ elim rest [ [] ↦ none | ◌∷◌ c more ↦ some (a, c) ]
  ]
]
