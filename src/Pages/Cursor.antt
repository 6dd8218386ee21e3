-- ===== src/Pages/Cursor.antt =====
-- catalog/query.go: the opaque cursor of the gallery, encodeCursor and decodeCursor, on bytes.
use fragments.Base.{
  cut, cut-append, bytes_eq, ℕ, ◌<◌, ◌^◌, ◌≡◌, ◌≢◌, refl, Option, none, some, List, [], ◌∷◌, ◌++◌,
  ℤ, pos, if◌then◌else◌, ◌>>=◌, All, arith, digits, parse_int, parse_int-digits, base64_encode,
  base64_decode, base64_decode-base64_encode, IsByte, All-append, ap, append_assoc, get_or,
  digits-bytes,
}

-- strings.SplitN(s, "|", 3), when it has three parts.
unfoldable pub split3 : List ℕ → Option (List ℕ × List ℕ × List ℕ)
split3 raw = do first ← cut b'|' raw; second ← cut b'|' first.1; some (first.0, second.0, second.1)

-- The last row's capture time, where it has one, and id.
pub record Cursor : Type 0 where
  pub taken : Option (List ℕ)
  pub id : ℤ

abbrev pub cursor_fields : Option (List ℕ) → List ℕ
cursor_fields none = b'1' ∷ b'|' ∷ b'|' ∷ []
cursor_fields (some t) = b'0' ∷ b'|' ∷ t ++ b'|' ∷ []

unfoldable pub encode_cursor : Option (List ℕ) → ℕ → List ℕ
encode_cursor taken id = base64_encode (cursor_fields taken ++ digits id)

unfoldable pub decode_cursor : List ℕ → Option Cursor
unfolding split3
decode_cursor text = do
  raw ← base64_decode text
  parts ← split3 raw
  id ← parse_int parts.2
  some (record { taken = if bytes_eq parts.0 (b'1' ∷ []) then none else some parts.1; id = id })

-- A time in the database's spelling: bytes, and none of them the separator.
abbrev pub IsTime : List ℕ → Type 0
IsTime t = All (λ b. IsByte b × (b ≢ b'|')) t

abbrev pub IsTaken : Option (List ℕ) → Type 0
IsTaken none = Unit
IsTaken (some t) = IsTime t

time-apart : (t : List ℕ) → IsTime t → All (λ b. b ≢ b'|') t
time-apart [] h = tt
time-apart (b ∷ t) h = (h.0.1, time-apart t h.1)

time_bytes : (t : List ℕ) → IsTime t → All IsByte t
time_bytes [] h = tt
time_bytes (b ∷ t) h = (h.0.0, time_bytes t h.1)

cursor_fields-bytes : (taken : Option (List ℕ)) → IsTaken taken → All IsByte (cursor_fields taken)
cursor_fields-bytes none h = ground (arith)
cursor_fields-bytes (some t) h =
    (omega arith, (omega arith, All-append IsByte t (b'|' ∷ []) (time_bytes t h) (omega arith, tt)))

abbrev flag : Option (List ℕ) → List ℕ
flag none = b'1' ∷ []
flag (some t) = b'0' ∷ []

read_taken :
    (taken : Option (List ℕ))
    → (if bytes_eq (flag taken) (b'1' ∷ []) then none else some (get_or taken [])) ≡ taken
read_taken none = refl
read_taken (some t) = refl

split3-cursor_fields :
    (taken : Option (List ℕ)) (rest : List ℕ)
    → IsTaken taken
    → split3 (cursor_fields taken ++ rest) ≡ some (flag taken, get_or taken [], rest)
unfolding split3
split3-cursor_fields none rest h = refl
split3-cursor_fields (some t) rest h =
    rw (append_assoc t (b'|' ∷ []) rest, cut-append b'|' t rest (time-apart t h)) refl

-- A cursor is read back as the capture time and the id that it was made of, if the time's spelling
-- is bytes without the separator and the id is an int64.
pub decode_cursor-encode_cursor :
    (taken : Option (List ℕ)) (id : ℕ)
    → IsTaken taken
    → id < 2 ^ 63
    → decode_cursor (encode_cursor taken id) ≡ some (record { taken = taken; id = pos id })
unfolding decode_cursor encode_cursor
decode_cursor-encode_cursor taken id h k =
    let raw = cursor_fields taken ++ digits id in
    rw
      (
        base64_decode-base64_encode raw (
            All-append IsByte (cursor_fields taken) (digits id) (cursor_fields-bytes taken h)
              (digits-bytes id)),
        split3-cursor_fields taken (digits id) h,
        parse_int-digits id k,
      )
      (ap (λ x. some (record { taken = x; id = pos id })) (read_taken taken))
