-- ===== src/Fuji/Reads.antt =====
-- catalog/fuji.go: reads in range, of slices and of the elements of an entry.
use fragments.Base.{
  ◌≡◌, refl, sym, subst, arith, ℕ, zero, suc, ◌+◌, ◌-◌, ◌*◌, ◌^◌, ◌≤◌, ◌<◌, true, Option, none,
  some, List, [], ◌∷◌, length, is_some, ◌>>=◌, take, drop, length-take, length-drop,
}
use fragments.Fuji.Bytes.{from, slice, le16, le32, u32}
use fragments.Fuji.Note.{element, elements, lookup, tiff_int_sizes, first_byte}

from-Given :
    (lo : ℕ) (b : List ℕ)
    → lo ≤ length b
    → (r : List ℕ) × (from lo b ≡ some r) × (length r ≡ length b - lo)
from-Given lo b h = (drop lo b, ground arith, length-drop lo b)

slice-Given :
    (lo hi : ℕ) (b : List ℕ)
    → lo ≤ hi
    → hi ≤ length b
    → (r : List ℕ) × (slice lo hi b ≡ some r) × (length r ≡ hi - lo)
slice-Given lo hi b h k = (
  take (hi - lo) (drop lo b),
  ground arith,
  omega (arith, length-take (hi - lo) (drop lo b), length-drop lo b),
)

le16-Given : (b : List ℕ) → 2 ≤ length b → (v : ℕ) × (le16 b ≡ some v)
le16-Given [] h = (0, ground arith)
le16-Given (x ∷ []) h = (0, ground arith)
le16-Given (x ∷ y ∷ rest) h = (x + 256 * y, refl)

pub le32-Given : (b : List ℕ) → 4 ≤ length b → (v : ℕ) × (le32 b ≡ some v)
le32-Given [] h = (0, ground arith)
le32-Given (x ∷ []) h = (0, ground arith)
le32-Given (x ∷ y ∷ []) h = (0, ground arith)
le32-Given (x ∷ y ∷ z ∷ []) h = (0, ground arith)
le32-Given (x ∷ y ∷ z ∷ w ∷ rest) h = (x + 256 * y + 65536 * (z + 256 * w), ground arith)

first_byte-Given : (b : List ℕ) → 1 ≤ length b → (v : ℕ) × (first_byte b ≡ some v)
first_byte-Given [] h = (0, ground arith)
first_byte-Given (x ∷ rest) h = (x, refl)

width-le : (typ size : ℕ) → lookup typ tiff_int_sizes ≡ some size → (1 ≤ size) × (size ≤ 4)
width-le typ size h = ground arith

element-Given :
    (typ size : ℕ) (el : List ℕ)
    → lookup typ tiff_int_sizes ≡ some size
    → size ≤ length el
    → is_some (element typ el) ≡ true
element-Given typ size el h k = ground (arith, first_byte-Given el, le16-Given el, le32-Given el)

u32-id : (n : ℕ) → n < 2 ^ 32 → u32 n ≡ n
u32-id n h = omega arith

pub bind-Some :
    {A B : Type 0} (o : Option A) (f : A → Option B)
    → is_some o ≡ true
    → ((a : A) → o ≡ some a → is_some (f a) ≡ true)
    → is_some (o >>= f) ≡ true
bind-Some none f h k = h
bind-Some (some a) f h k = k a refl

pub elements-Given :
    (typ size : ℕ) (bytes : List ℕ) (left j : ℕ)
    → lookup typ tiff_int_sizes ≡ some size
    → (j + left) * size ≤ length bytes
    → (j + left) * size < 2 ^ 32
    → is_some (elements typ size bytes left j) ≡ true
unfolding elements
elements-Given typ size bytes zero j w h k = refl
elements-Given typ size bytes (suc left) j w h k =
    let step : (j + suc left) * size ≡ j * size + size + left * size = omega arith in
    let next : (suc j + left) * size ≡ j * size + size + left * size = omega arith in
    let (r, e, l) = from-Given (u32 (j * size)) bytes (omega (arith, step)) in
    rw e (
      bind-Some (element typ r) _ (element-Given typ size r w (omega (arith, step))) (λ v ev.
        bind-Some (elements typ size bytes left (suc j)) _
          (elements-Given typ size bytes left (suc j) w (omega (arith, step, next))
            (omega (arith, step, next)))
          (λ vs es. refl)))

-- A read in range does not end the code that goes on from it.
module _ {B : Type 0} where
  pub bind-from :
      (lo : ℕ) (b : List ℕ) (f : List ℕ → Option B)
      → lo ≤ length b
      → ((r : List ℕ) → length r ≡ length b - lo → is_some (f r) ≡ true)
      → is_some (from lo b >>= f) ≡ true
  bind-from lo b f h k = let (r, e, l) = from-Given lo b h in rw e (k r l)

  pub bind-slice :
      (lo hi : ℕ) (b : List ℕ) (f : List ℕ → Option B)
      → lo ≤ hi
      → hi ≤ length b
      → ((r : List ℕ) → length r ≡ hi - lo → is_some (f r) ≡ true)
      → is_some (slice lo hi b >>= f) ≡ true
  bind-slice lo hi b f h g k = let (r, e, l) = slice-Given lo hi b h g in rw e (k r l)

  pub bind-le16 :
      (b : List ℕ) (f : ℕ → Option B)
      → 2 ≤ length b
      → ((v : ℕ) → is_some (f v) ≡ true)
      → is_some (le16 b >>= f) ≡ true
  bind-le16 b f h k = let (v, e) = le16-Given b h in rw e (k v)

  pub bind-le32 :
      (b : List ℕ) (f : ℕ → Option B)
      → 4 ≤ length b
      → ((v : ℕ) → is_some (f v) ≡ true)
      → is_some (le32 b >>= f) ≡ true
  bind-le32 b f h k =
      let (v, e) = le32-Given b h in subst (λ o. is_some (o >>= f) ≡ true) (sym e) (k v)
