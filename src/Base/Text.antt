-- ===== src/Base/Text.antt =====
-- Texts: the native strings for whole keys and names, and lists of code points where code walks them.
use Prim.Native.Nat.{ℕ, compare, Ordering}
use Prim.Native.Char.{code}
use Prim.Native.String.{String}
use mathlib.Core.Path.{◌≡◌, refl}
use mathlib.Core.Bool.{Bool, true, false, ◌&&◌, ◌||◌}
use mathlib.Core.List.{List, [], ◌∷◌, ◌++◌, map}
use native.Mathlib.Omega.{arith}
use fragments.Base.Lists.{keep, All}
use mathlib.Core.Logic.{◌↔◌, ◌≢◌}
use mathlib.Core.Option.{Option, none, some}
use text.Mathlib.Text.{◌==◌}
use text.Mathlib.TextEquality.{eq_iff}
use text.Mathlib.TextPositions.{eq_refl}
use fragments.Base.Tests.{if◌then◌else◌, ltb, ◌>>=◌}

abbrev pub str_eq : String → String → Bool
str_eq a b = a == b

pub str_eq_iff : (a b : String) → (str_eq a b ≡ true) ↔ (a ≡ b)
str_eq_iff a b = eq_iff a b

pub str_eq_refl : (a : String) → str_eq a a ≡ true
str_eq_refl a = eq_refl a

-- The code points of a text, which are its bytes where it is ASCII.
abbrev pub codes : String → List ℕ
codes String.[] = []
codes (String.◌∷◌ c s) = code c ∷ codes s

abbrev pub bytes_eq : List ℕ → List ℕ → Bool
bytes_eq [] [] = true
bytes_eq (x ∷ xs) (y ∷ ys) = elim (compare x y) [ Ordering.eq ↦ true | _ ↦ false ] && bytes_eq xs ys
bytes_eq xs ys = false

-- The order of texts by their code points, which is that of their UTF-8 bytes.
abbrev pub text_lt : List ℕ → List ℕ → Bool
text_lt xs [] = false
text_lt [] (y ∷ ys) = true
text_lt (x ∷ xs) (y ∷ ys) =
    ltb x y || ((elim (compare x y) [ Ordering.eq ↦ true | _ ↦ false ]) && text_lt xs ys)

-- `v` is one of the names of a vocabulary.
abbrev pub in_list : String → List String → Bool
in_list v [] = false
in_list v (s ∷ rest) = if str_eq v s then true else in_list v rest

-- Boolean membership passes to parts of a list.
pub in_list-append :
    (k : String) (xs ys : List String)
    → in_list k (xs ++ ys) ≡ (if in_list k xs then true else in_list k ys)
in_list-append k [] ys = refl
in_list-append k (x ∷ xs) ys = ground (arith, in_list-append k xs ys)

pub in_list-map-keep {ℓ} :
    {A : Type ℓ} (k : String) (f : A → String) (p : A → Bool) (xs : List A)
    → in_list k (map f xs) ≡ false
    → in_list k (map f (keep p xs)) ≡ false
in_list-map-keep k f p [] h = refl
in_list-map-keep k f p (x ∷ xs) h = ground (arith, in_list-map-keep k f p xs)

-- strings.Cut at a byte: what is before its first occurrence, and behind it.
abbrev pub cut : ℕ → List ℕ → Option (List ℕ × List ℕ)
cut c [] = none
cut c (x ∷ xs) = elim (compare x c) [
  | Ordering.eq ↦ some ([], xs)
  | _ ↦ do parts ← cut c xs; some (x ∷ parts.0, parts.1)
]

pub cut-append :
    (c : ℕ) (t rest : List ℕ) → All (λ b. b ≢ c) t → cut c (t ++ c ∷ rest) ≡ some (t, rest)
cut-append c [] rest h = ground (arith)
cut-append c (b ∷ t) rest h = ground (arith, cut-append c t rest h.1)

pub bytes_eq_refl : (xs : List ℕ) → bytes_eq xs xs ≡ true
bytes_eq_refl [] = refl
bytes_eq_refl (x ∷ xs) = ground (arith, bytes_eq_refl xs)

pub bytes_eq→≡ : (xs ys : List ℕ) → bytes_eq xs ys ≡ true → xs ≡ ys
bytes_eq→≡ [] [] h = refl
bytes_eq→≡ [] (y ∷ ys) h = absurd (cc)
bytes_eq→≡ (x ∷ xs) [] h = absurd (cc)
bytes_eq→≡ (x ∷ xs) (y ∷ ys) h = ground (arith, bytes_eq→≡ xs ys)

pub text_lt-asym : (xs ys : List ℕ) → text_lt xs ys ≡ true → text_lt ys xs ≡ false
text_lt-asym xs [] h = absurd (cc)
text_lt-asym [] (y ∷ ys) h = refl
text_lt-asym (x ∷ xs) (y ∷ ys) h = ground (arith, text_lt-asym xs ys)

pub text_lt-upward :
    (xs ys zs : List ℕ) → text_lt ys xs ≡ false → text_lt zs ys ≡ false → text_lt zs xs ≡ false
text_lt-upward [] ys zs h k = refl
text_lt-upward (x ∷ xs) [] zs h k = absurd (cc (h))
text_lt-upward (x ∷ xs) (y ∷ ys) [] h k = absurd (cc (k))
text_lt-upward (x ∷ xs) (y ∷ ys) (z ∷ zs) h k = ground (arith, text_lt-upward xs ys zs)
