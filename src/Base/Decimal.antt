-- ===== src/Base/Decimal.antt =====
-- strconv.FormatInt and strconv.ParseInt in base ten, on the bytes of a text.
use Prim.Native.Nat.{ℕ, zero, suc, ◌+◌, ◌-◌, ◌*◌, ◌/◌, ◌%◌, ◌^◌, ◌≤◌, ◌<◌}
use mathlib.Core.Path.{◌≡◌, refl}
use mathlib.Core.Logic.{inl, inr}
use mathlib.Core.Bool.{Bool, true, false, ◌&&◌}
use mathlib.Core.Option.{Option, none, some}
use mathlib.Core.List.{List, [], ◌∷◌, ◌++◌}
use native.Mathlib.Omega.{arith}
use fragments.Base.Tests.{ltb, leb, ◌==◌, Bool-cases, if◌then◌else◌, ◌>>=◌}
use fragments.Base.Lists.{length, length-append, All, All-append}
use fragments.Base.Int.{ℤ, pos, neg}

-- A number has fewer digits than its value, so n + 1 is fuel enough.
digits_fuel : ℕ → ℕ → List ℕ
digits_fuel zero n = []
digits_fuel (suc f) n = elim (ltb n 10) [
  | true ↦ (b'0' + n) ∷ []
  | false ↦ digits_fuel f (n / 10) ++ (b'0' + n % 10) ∷ []
]

unfoldable pub digits : ℕ → List ℕ
unfolding digits_fuel
digits n = digits_fuel (suc n) n

abbrev pub is_digit : ℕ → Bool
is_digit c = leb b'0' c && leb c b'9'

abbrev pub read_digits : ℕ → List ℕ → Option ℕ
read_digits n [] = some n
read_digits n (c ∷ cs) = if is_digit c then read_digits (10 * n + (c - b'0')) cs else none

abbrev unsigned : List ℕ → Option ℕ
unsigned [] = none
unsigned (c ∷ cs) = read_digits 0 (c ∷ cs)

-- The range of int64.
abbrev positive : Option ℕ → Option ℤ
positive none = none
positive (some n) = if ltb n (2 ^ 63) then some (pos n) else none

abbrev negative : Option ℕ → Option ℤ
negative none = none
negative (some n) = if leb n (2 ^ 63) then some (neg n) else none

unfoldable pub parse_int : List ℕ → Option ℤ
parse_int [] = none
parse_int (c ∷ cs) =
    if c == b'-'
    then negative (unsigned cs)
    else (if c == b'+' then positive (unsigned cs) else positive (unsigned (c ∷ cs)))

IsDigit : ℕ → Type 0
IsDigit c = (b'0' ≤ c) × (c ≤ b'9')

digits_fuel-IsDigit : (f n : ℕ) → All IsDigit (digits_fuel f n)
unfolding digits_fuel IsDigit
digits_fuel-IsDigit zero n = tt
digits_fuel-IsDigit (suc f) n = ground (
  arith,
  All-append IsDigit (digits_fuel f (n / 10)) ((b'0' + n % 10) ∷ [])
      (digits_fuel-IsDigit f (n / 10)),
)

read_digits-append :
    (n : ℕ) (xs ys : List ℕ)
    → read_digits n (xs ++ ys) ≡ (read_digits n xs >>= λ m. read_digits m ys)
read_digits-append n [] ys = refl
read_digits-append n (c ∷ xs) ys = ground (arith, read_digits-append (10 * n + (c - b'0')) xs ys)

ltb-false : (a b : ℕ) → ltb a b ≡ false → b ≤ a
ltb-false a b h = ground (arith)

read_digits-digits_fuel : (f n : ℕ) → n < f → read_digits 0 (digits_fuel f n) ≡ some n
unfolding digits_fuel
read_digits-digits_fuel zero n h = absurd (omega arith)
read_digits-digits_fuel (suc f) n h = elim (Bool-cases (ltb n 10)) [
  | inl e ↦ ground (arith)
  | inr e ↦ ground (
    arith,
    read_digits-append 0 (digits_fuel f (n / 10)) ((b'0' + n % 10) ∷ []),
    read_digits-digits_fuel f (n / 10) (let big = ltb-false n 10 e in omega arith),
  )
]

positive-parse_int :
    (xs : List ℕ) (n : ℕ)
    → All IsDigit xs
    → read_digits 0 xs ≡ some n
    → 1 ≤ length xs
    → n < 2 ^ 63
    → parse_int xs ≡ some (pos n)
unfolding parse_int IsDigit
positive-parse_int [] n h r l b = absurd (omega arith)
positive-parse_int (c ∷ cs) n h r l b = ground (arith)

length-digits : (f n : ℕ) → n < f → 1 ≤ length (digits_fuel f n)
unfolding digits_fuel
length-digits zero n h = absurd (omega arith)
length-digits (suc f) n h =
    ground (arith, length-append (digits_fuel f (n / 10)) ((b'0' + n % 10) ∷ []))

-- A number of an int64 is read back from its digits.
pub parse_int-digits : (n : ℕ) → n < 2 ^ 63 → parse_int (digits n) ≡ some (pos n)
unfolding digits
parse_int-digits n h =
    positive-parse_int (digits_fuel (suc n) n) n (digits_fuel-IsDigit (suc n) n)
      (read_digits-digits_fuel (suc n) n (omega arith)) (length-digits (suc n) n (omega arith)) h

digit_bytes : (xs : List ℕ) → All IsDigit xs → All (λ c. c < 256) xs
unfolding IsDigit
digit_bytes [] h = tt
digit_bytes (c ∷ cs) h = (omega arith, digit_bytes cs h.1)

pub digits-bytes : (n : ℕ) → All (λ c. c < 256) (digits n)
unfolding digits
digits-bytes n = digit_bytes (digits_fuel (suc n) n) (digits_fuel-IsDigit (suc n) n)
