-- ===== src/Base/Sorted.antt =====
-- Sorting by a Boolean test that need not separate all elements, and a filter of what it sorts.
use mathlib.Core.Path.{◌≡◌, refl, ◌∙◌}
use native.Mathlib.Omega.{arith}
use mathlib.Core.Logic.{inl, inr}
use mathlib.Core.Bool.{Bool, true, false}
use mathlib.Core.List.{List, [], ◌∷◌, ◌++◌, Perm}
use mathlib.Core.List.Perm
use fragments.Base.Tests.{if◌then◌else◌, Bool-cases}
use fragments.Base.Lists.{length, keep, All, All-keep}
use fragments.Base.Sorting.{insert_by, sort_by, All-insert_by}

module _ {ℓ} {A : Type ℓ} where
  keep-cons :
      (p : A → Bool) (x : A) (xs ys : List A)
      → Perm (keep p xs) (keep p ys)
      → Perm (keep p (x ∷ xs)) (keep p (x ∷ ys))
  keep-cons p x xs ys h =
      elim (p x)
        as (λ b.
          Perm (if b then x ∷ keep p xs else keep p xs) (if b then x ∷ keep p ys else keep p ys)) [
            | true ↦ Perm.cons x h
            | false ↦ h
          ]

  keep-swap :
      (p : A → Bool) (x y : A) (zs : List A) → Perm (keep p (y ∷ x ∷ zs)) (keep p (x ∷ y ∷ zs))
  keep-swap p x y zs = elim (Bool-cases (p x)) [
    | inl e ↦ elim (Bool-cases (p y)) [
      | inl k ↦ rw (e, k) (Perm.swap x y (keep p zs))
      | inr k ↦ rw (e, k) (Perm.refl (x ∷ keep p zs))
    ]
    | inr e ↦ elim (Bool-cases (p y)) [
      | inl k ↦ rw (e, k) (Perm.refl (y ∷ keep p zs))
      | inr k ↦ rw (e, k) (Perm.refl (keep p zs))
    ]
  ]

  All-behind {κ} : (P : A → Type κ) (xs ys : List A) → All P (xs ++ ys) → All P ys
  All-behind P [] ys h = h
  All-behind P (x ∷ xs) ys h = All-behind P xs ys h.1

module _ {ℓ} {A : Type ℓ} (before : A → A → Bool) where
  -- No element is before one that stands in front of it.
  abbrev pub IsSorted : List A → Type 0
  IsSorted [] = Unit
  IsSorted (x ∷ xs) = All (λ y. before y x ≡ false) xs × IsSorted xs

  pub keep-IsSorted : (p : A → Bool) (xs : List A) → IsSorted xs → IsSorted (keep p xs)
  keep-IsSorted p [] h = tt
  keep-IsSorted p (x ∷ xs) h =
      elim (p x) as (λ b. IsSorted (if b then x ∷ keep p xs else keep p xs)) [
        | true ↦ (All-keep (λ y. before y x ≡ false) p xs h.0, keep-IsSorted p xs h.1)
        | false ↦ keep-IsSorted p xs h.1
      ]

  -- Of a sorted list that is cut in two, nothing behind the cut is before anything in front of it.
  pub IsSorted-append :
      (xs ys : List A) → IsSorted (xs ++ ys) → All (λ x. All (λ y. before y x ≡ false) ys) xs
  IsSorted-append [] ys h = tt
  IsSorted-append (x ∷ xs) ys h =
      (All-behind (λ y. before y x ≡ false) xs ys h.0, IsSorted-append xs ys h.1)

  keep-insert_by-Perm :
      (p : A → Bool) (x : A) (ys : List A) → Perm (keep p (insert_by before x ys)) (keep p (x ∷ ys))
  keep-insert_by-Perm p x [] = Perm.refl (keep p (x ∷ []))
  keep-insert_by-Perm p x (y ∷ ys) = elim (Bool-cases (before x y)) [
    | inl e ↦ rw e (Perm.refl (keep p (x ∷ y ∷ ys)))
    | inr e ↦ rw e (
        Perm.trans (keep-cons p y (insert_by before x ys) (x ∷ ys) (keep-insert_by-Perm p x ys))
          (keep-swap p x y ys))
  ]

  pub keep-sort_by-Perm :
      (p : A → Bool) (xs : List A) → Perm (keep p (sort_by before xs)) (keep p xs)
  keep-sort_by-Perm p [] = Perm.refl []
  keep-sort_by-Perm p (x ∷ xs) =
      Perm.trans (keep-insert_by-Perm p x (sort_by before xs))
        (keep-cons p x (sort_by before xs) xs (keep-sort_by-Perm p xs))

  length-keep-insert_by :
      (p : A → Bool) (x : A) (ys : List A)
      → length (keep p (insert_by before x ys)) ≡ length (keep p (x ∷ ys))
  length-keep-insert_by p x [] = refl
  length-keep-insert_by p x (y ∷ ys) = ground (arith, length-keep-insert_by p x ys)

  pub length-keep-sort_by :
      (p : A → Bool) (xs : List A) → length (keep p (sort_by before xs)) ≡ length (keep p xs)
  length-keep-sort_by p [] = refl
  length-keep-sort_by p (x ∷ xs) =
      length-keep-insert_by p x (sort_by before xs) ∙ ground (arith, length-keep-sort_by p xs)

  module _ (asym : (x y : A) → before x y ≡ true → before y x ≡ false)
      (upward : (x y z : A) → before y x ≡ false → before z y ≡ false → before z x ≡ false) where
    All-upward :
        (x y : A) (zs : List A)
        → before y x ≡ false
        → All (λ z. before z y ≡ false) zs
        → All (λ z. before z x ≡ false) zs
    All-upward x y [] e h = tt
    All-upward x y (z ∷ zs) e h = (upward x y z e h.0, All-upward x y zs e h.1)

    IsSorted-insert_by : (x : A) (ys : List A) → IsSorted ys → IsSorted (insert_by before x ys)
    IsSorted-insert_by x [] h = (tt, tt)
    IsSorted-insert_by x (y ∷ ys) h = elim (Bool-cases (before x y)) [
      | inl e ↦ let later = asym x y e in rw e ((later, All-upward x y ys later h.0), h)
      | inr e ↦
          rw e
            (All-insert_by before (λ z. before z y ≡ false) x ys e h.0, IsSorted-insert_by x ys h.1)
    ]

    pub sort_by-IsSorted : (xs : List A) → IsSorted (sort_by before xs)
    sort_by-IsSorted [] = tt
    sort_by-IsSorted (x ∷ xs) = IsSorted-insert_by x (sort_by before xs) (sort_by-IsSorted xs)
