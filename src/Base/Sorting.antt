-- ===== src/Base/Sorting.antt =====
-- Sorting by a Boolean test that orders the elements: insertion, and what a filter keeps of it.
use Prim.Native.Nat.{suc}
use mathlib.Core.Path.{◌≡◌, refl, ap, ◌∙◌}
use mathlib.Core.Logic.{◌⊎◌, inl, inr}
use mathlib.Core.Bool.{Bool, true, false}
use mathlib.Core.List.{List, [], ◌∷◌, ◌++◌, Perm}
use mathlib.Core.List.Perm
use native.Mathlib.Omega.{arith}
use fragments.Base.Tests.{if◌then◌else◌, Bool-cases}
use fragments.Base.Lists.{length, keep, All, All-keep, All-middle}

module _ {ℓ} {A : Type ℓ} (before : A → A → Bool) where
  abbrev pub insert_by : A → List A → List A
  insert_by x [] = x ∷ []
  insert_by x (y ∷ ys) = if before x y then x ∷ y ∷ ys else y ∷ insert_by x ys

  abbrev pub sort_by : List A → List A
  sort_by [] = []
  sort_by (x ∷ xs) = insert_by x (sort_by xs)

  length-insert_by : (x : A) (ys : List A) → length (insert_by x ys) ≡ suc (length ys)
  length-insert_by x [] = refl
  length-insert_by x (y ∷ ys) = ground (arith, length-insert_by x ys)

  pub length-sort_by : (xs : List A) → length (sort_by xs) ≡ length xs
  length-sort_by [] = refl
  length-sort_by (x ∷ xs) = omega (arith, length-insert_by x (sort_by xs), length-sort_by xs)

  insert_by-Perm : (x : A) (ys : List A) → Perm (insert_by x ys) (x ∷ ys)
  insert_by-Perm x [] = Perm.refl (x ∷ [])
  insert_by-Perm x (y ∷ ys) = elim (Bool-cases (before x y)) [
    | inl e ↦ rw e (Perm.refl (x ∷ y ∷ ys))
    | inr e ↦ rw e (Perm.trans (Perm.cons y (insert_by-Perm x ys)) (Perm.swap x y ys))
  ]

  pub sort_by-Perm : (xs : List A) → Perm (sort_by xs) xs
  sort_by-Perm [] = Perm.refl []
  sort_by-Perm (x ∷ xs) = Perm.trans (insert_by-Perm x (sort_by xs)) (Perm.cons x (sort_by-Perm xs))

  -- Each element comes before all that follow it.
  abbrev pub InOrder : List A → Type 0
  InOrder [] = Unit
  InOrder (x ∷ xs) = All (λ y. before x y ≡ true) xs × InOrder xs

  -- Of two elements one comes before the other.
  abbrev pub Comparable : List A → Type 0
  Comparable [] = Unit
  Comparable (x ∷ xs) = All (λ y. (before x y ≡ true) ⊎ (before y x ≡ true)) xs × Comparable xs

  All-if {κ} :
      (P : A → Type κ) (b : Bool) (xs ys : List A)
      → All P xs
      → All P ys
      → All P (if b then xs else ys)
  All-if P true xs ys h k = h
  All-if P false xs ys h k = k

  pub All-insert_by {κ} :
      (P : A → Type κ) (x : A) (ys : List A) → P x → All P ys → All P (insert_by x ys)
  All-insert_by P x [] h k = (h, tt)
  All-insert_by P x (y ∷ ys) h k =
      All-if P (before x y) _ _ (h, k) (k.0, All-insert_by P x ys h k.1)

  pub All-sort_by {κ} : (P : A → Type κ) (xs : List A) → All P xs → All P (sort_by xs)
  All-sort_by P [] h = tt
  All-sort_by P (x ∷ xs) h = All-insert_by P x (sort_by xs) h.0 (All-sort_by P xs h.1)

  insert_by-first :
      (x : A) (zs : List A) → All (λ z. before x z ≡ true) zs → insert_by x zs ≡ x ∷ zs
  insert_by-first x [] h = refl
  insert_by-first x (z ∷ zs) h = rw (h.0) refl

  All-later :
      (x y : A) (zs : List A)
      → ((z : A) → before y z ≡ true → before x z ≡ true)
      → All (λ z. before y z ≡ true) zs
      → All (λ z. before x z ≡ true) zs
  All-later x y [] f h = tt
  All-later x y (z ∷ zs) f h = (f z h.0, All-later x y zs f h.1)

  module _ (trans : (x y z : A) → before x y ≡ true → before y z ≡ true → before x z ≡ true)
      (asym : (x y : A) → before x y ≡ true → before y x ≡ false) where
    InOrder-insert_by :
        (x : A) (ys : List A)
        → InOrder ys
        → All (λ y. (before x y ≡ true) ⊎ (before y x ≡ true)) ys
        → InOrder (insert_by x ys)
    InOrder-insert_by x [] h c = (tt, tt)
    InOrder-insert_by x (y ∷ ys) h c = elim (Bool-cases (before x y)) [
      | inl e ↦ rw e ((e, All-later x y ys (λ z. trans x y z e) h.0), h)
      | inr e ↦ rw e (
        All-insert_by (λ z. before y z ≡ true) x ys (elim c.0 [ inl k ↦ absurd (cc) | inr k ↦ k ])
            h.0,
        InOrder-insert_by x ys h.1 c.1,
      )
    ]

    pub InOrder-sort_by : (xs : List A) → Comparable xs → InOrder (sort_by xs)
    InOrder-sort_by [] c = tt
    InOrder-sort_by (x ∷ xs) c =
        InOrder-insert_by x (sort_by xs) (InOrder-sort_by xs c.1)
          (All-sort_by (λ y. (before x y ≡ true) ⊎ (before y x ≡ true)) xs c.0)

    keep-insert_by :
        (p : A → Bool) (x : A) (ys : List A)
        → InOrder ys
        → keep p (insert_by x ys) ≡ (if p x then insert_by x (keep p ys) else keep p ys)
    keep-insert_by p x [] h = refl
    keep-insert_by p x (y ∷ ys) h = elim (Bool-cases (before x y)) [
      | inl e ↦
          let first = insert_by-first x (keep p (y ∷ ys)) (
            All-keep (λ z. before x z ≡ true) p (y ∷ ys)
              (e, All-later x y ys (λ z. trans x y z e) h.0)) in
          ground (arith, first)
      | inr e ↦ ground (arith, keep-insert_by p x ys h.1)
    ]

    -- A filter and the sorting can change places.
    pub keep-sort_by :
        (p : A → Bool) (xs : List A) → Comparable xs → keep p (sort_by xs) ≡ sort_by (keep p xs)
    keep-sort_by p [] c = refl
    keep-sort_by p (x ∷ xs) c =
        keep-insert_by p x (sort_by xs) (InOrder-sort_by xs c.1)
        ∙ ground (arith, keep-sort_by p xs c.1)

    keep_later : (r : A) (ys : List A) → All (λ y. before r y ≡ true) ys → keep (before r) ys ≡ ys
    keep_later r [] h = refl
    keep_later r (y ∷ ys) h = rw (h.0) (ap (◌∷◌ y) (keep_later r ys h.1))

    -- What comes behind a member of an ordered list is the rest of the list.
    pub keep-before :
        (xs : List A) (r : A) (ys : List A)
        → InOrder (xs ++ r ∷ ys)
        → keep (before r) (xs ++ r ∷ ys) ≡ ys
    keep-before [] r ys h =
        let itself : before r r ≡ false = elim (Bool-cases (before r r)) [
          | inl e ↦ absurd (cc (e, asym r r e))
          | inr e ↦ e
        ] in
        rw itself (keep_later r ys h.0)
    keep-before (x ∷ xs) r ys h =
        let earlier : before x r ≡ true = All-middle (λ y. before x y ≡ true) xs r ys h.0 in
        rw (asym x r earlier) (keep-before xs r ys h.1)
