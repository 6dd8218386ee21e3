-- ===== src/Base/Chunks.antt =====
-- for start := 0; start < len(xs); start += n { batch := xs[start:min(start+n, len(xs))] … }
use Prim.Native.Nat.{ℕ, zero, suc, ◌≤◌, ◌<◌}
use mathlib.Core.Path.{◌≡◌, refl, ap, ◌∙◌}
use mathlib.Core.List.{List, [], ◌∷◌, ◌++◌}
use native.Mathlib.Omega.{arith}
use fragments.Base.Lists.{length, take, drop, All, length-take, length-drop, take-append-drop}

module _ {ℓ} {A : Type ℓ} where
  -- The batches of at most n, in order; the fuel bounds their number.
  pub chunks_fuel : ℕ → ℕ → List A → List (List A)
  chunks_fuel zero n xs = []
  chunks_fuel (suc f) n [] = []
  chunks_fuel (suc f) n (x ∷ xs) = take n (x ∷ xs) ∷ chunks_fuel f n (drop n (x ∷ xs))

  -- A round takes one element at least, so the length is fuel enough.
  unfoldable pub chunks : ℕ → List A → List (List A)
  unfolding chunks_fuel
  chunks n xs = chunks_fuel (length xs) n xs

  abbrev pub concat : List (List A) → List A
  concat [] = []
  concat (b ∷ bs) = b ++ concat bs

  concat-chunks_fuel :
      (f n : ℕ) (xs : List A) → 0 < n → length xs ≤ f → concat (chunks_fuel f n xs) ≡ xs
  unfolding chunks_fuel
  concat-chunks_fuel zero n [] h k = refl
  concat-chunks_fuel zero n (x ∷ xs) h k = absurd (omega arith)
  concat-chunks_fuel (suc f) n [] h k = refl
  concat-chunks_fuel (suc f) n (x ∷ xs) h k =
      ap (◌++◌ (take n (x ∷ xs)))
        (concat-chunks_fuel f n (drop n (x ∷ xs)) h (omega (arith, length-drop n (x ∷ xs))))
      ∙ take-append-drop n (x ∷ xs)

  chunks_fuel-le : (f n : ℕ) (xs : List A) → All (λ b. length b ≤ n) (chunks_fuel f n xs)
  unfolding chunks_fuel
  chunks_fuel-le zero n xs = tt
  chunks_fuel-le (suc f) n [] = tt
  chunks_fuel-le (suc f) n (x ∷ xs) =
      (omega (arith, length-take n (x ∷ xs)), chunks_fuel-le f n (drop n (x ∷ xs)))

  -- The batches cover the list, each element once and in order.
  pub concat-chunks : (n : ℕ) (xs : List A) → 0 < n → concat (chunks n xs) ≡ xs
  unfolding chunks
  concat-chunks n xs h = concat-chunks_fuel (length xs) n xs h (omega arith)

  -- No batch is longer than n.
  pub chunks-le : (n : ℕ) (xs : List A) → All (λ b. length b ≤ n) (chunks n xs)
  unfolding chunks
  chunks-le n xs = chunks_fuel-le (length xs) n xs

module _ {ℓ κ} {A : Type ℓ} (P : A → Type κ) where
  All-take : (n : ℕ) (xs : List A) → All P xs → All P (take n xs)
  All-take zero xs h = tt
  All-take (suc n) [] h = tt
  All-take (suc n) (x ∷ xs) h = (h.0, All-take n xs h.1)

  All-drop : (n : ℕ) (xs : List A) → All P xs → All P (drop n xs)
  All-drop zero xs h = h
  All-drop (suc n) [] h = tt
  All-drop (suc n) (x ∷ xs) h = All-drop n xs h.1

  All-chunks_fuel : (f n : ℕ) (xs : List A) → All P xs → All (All P) (chunks_fuel f n xs)
  unfolding chunks_fuel
  All-chunks_fuel zero n xs h = tt
  All-chunks_fuel (suc f) n [] h = tt
  All-chunks_fuel (suc f) n (x ∷ xs) h =
      (All-take n (x ∷ xs) h, All-chunks_fuel f n (drop n (x ∷ xs)) (All-drop n (x ∷ xs) h))

  pub All-chunks : (n : ℕ) (xs : List A) → All P xs → All (All P) (chunks n xs)
  unfolding chunks
  All-chunks n xs h = All-chunks_fuel (length xs) n xs h
