-- ===== src/Thumb/Upright.antt =====
-- catalog/thumb.go: every pixel of the upright picture is the one that the EXIF orientation names.
use fragments.Base.{
  ℕ, zero, suc, ◌-◌, ◌<◌, ◌≡◌, refl, ap, ◌∙◌, Bool, false, ◌&&◌, ◌||◌, leb, ◌==◌, if◌then◌else◌,
  pos, arith, Bool-cases, inl, inr,
}
use fragments.Thumb.{
  Picture, paint_row, paint, rotate90, rotate270, rotate180, flip_h, flip_v, apply_orientation,
}

module _ {C : Type 0} (px py : ℕ → ℕ → ℕ) (src : ℕ → ℕ → C) where
  -- A pixel that no step of the loops writes stays.
  paint_row-misses :
      (n y : ℕ) (dst : ℕ → ℕ → C) (u v : ℕ)
      → ((x : ℕ) → x < n → ((u == px x y) && (v == py x y)) ≡ false)
      → paint_row px py src n y dst u v ≡ dst u v
  unfolding paint_row
  paint_row-misses zero y dst u v h = refl
  paint_row-misses (suc n) y dst u v h =
      rw (h n (omega arith)) (paint_row-misses n y dst u v (λ x k. h x (omega arith)))

  -- A pixel that exactly one step writes has the source's pixel of that step.
  paint_row-hits :
      (n y : ℕ) (dst : ℕ → ℕ → C) (u v x : ℕ)
      → x < n
      → px x y ≡ u
      → py x y ≡ v
      → ((x' : ℕ) → x' < n → ((u == px x' y) && (v == py x' y)) ≡ (x' == x))
      → paint_row px py src n y dst u v ≡ src x y
  unfolding paint_row
  paint_row-hits zero y dst u v x k e f h = absurd (omega arith)
  paint_row-hits (suc n) y dst u v x k e f h = elim (Bool-cases (n == x)) [
    | inl s ↦ rw (h n (omega arith), s) (ap (λ i. src i y) (ground (arith)))
    | inr s ↦
        rw (h n (omega arith), s)
          (paint_row-hits n y dst u v x (ground (arith)) e f (λ x' l. h x' (omega arith)))
  ]

  paint-hits :
      (w n : ℕ) (dst : ℕ → ℕ → C) (u v x y : ℕ)
      → x < w
      → y < n
      → px x y ≡ u
      → py x y ≡ v
      → ((x' y' : ℕ)
          → x' < w
          → y' < n
          → ((u == px x' y') && (v == py x' y')) ≡ ((x' == x) && (y' == y)))
      → paint px py src w n dst u v ≡ src x y
  unfolding paint
  paint-hits w zero dst u v x y k l e f h = absurd (omega arith)
  paint-hits w (suc n) dst u v x y k l e f h = elim (Bool-cases (n == y)) [
    | inl s ↦
        let last : n ≡ y = ground (arith) in
        paint_row-hits w n (paint px py src w n dst) u v x k (ap (λ j. px x j) last ∙ e)
          (ap (λ j. py x j) last ∙ f) (λ x' a. h x' n a (omega arith) ∙ ground (arith))
        ∙ ap (src x) last
    | inr s ↦
        paint_row-misses w n (paint px py src w n dst) u v
          (λ x' a. h x' n a (omega arith) ∙ ground (arith))
        ∙ paint-hits w n dst u v x y k (ground (arith)) e f (λ x' y' a b. h x' y' a (omega arith))
  ]

-- Where the EXIF standard has the pixel at (u, v) of the upright picture: its place in the stored one
-- of w by h pixels.
abbrev pub stored_x : ℕ → ℕ → ℕ → ℕ → ℕ
stored_x n w u v =
    if (n == 2) || (n == 3)
    then w - 1 - u
    else (if (n == 5) || (n == 6) then v else (if (n == 7) || (n == 8) then w - 1 - v else u))

abbrev pub stored_y : ℕ → ℕ → ℕ → ℕ → ℕ
stored_y n h u v =
    if (n == 3) || (n == 4)
    then h - 1 - v
    else (if (n == 6) || (n == 7) then h - 1 - u else (if (n == 5) || (n == 8) then u else v))

abbrev pub is_turned : ℕ → Bool
is_turned n = leb 5 n && leb n 8

module _ {C : Type 0} (blank : C) where
  rotate90-at :
      (p : Picture C) (u v : ℕ)
      → u < p.height
      → v < p.width
      → (rotate90 blank p).at u v ≡ p.at v (p.height - 1 - u)
  unfolding rotate90
  rotate90-at p u v h k =
      paint-hits (λ x y. p.height - 1 - y) (λ x y. x) p.at p.width p.height (λ a b. blank) u v v
        (p.height - 1 - u) k (omega arith) (omega arith) refl (λ x' y' a b. ground (arith))

  rotate270-at :
      (p : Picture C) (u v : ℕ)
      → u < p.height
      → v < p.width
      → (rotate270 blank p).at u v ≡ p.at (p.width - 1 - v) u
  unfolding rotate270
  rotate270-at p u v h k =
      paint-hits (λ x y. y) (λ x y. p.width - 1 - x) p.at p.width p.height (λ a b. blank) u v
        (p.width - 1 - v) u (omega arith) h refl (omega arith) (λ x' y' a b. ground (arith))

  rotate180-at :
      (p : Picture C) (u v : ℕ)
      → u < p.width
      → v < p.height
      → (rotate180 blank p).at u v ≡ p.at (p.width - 1 - u) (p.height - 1 - v)
  unfolding rotate180
  rotate180-at p u v h k =
      paint-hits (λ x y. p.width - 1 - x) (λ x y. p.height - 1 - y) p.at p.width p.height
        (λ a b. blank) u v (p.width - 1 - u) (p.height - 1 - v) (omega arith) (omega arith)
        (omega arith) (omega arith) (λ x' y' a b. ground (arith))

  flip_h-at :
      (p : Picture C) (u v : ℕ)
      → u < p.width
      → v < p.height
      → (flip_h blank p).at u v ≡ p.at (p.width - 1 - u) v
  unfolding flip_h
  flip_h-at p u v h k =
      paint-hits (λ x y. p.width - 1 - x) (λ x y. y) p.at p.width p.height (λ a b. blank) u v
        (p.width - 1 - u) v (omega arith) k (omega arith) refl (λ x' y' a b. ground (arith))

  flip_v-at :
      (p : Picture C) (u v : ℕ)
      → u < p.width
      → v < p.height
      → (flip_v blank p).at u v ≡ p.at u (p.height - 1 - v)
  unfolding flip_v
  flip_v-at p u v h k =
      paint-hits (λ x y. x) (λ x y. p.height - 1 - y) p.at p.width p.height (λ a b. blank) u v u
        (p.height - 1 - v) h (omega arith) refl (omega arith) (λ x' y' a b. ground (arith))

  -- Transposition and its mirror: a turn and a flip.
  transpose-at :
      (p : Picture C) (u v : ℕ)
      → u < p.height
      → v < p.width
      → (flip_h blank (rotate90 blank p)).at u v ≡ p.at v u
  unfolding rotate90
  transpose-at p u v h k =
      flip_h-at (rotate90 blank p) u v h k
      ∙ rotate90-at p (p.height - 1 - u) v (omega arith) k
      ∙ ap (p.at v) (omega arith)

  transverse-at :
      (p : Picture C) (u v : ℕ)
      → u < p.height
      → v < p.width
      → (flip_h blank (rotate270 blank p)).at u v ≡ p.at (p.width - 1 - v) (p.height - 1 - u)
  unfolding rotate270
  transverse-at p u v h k =
      flip_h-at (rotate270 blank p) u v h k ∙ rotate270-at p (p.height - 1 - u) v (omega arith) k

  -- Every pixel of the upright picture, whose sides are turned for the orientations 5 to 8, is the
  -- stored pixel that the EXIF standard names for the orientation; any other number changes nothing.
  pub apply_orientation-at :
      (p : Picture C) (n u v : ℕ)
      → u < (if is_turned n then p.height else p.width)
      → v < (if is_turned n then p.width else p.height)
      → ((apply_orientation blank p (pos n)).width ≡ (if is_turned n then p.height else p.width))
        × ((apply_orientation blank p (pos n)).height ≡ (if is_turned n then p.width else p.height))
        × ((apply_orientation blank p (pos n)).at u v
            ≡ p.at (stored_x n p.width u v) (stored_y n p.height u v))
  unfolding apply_orientation rotate90 rotate180 rotate270 flip_h flip_v
  apply_orientation-at p zero u v h k = (refl, refl, refl)
  apply_orientation-at p (suc zero) u v h k = (refl, refl, refl)
  apply_orientation-at p (suc (suc zero)) u v h k = (refl, refl, flip_h-at p u v h k)
  apply_orientation-at p (suc (suc (suc zero))) u v h k = (refl, refl, rotate180-at p u v h k)
  apply_orientation-at p (suc (suc (suc (suc zero)))) u v h k = (refl, refl, flip_v-at p u v h k)
  apply_orientation-at p (suc (suc (suc (suc (suc zero))))) u v h k =
      (refl, refl, transpose-at p u v h k)
  apply_orientation-at p (suc (suc (suc (suc (suc (suc zero)))))) u v h k =
      (refl, refl, rotate90-at p u v h k)
  apply_orientation-at p (suc (suc (suc (suc (suc (suc (suc zero))))))) u v h k =
      (refl, refl, transverse-at p u v h k)
  apply_orientation-at p (suc (suc (suc (suc (suc (suc (suc (suc zero)))))))) u v h k =
      (refl, refl, rotate270-at p u v h k)
  apply_orientation-at p (suc (suc (suc (suc (suc (suc (suc (suc (suc n))))))))) u v h k =
      ground (arith)
