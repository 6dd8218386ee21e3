-- ===== src/Thumb.antt =====
-- catalog/thumb.go: the size of a thumbnail, and the EXIF orientation of its pixels. Resampling is a
-- parameter; writing the file is not modelled.
pub mod Upright
pub mod Size
use fragments.Base.{
  ℕ, zero, suc, ◌+◌, ◌-◌, ◌*◌, ◌/◌, Bool, true, false, ◌&&◌, ◌||◌, ltb, leb, ◌==◌, if◌then◌else◌, ℤ,
  pos, negsuc,
}

-- A picture with its upper left corner at 0, 0.
pub record Picture (C : Type 0) : Type 0 where
  pub width : ℕ
  pub height : ℕ
  pub at : ℕ → ℕ → C

-- The sides of scaleToFit, once the picture is too large: int(float64(a) * float64(b) / float64(c))
-- is the quotient rounded down, for sides that a float64 holds exactly with their product.
abbrev at_least_one : ℕ → ℕ
at_least_one n = if ltb n 1 then 1 else n

abbrev pub fit_width : ℕ → ℕ → ℕ → ℕ
fit_width edge sw sh = at_least_one (if leb sh sw then edge else sw * edge / sh)

abbrev pub fit_height : ℕ → ℕ → ℕ → ℕ
fit_height edge sw sh = at_least_one (if leb sh sw then sh * edge / sw else edge)

module _ {C : Type 0} where
  -- dst.Set
  abbrev pub set_pixel : ℕ → ℕ → C → (ℕ → ℕ → C) → ℕ → ℕ → C
  set_pixel x y c at u v = if (u == x) && (v == y) then c else at u v

  -- for x := 0; x < n; x++ { dst.Set(px(x, y), py(x, y), src.At(x, y)) }
  unfoldable pub paint_row :
      (ℕ → ℕ → ℕ) → (ℕ → ℕ → ℕ) → (ℕ → ℕ → C) → ℕ → ℕ → (ℕ → ℕ → C) → ℕ → ℕ → C
  paint_row px py src zero y dst = dst
  paint_row px py src (suc x) y dst =
      set_pixel (px x y) (py x y) (src x y) (paint_row px py src x y dst)

  unfoldable pub paint : (ℕ → ℕ → ℕ) → (ℕ → ℕ → ℕ) → (ℕ → ℕ → C) → ℕ → ℕ → (ℕ → ℕ → C) → ℕ → ℕ → C
  unfolding paint_row
  paint px py src w zero dst = dst
  paint px py src w (suc y) dst = paint_row px py src w y (paint px py src w y dst)

  -- `blank` is the colour of a new image.
  module _ (blank : C) where
    unfoldable pub rotate90 : Picture C → Picture C
    unfolding paint
    rotate90 p = record {
      width = p.height;
      height = p.width;
      at = paint (λ x y. p.height - 1 - y) (λ x y. x) p.at p.width p.height (λ u v. blank);
    }

    unfoldable pub rotate270 : Picture C → Picture C
    unfolding paint
    rotate270 p = record {
      width = p.height;
      height = p.width;
      at = paint (λ x y. y) (λ x y. p.width - 1 - x) p.at p.width p.height (λ u v. blank);
    }

    unfoldable pub rotate180 : Picture C → Picture C
    unfolding paint
    rotate180 p = record {
      width = p.width;
      height = p.height;
      at =
          paint (λ x y. p.width - 1 - x) (λ x y. p.height - 1 - y) p.at p.width p.height
            (λ u v. blank);
    }

    unfoldable pub flip_h : Picture C → Picture C
    unfolding paint
    flip_h p = record {
      width = p.width;
      height = p.height;
      at = paint (λ x y. p.width - 1 - x) (λ x y. y) p.at p.width p.height (λ u v. blank);
    }

    unfoldable pub flip_v : Picture C → Picture C
    unfolding paint
    flip_v p = record {
      width = p.width;
      height = p.height;
      at = paint (λ x y. x) (λ x y. p.height - 1 - y) p.at p.width p.height (λ u v. blank);
    }

    unfoldable pub apply_orientation : Picture C → ℤ → Picture C
    apply_orientation p (negsuc _) = p
    apply_orientation p (pos n) =
        if n == 2
        then flip_h p
        else (if n == 3
            then rotate180 p
            else (if n == 4
                then flip_v p
                else (if n == 5
                    then flip_h (rotate90 p)
                    else (if n == 6
                        then rotate90 p
                        else (if n == 7
                            then flip_h (rotate270 p)
                            else (if n == 8 then rotate270 p else p))))))

    -- `resample` draws a picture at another size, one way or, for `fast`, another.
    module _ (resample : Bool → ℕ → ℕ → Picture C → Picture C) where
      unfoldable pub scale_to_fit : Picture C → ℤ → Bool → Picture C
      scale_to_fit p (negsuc _) fast = p
      scale_to_fit p (pos edge) fast =
          if (edge == 0) || (leb p.width edge && leb p.height edge)
          then p
          else resample fast (fit_width edge p.width p.height) (fit_height edge p.width p.height) p

      unfoldable pub thumbnail : Picture C → ℤ → ℤ → Bool → Picture C
      thumbnail p orientation edge fast = apply_orientation (scale_to_fit p edge fast) orientation
