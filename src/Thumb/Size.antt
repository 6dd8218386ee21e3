-- ===== src/Thumb/Size.antt =====
-- catalog/thumb.go: a thumbnail fits the square it is asked to.
use fragments.Base.{ℕ, suc, ◌*◌, ◌/◌, ◌<◌, ◌≤◌, ◌≡◌, Bool, pos, arith, ◌⊎◌}
use native.Mathlib.Nat.{div-lt_iff_lt-mul}
use fragments.Thumb.{
  Picture, fit_width, fit_height, scale_to_fit, thumbnail, apply_orientation, rotate90, rotate180,
  rotate270, flip_h, flip_v,
}

-- A share of the edge that is not above one is not above the edge.
share-le : (a edge b : ℕ) → a ≤ b → 0 < b → a * edge / b ≤ edge
share-le a edge b h k =
    let below = (div-lt_iff_lt-mul {k = b} {x = a * edge} {y = suc edge} k).1 (grind (arith)) in
    omega (arith, below)

fit_sides-le :
    (edge sw sh : ℕ)
    → 0 < edge
    → 0 < sw
    → 0 < sh
    → (1 ≤ fit_width edge sw sh)
      × (fit_width edge sw sh ≤ edge)
      × (1 ≤ fit_height edge sw sh)
      × (fit_height edge sw sh ≤ edge)
fit_sides-le edge sw sh h k l = ground (arith, share-le sw edge sh, share-le sh edge sw)

orientation-sides :
    {C : Type 0} (blank : C) (p : Picture C) (n : ℕ)
    → (((apply_orientation blank p (pos n)).width ≡ p.width)
        × ((apply_orientation blank p (pos n)).height ≡ p.height))
      ⊎ (((apply_orientation blank p (pos n)).width ≡ p.height)
          × ((apply_orientation blank p (pos n)).height ≡ p.width))
unfolding apply_orientation rotate90 rotate180 rotate270 flip_h flip_v
orientation-sides blank p n = ground (arith)

scaled-fits :
    {C : Type 0} (blank : C) (resample : Bool → ℕ → ℕ → Picture C → Picture C) (p : Picture C)
    (edge : ℕ) (fast : Bool)
    → ((f : Bool) (w h : ℕ) (q : Picture C)
        → ((resample f w h q).width ≡ w) × ((resample f w h q).height ≡ h))
    → 0 < edge
    → 0 < p.width
    → 0 < p.height
    → let t = scale_to_fit blank resample p (pos edge) fast in
      (1 ≤ t.width) × (t.width ≤ edge) × (1 ≤ t.height) × (t.height ≤ edge)
unfolding scale_to_fit
scaled-fits blank resample p edge fast sized h k l = ground (
  arith,
  fit_sides-le edge p.width p.height h k l,
  sized fast (fit_width edge p.width p.height) (fit_height edge p.width p.height) p,
)

-- If the resampler draws a picture of the size that it is asked for, then both sides of the
-- thumbnail of a picture with pixels are at least one and at most the longest edge, upright or
-- turned.
pub thumbnail-fits :
    {C : Type 0} (blank : C) (resample : Bool → ℕ → ℕ → Picture C → Picture C) (p : Picture C)
    (orientation edge : ℕ) (fast : Bool)
    → ((f : Bool) (w h : ℕ) (q : Picture C)
        → ((resample f w h q).width ≡ w) × ((resample f w h q).height ≡ h))
    → 0 < edge
    → 0 < p.width
    → 0 < p.height
    → let t = thumbnail blank resample p (pos orientation) (pos edge) fast in
      (1 ≤ t.width) × (t.width ≤ edge) × (1 ≤ t.height) × (t.height ≤ edge)
unfolding thumbnail
thumbnail-fits blank resample p orientation edge fast sized h k l = ground (
  arith,
  scaled-fits blank resample p edge fast sized h k l,
  orientation-sides blank (scale_to_fit blank resample p (pos edge) fast) orientation,
)
