-- ===== src/Prelude/Float/Bounds.antt =====
-- What `max` and `min` of ordered floats bound.
use mathlib.Core.Path.{◌≡◌}
use mathlib.Core.Bool.{true}
use native.Mathlib.Omega.{arith}
use analysis_srv.Prelude.Float.{Float, IsOrdered, max_f, min_f}

module _ {F : Type 0} ⦃fl : Float F⦄ (ordered : IsOrdered fl) where
  pub le-max_left : (a b : F) → fl.le a (max_f a b) ≡ true
  le-max_left a b = ground (arith, ordered.le_total a b, ordered.le_total a a, ordered.lt_not a b)

  pub le-max_right : (a b : F) → fl.le b (max_f a b) ≡ true
  le-max_right a b = ground (arith, ordered.le_total b b, ordered.lt_not a b)

  pub min-le_right : (a b : F) → fl.le (min_f a b) b ≡ true
  min-le_right a b = ground (arith, ordered.le_total b b, ordered.lt_not b a)

  -- A bound from below on both is one on the smaller.
  pub le-min : (a b c : F) → fl.le a b ≡ true → fl.le a c ≡ true → fl.le a (min_f b c) ≡ true
  le-min a b c h k = ground arith

  pub min-le_left : (a b : F) → fl.le (min_f a b) a ≡ true
  min-le_left a b = ground (arith, ordered.le_total b a, ordered.le_total a a, ordered.lt_not b a)
