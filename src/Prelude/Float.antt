-- ===== src/Prelude/Float.antt =====
-- Python's `float`, which the program computes with and does not implement: a carrier with its
-- operations, and as named laws what a proof relies on for values that are not NaN. `scaled` shows
-- that the operations and the laws can be met: integers of millionths.
pub mod Bounds
use Prim.Native.Nat.{ℕ, ◌-◌, ◌*◌, ◌/◌, ◌^◌}
use mathlib.Core.Path.{◌≡◌}
use mathlib.Core.Logic.{◌⊎◌}
use mathlib.Core.Bool.{Bool, true, not}
use native.Mathlib.Omega.{arith}
use analysis_srv.Prelude.Tests.{if◌then◌else◌}
use analysis_srv.Prelude.Int.{ℤ, pos, negsuc, neg_part, ◌+ℤ◌, ◌-ℤ◌, ◌*ℤ◌, leb_ℤ, ltb_ℤ, div_ℕ}

pub record Float (F : Type 0) : Type 0 where
  -- a <= b, a < b
  pub le : F → F → Bool
  pub lt : F → F → Bool
  pub add : F → F → F
  pub sub : F → F → F
  pub neg : F → F
  pub mul : F → F → F
  pub div : F → F → F
  -- the literal n / d, and float(n)
  pub lit : ℕ → ℕ → F
  -- round(x, n)
  pub round : ℕ → F → F

pub record IsOrdered {F : Type 0} (fl : Float F) : Type 0 where
  pub le_total : (a b : F) → (fl.le a b ≡ true) ⊎ (fl.le b a ≡ true)
  pub le_trans : (a b c : F) → fl.le a b ≡ true → fl.le b c ≡ true → fl.le a c ≡ true
  pub lt_not : (a b : F) → fl.lt a b ≡ not (fl.le b a)

-- max(a, b) and min(a, b) of Python: the first argument unless the second is strictly beyond it.
module _ {F : Type 0} ⦃fl : Float F⦄ where
  abbrev pub max_f : F → F → F
  max_f a b = if fl.lt a b then b else a

  abbrev pub min_f : F → F → F
  min_f a b = if fl.lt b a then b else a

abbrev pub millionths : ℤ → ℤ → ℤ
millionths a (pos d) = div_ℕ (pos 1_000_000 *ℤ a) d
millionths a (negsuc d) = pos 0 -ℤ div_ℕ (pos 1_000_000 *ℤ a) (neg_part (negsuc d))

instance abbrev pub scaled : Float ℤ
scaled = record {
  le = leb_ℤ;
  lt = ltb_ℤ;
  add = ◌+ℤ◌;
  sub = ◌-ℤ◌;
  neg = λ a. pos 0 -ℤ a;
  mul = λ a b. div_ℕ (a *ℤ b) 1_000_000;
  div = millionths;
  lit = λ n d. pos (n * 1_000_000 / d);
  round = λ n x. div_ℕ x (10 ^ (6 - n)) *ℤ pos (10 ^ (6 - n));
}

scaled-le_total : (a b : ℤ) → (leb_ℤ a b ≡ true) ⊎ (leb_ℤ b a ≡ true)
scaled-le_total a b = ground arith

scaled-le_trans : (a b c : ℤ) → leb_ℤ a b ≡ true → leb_ℤ b c ≡ true → leb_ℤ a c ≡ true
scaled-le_trans a b c h k = ground arith

scaled-lt_not : (a b : ℤ) → ltb_ℤ a b ≡ not (leb_ℤ b a)
scaled-lt_not a b = ground arith

pub scaled-IsOrdered : IsOrdered scaled
scaled-IsOrdered = record {
  le_total = scaled-le_total;
  le_trans = scaled-le_trans;
  lt_not = scaled-lt_not;
}
