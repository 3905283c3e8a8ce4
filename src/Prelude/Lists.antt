-- ===== src/Prelude/Lists.antt =====
-- Lists measured by native numbers and filtered by Boolean tests, as Python's comprehensions do.
use Prim.Native.Nat.{ℕ, zero, suc, ◌+◌, ◌≤◌, min}
use mathlib.Core.Path.{◌≡◌, refl, ap, sym, ◌∙◌}
use mathlib.Core.Bool.{Bool, true, false, ◌||◌}
use mathlib.Core.List.{List, [], ◌∷◌, ◌++◌, append_assoc, map, flatten}
use mathlib.Core.Option.{Option, none, some}
use native.Mathlib.Omega.{arith}
use analysis_srv.Prelude.Tests.{if◌then◌else◌, Bool-cases, ltb}
use mathlib.Core.Logic.{inl, inr}

module _ {ℓ} {A : Type ℓ} where
  abbrev pub length : List A → ℕ
  length [] = 0
  length (x ∷ xs) = suc (length xs)

  -- [x for x in xs if t(x)]
  abbrev pub filter : (A → Bool) → List A → List A
  filter t [] = []
  filter t (x ∷ xs) = let rest = filter t xs in if t x then x ∷ rest else rest

  -- sum(1 for x in xs if t(x))
  abbrev pub count : (A → Bool) → List A → ℕ
  count t [] = 0
  count t (x ∷ xs) = (if t x then 1 else 0) + count t xs

  -- xs[:n]
  abbrev pub take : ℕ → List A → List A
  take zero xs = []
  take (suc n) [] = []
  take (suc n) (x ∷ xs) = x ∷ take n xs

  abbrev pub any : (A → Bool) → List A → Bool
  any t [] = false
  any t (x ∷ xs) = t x || any t xs

  abbrev pub head? : List A → Option A
  head? [] = none
  head? (x ∷ xs) = some x

  abbrev pub All {κ} : (A → Type κ) → List A → Type κ
  All P [] = Unit
  All P (x ∷ xs) = P x × All P xs

-- max(ns, default=0)
unfoldable pub most : List ℕ → ℕ
most [] = 0
most (n ∷ ns) = let rest = most ns in if ltb rest n then n else rest

module _ {ℓ} {A : Type ℓ} where
  pub length-append : (xs ys : List A) → length (xs ++ ys) ≡ length xs + length ys
  length-append [] ys = omega arith
  length-append (x ∷ xs) ys = omega (arith, length-append xs ys)

  pub length-filter : (t : A → Bool) (xs : List A) → length (filter t xs) ≡ count t xs
  length-filter t [] = refl
  length-filter t (x ∷ xs) = ground (arith, length-filter t xs)

  pub filter-append :
      (t : A → Bool) (xs ys : List A) → filter t (xs ++ ys) ≡ filter t xs ++ filter t ys
  filter-append t [] ys = refl
  filter-append t (x ∷ xs) ys = ground (arith, filter-append t xs ys)

  pub count-le-length : (t : A → Bool) (xs : List A) → count t xs ≤ length xs
  count-le-length t [] = omega arith
  count-le-length t (x ∷ xs) = ground (arith, count-le-length t xs)

  pub count-append : (t : A → Bool) (xs ys : List A) → count t (xs ++ ys) ≡ count t xs + count t ys
  count-append t [] ys = omega arith
  count-append t (x ∷ xs) ys = ground (arith, count-append t xs ys)

  pub length-take : (n : ℕ) (xs : List A) → length (take n xs) ≡ min n (length xs)
  length-take zero xs = omega arith
  length-take (suc n) [] = omega arith
  length-take (suc n) (x ∷ xs) = omega (arith, length-take n xs)

  pub filter-All : (t : A → Bool) (xs : List A) → All (λ x. t x ≡ true) (filter t xs)
  filter-All t [] = tt
  filter-All t (x ∷ xs) = ground (arith, filter-All t xs)

  pub filter-keeps {κ} :
      (P : A → Type κ) (t : A → Bool) (xs : List A) → All P xs → All P (filter t xs)
  filter-keeps P t [] h = tt
  filter-keeps P t (x ∷ xs) h = elim (Bool-cases (t x)) [
    | inl e ↦ rw e (h.0, filter-keeps P t xs h.1)
    | inr e ↦ rw e (filter-keeps P t xs h.1)
  ]

  pub take-All {κ} : (P : A → Type κ) (n : ℕ) (xs : List A) → All P xs → All P (take n xs)
  take-All P zero xs h = tt
  take-All P (suc n) [] h = tt
  take-All P (suc n) (x ∷ xs) h = (h.0, take-All P n xs h.1)

  pub All-append {κ} : (P : A → Type κ) (xs ys : List A) → All P xs → All P ys → All P (xs ++ ys)
  All-append P [] ys h k = k
  All-append P (x ∷ xs) ys h k = (h.0, All-append P xs ys h.1 k)

pub length-map {ℓ κ} :
    {A : Type ℓ} {B : Type κ} (f : A → B) (xs : List A) → length (map f xs) ≡ length xs
length-map f [] = refl
length-map f (x ∷ xs) = ap suc (length-map f xs)

pub flatten-append {ℓ} :
    {A : Type ℓ} (xss yss : List (List A)) → flatten (xss ++ yss) ≡ flatten xss ++ flatten yss
unfolding flatten
flatten-append [] yss = refl
flatten-append (xs ∷ xss) yss =
    ap (◌++◌ xs) (flatten-append xss yss) ∙ sym (append_assoc xs (flatten xss) (flatten yss))
