-- ===== src/Prelude/Sets.antt =====
-- Python's sets of texts, as lists without repetition: what the program uses of them are their
-- members, their size and their intersections.
use mathlib.Core.Path.{◌≡◌, refl, sym, subst}
use mathlib.Core.Bool.{Bool, true, false, not, ◌||◌}
use mathlib.Core.List.{List, [], ◌∷◌, ◌++◌}
use Prim.Native.Nat.{ℕ, ◌+◌, ◌≤◌}
use native.Mathlib.Omega.{arith}
use analysis_srv.Prelude.Tests.{if◌then◌else◌, Bool-cases}
use mathlib.Core.Logic.{inl, inr}
use analysis_srv.Prelude.Lists.{
  length, filter, count, any, length-append, length-filter, count-append,
}
use analysis_srv.Prelude.Eq.{Key, ◌==◌, ==_iff}

module _ {K : Type 0} ⦃key : Key K⦄ where
  -- x in s
  abbrev pub member : K → List K → Bool
  member x s = any (λ y. y == x) s

  -- s.add(x)
  unfoldable pub add : K → List K → List K
  add x s = if member x s then s else s ++ x ∷ []

  -- set(xs), onto the set so far
  unfoldable pub set_onto : List K → List K → List K
  unfolding add
  set_onto s [] = s
  set_onto s (x ∷ xs) = set_onto (add x s) xs

  unfoldable pub set_of : List K → List K
  unfolding set_onto
  set_of xs = set_onto [] xs

  -- a | b and a & b
  unfoldable pub union_of : List K → List K → List K
  union_of a b = a ++ filter (λ x. not (member x a)) b

  unfoldable pub common_of : List K → List K → List K
  common_of a b = filter (λ x. member x b) a

  -- No item stands twice.
  abbrev pub IsDistinct : List K → Type 0
  IsDistinct s = (x : K) → count (λ y. y == x) s ≤ 1

  count-member : (x : K) (s : List K) → member x s ≡ false → count (λ y. y == x) s ≡ 0
  count-member x [] h = refl
  count-member x (y ∷ s) h = ground (arith, count-member x s)

  pub add-IsDistinct : (x : K) (s : List K) → IsDistinct s → IsDistinct (add x s)
  unfolding add
  add-IsDistinct x s d k =
      ground (arith, d k, count-append (λ y. y == k) s (x ∷ []), count-member x s, ==_iff x k)

  set_onto-IsDistinct : (s xs : List K) → IsDistinct s → IsDistinct (set_onto s xs)
  unfolding set_onto
  set_onto-IsDistinct s [] d = d
  set_onto-IsDistinct s (x ∷ xs) d = set_onto-IsDistinct (add x s) xs (add-IsDistinct x s d)

  pub set_of-IsDistinct : (xs : List K) → IsDistinct (set_of xs)
  unfolding set_of
  set_of-IsDistinct xs = set_onto-IsDistinct [] xs (λ x. omega arith)

  -- The number of equal pairs, counted from either side.
  matches : List K → List K → ℕ
  matches [] b = 0
  matches (x ∷ a) b = count (λ y. y == x) b + matches a b

  matches-nil : (a : List K) → matches a [] ≡ 0
  unfolding matches
  matches-nil [] = refl
  matches-nil (x ∷ a) = omega (arith, matches-nil a)

  matches-cons : (y : K) (a b : List K) → matches a (y ∷ b) ≡ count (λ x. x == y) a + matches a b
  unfolding matches
  matches-cons y [] b = refl
  matches-cons y (x ∷ a) b = ground (arith, matches-cons y a b, ==_iff x y, ==_iff y x)

  matches_sym : (a b : List K) → matches a b ≡ matches b a
  unfolding matches
  matches_sym a [] = matches-nil a
  matches_sym a (y ∷ b) = omega (arith, matches-cons y a b, matches_sym a b)

  pub count-of_in : (x : K) (b : List K) → member x b ≡ true → 1 ≤ count (λ y. y == x) b
  count-of_in x [] h = cc
  count-of_in x (y ∷ b) h = ground (arith, count-of_in x b)

  count-of_member :
      (x : K) (b : List K) → IsDistinct b → count (λ y. y == x) b ≡ (if member x b then 1 else 0)
  count-of_member x b d = elim (Bool-cases (member x b)) [
    | inl e ↦ rw e (omega (arith, d x, count-of_in x b e))
    | inr e ↦ rw e (count-member x b e)
  ]

  count-common : (a b : List K) → IsDistinct b → count (λ x. member x b) a ≡ matches a b
  unfolding matches
  count-common [] b d = refl
  count-common (x ∷ a) b d = omega (arith, count-of_member x b d, count-common a b d)

  -- Both orders find as much in common.
  pub common_of_sym :
      (a b : List K) → IsDistinct a → IsDistinct b → length (common_of a b) ≡ length (common_of b a)
  unfolding common_of
  common_of_sym a b da db = omega (
    arith,
    length-filter (λ x. member x b) a,
    length-filter (λ x. member x a) b,
    count-common a b db,
    count-common b a da,
    matches_sym a b,
  )

  count-not : (t : K → Bool) (b : List K) → count (λ x. not (t x)) b + count t b ≡ length b
  count-not t [] = refl
  count-not t (x ∷ b) = ground (arith, count-not t b)

  -- Both orders have a union of one size.
  pub union_of_sym :
      (a b : List K) → IsDistinct a → IsDistinct b → length (union_of a b) ≡ length (union_of b a)
  unfolding union_of
  union_of_sym a b da db = omega (
    arith,
    length-append a (filter (λ x. not (member x a)) b),
    length-append b (filter (λ x. not (member x b)) a),
    length-filter (λ x. not (member x a)) b,
    length-filter (λ x. not (member x b)) a,
    count-not (λ x. member x a) b,
    count-not (λ x. member x b) a,
    count-common a b db,
    count-common b a da,
    matches_sym a b,
  )

  any-append : (t : K → Bool) (a b : List K) → any t (a ++ b) ≡ (any t a || any t b)
  any-append t [] b = refl
  any-append t (x ∷ a) b = ground (arith, any-append t a b)

  pub member-append : (k : K) (a b : List K) → member k (a ++ b) ≡ (member k a || member k b)
  member-append k = any-append (λ y. y == k)

  member-add : (k x : K) (s : List K) → member k (add x s) ≡ ((x == k) || member k s)
  unfolding add
  member-add k x s = elim (Bool-cases (member x s)) [
    | inl e ↦ rw e (elim (Bool-cases (x == k)) [
      | inl f ↦ rw f (subst (λ y. member y s ≡ true) ((==_iff x k).0 f) e)
      | inr f ↦ rw f refl
    ])
    | inr e ↦ rw e (ground (arith, member-append k s (x ∷ [])))
  ]

  member-set_onto : (k : K) (s xs : List K) → member k (set_onto s xs) ≡ (member k s || member k xs)
  unfolding set_onto
  member-set_onto k s [] = ground arith
  member-set_onto k s (x ∷ xs) = ground (arith, member-set_onto k (add x s) xs, member-add k x s)

  -- A set has the members of its list.
  pub member-set_of : (k : K) (xs : List K) → member k (set_of xs) ≡ member k xs
  unfolding set_of
  member-set_of k xs = member-set_onto k [] xs

  -- What holds of a member holds of some item.
  pub any_of_member :
      (t : K → Bool) (k : K) (s : List K) → member k s ≡ true → t k ≡ true → any t s ≡ true
  any_of_member t k [] h e = cc
  any_of_member t k (x ∷ s) h e = elim (Bool-cases (x == k)) [
    | inl f ↦ let g : t x ≡ true = subst (λ y. t y ≡ true) (sym ((==_iff x k).0 f)) e in rw g refl
    | inr f ↦ ground (arith, any_of_member t k s (rw f at h) e)
  ]

  pub member-append_right : (k : K) (a b : List K) → member k b ≡ true → member k (a ++ b) ≡ true
  member-append_right k [] b h = h
  member-append_right k (x ∷ a) b h = ground (arith, member-append_right k a b h)
