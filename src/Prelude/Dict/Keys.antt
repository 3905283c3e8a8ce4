-- ===== src/Prelude/Dict/Keys.antt =====
-- Which keys a `dict` has, and what holds of all its values.
use mathlib.Core.Path.{◌≡◌, refl}
use mathlib.Core.Bool.{Bool, true, ◌||◌}
use mathlib.Core.Logic.{inl, inr}
use mathlib.Core.List.{List, [], ◌∷◌}
use mathlib.Core.Option.{some}
use native.Mathlib.Omega.{arith}
use analysis_srv.Prelude.Tests.{Bool-cases}
use analysis_srv.Prelude.Lists.{any, All, All-append}
use analysis_srv.Prelude.Eq.{Key, ◌==◌, ==_iff}
use analysis_srv.Prelude.Dict.{Dict, get, set, keys, values, push_at, group_onto, group_by}

module _ {ℓ κ} {K : Type ℓ} ⦃key : Key K⦄ {V : Type κ} where
  -- k in d
  abbrev pub has_key : K → Dict K V → Bool
  has_key k d = any (λ j. j == k) (keys d)

  pub get-has_key : (k : K) (d : Dict K V) → has_key k d ≡ true → (v : V) × (get k d ≡ some v)
  unfolding get
  get-has_key k [] h = cc
  get-has_key k ((j, v) ∷ d) h = elim (Bool-cases (j == k)) [
    | inl e ↦ (v, rw (get, e) refl)
    | inr e ↦ let (w, found) = get-has_key k d (rw e at h) in (w, rw (get, e) found)
  ]

  pub has_key-set :
      (k j : K) (v : V) (d : Dict K V) → has_key k (set j v d) ≡ ((j == k) || has_key k d)
  unfolding set
  has_key-set k j v [] = ground arith
  has_key-set k j v ((i, w) ∷ d) = ground (arith, ==_iff i j, has_key-set k j v d)

module _ {ℓ κ} {K : Type ℓ} ⦃key : Key K⦄ {A : Type κ} where
  has_key-push_at :
      (k j : K) (x : A) (d : Dict K (List A))
      → has_key k (push_at j x d) ≡ ((j == k) || has_key k d)
  unfolding push_at
  has_key-push_at k j x [] = ground arith
  has_key-push_at k j x ((i, xs) ∷ d) = ground (arith, ==_iff i j, has_key-push_at k j x d)

  has_key-group_onto :
      (f : A → K) (k : K) (d : Dict K (List A)) (xs : List A)
      → has_key k d ≡ true
      → has_key k (group_onto f d xs) ≡ true
  unfolding group_onto
  has_key-group_onto f k d [] h = h
  has_key-group_onto f k d (x ∷ xs) h =
      has_key-group_onto f k (push_at (f x) x d) xs (ground (arith, has_key-push_at k (f x) x d))

  group_onto-keys :
      (f : A → K) (d : Dict K (List A)) (xs : List A)
      → All (λ x. has_key (f x) (group_onto f d xs) ≡ true) xs
  unfolding group_onto
  group_onto-keys f d [] = tt
  group_onto-keys f d (x ∷ xs) = (
    has_key-group_onto f (f x) (push_at (f x) x d) xs
        (ground (arith, has_key-push_at (f x) (f x) x d, ==_iff (f x) (f x))),
    group_onto-keys f (push_at (f x) x d) xs,
  )

  -- Each item's key is in the groups.
  pub group_by-keys : (f : A → K) (xs : List A) → All (λ x. has_key (f x) (group_by f xs) ≡ true) xs
  unfolding group_by
  group_by-keys f xs = group_onto-keys f [] xs

  module _ {μ} (P : A → Type μ) where
    pub push_at-All :
        (k : K) (x : A) (d : Dict K (List A))
        → P x
        → All (All P) (values d)
        → All (All P) (values (push_at k x d))
    unfolding push_at
    push_at-All k x [] p h = ((p, tt), tt)
    push_at-All k x ((j, xs) ∷ d) p h = elim (Bool-cases (j == k)) [
      | inl e ↦ rw e (All-append P xs (x ∷ []) h.0 (p, tt), h.1)
      | inr e ↦ rw e (h.0, push_at-All k x d p h.1)
    ]

    group_onto-All :
        (f : A → K) (d : Dict K (List A)) (xs : List A)
        → All P xs
        → All (All P) (values d)
        → All (All P) (values (group_onto f d xs))
    unfolding group_onto
    group_onto-All f d [] h a = a
    group_onto-All f d (x ∷ xs) h a =
        group_onto-All f (push_at (f x) x d) xs h.1 (push_at-All (f x) x d h.0 a)

    -- What holds of all items holds in all groups.
    pub group_by-All : (f : A → K) (xs : List A) → All P xs → All (All P) (values (group_by f xs))
    unfolding group_by
    group_by-All f xs h = group_onto-All f [] xs h tt
