-- ===== src/Prelude/Dict/Laws.antt =====
-- What a `dict` holds after a write, and what `group_by` collects.
use Prim.Native.Nat.{ℕ, suc, ◌+◌}
use mathlib.Core.Path.{◌≡◌, refl, sym}
use mathlib.Core.Bool.{Bool}
use mathlib.Core.List.{List, [], ◌∷◌, ◌++◌, append-nil, append_assoc, flatten}
use mathlib.Core.Option.{Option, none, some}
use native.Mathlib.Omega.{arith}
use analysis_srv.Prelude.Tests.{if◌then◌else◌}
use analysis_srv.Prelude.Lists.{length, filter, count, All, length-append}
use analysis_srv.Prelude.Eq.{Key, ◌==◌, ==_iff}
use analysis_srv.Prelude.Dict.{Dict, get, set, values, push_at, group_onto, group_by, items_at}

-- Whether a value that may be missing is counted.
abbrev pub count_found {ℓ} : {V : Type ℓ} → (V → Bool) → Option V → ℕ
count_found t none = 0
count_found t (some v) = if t v then 1 else 0

module _ {ℓ κ} {K : Type ℓ} ⦃e : Key K⦄ {V : Type κ} where
  pub get-set :
      (k j : K) (v : V) (d : Dict K V) → get j (set k v d) ≡ (if k == j then some v else get j d)
  unfolding get set
  get-set k j v [] = refl
  get-set k j v ((i, w) ∷ d) = ground (arith, ==_iff k j, ==_iff i k, ==_iff i j, get-set k j v d)

  -- A write adds the written value to what is counted, and takes away what stood at its key.
  pub count-set :
      (t : V → Bool) (k : K) (v : V) (d : Dict K V)
      → count t (values (set k v d)) + count_found t (get k d)
        ≡ (if t v then 1 else 0) + count t (values d)
  unfolding set get
  count-set t k v [] = omega arith
  count-set t k v ((i, w) ∷ d) = ground (arith, count-set t k v d)

  -- What holds of all values is kept by a write.
  pub All-set {μ} :
      (P : V → Type μ) (k : K) (v : V) (d : Dict K V)
      → P v
      → All P (values d)
      → All P (values (set k v d))
  unfolding set
  All-set P k v [] h a = (h, tt)
  All-set P k v ((i, w) ∷ d) h a = ground (arith, All-set P k v d h a.1)

module _ {ℓ κ} {K : Type ℓ} ⦃e : Key K⦄ {A : Type κ} where
  pub items_at-push_at :
      (k j : K) (x : A) (d : Dict K (List A))
      → items_at j (push_at k x d) ≡ (if k == j then items_at j d ++ x ∷ [] else items_at j d)
  unfolding get push_at
  items_at-push_at k j x [] = ground arith
  items_at-push_at k j x ((i, xs) ∷ d) =
      ground (arith, ==_iff k j, ==_iff i k, ==_iff i j, items_at-push_at k j x d)

  group_onto-items_at :
      (f : A → K) (j : K) (d : Dict K (List A)) (xs : List A)
      → items_at j (group_onto f d xs) ≡ items_at j d ++ filter (λ x. f x == j) xs
  unfolding group_onto
  group_onto-items_at f j d [] = sym (append-nil (items_at j d))
  group_onto-items_at f j d (x ∷ xs) = ground (
    arith,
    group_onto-items_at f j (push_at (f x) x d) xs,
    items_at-push_at (f x) j x d,
    append_assoc (items_at j d) (x ∷ []) (filter (λ y. f y == j) xs),
  )

  -- A group holds the items of its key, in their order.
  pub group_by-items_at :
      (f : A → K) (j : K) (xs : List A) → items_at j (group_by f xs) ≡ filter (λ x. f x == j) xs
  unfolding group_by get
  group_by-items_at f j xs = group_onto-items_at f j [] xs

  abbrev pub total : Dict K (List A) → ℕ
  total d = length (flatten (values d))

  total-push_at : (k : K) (x : A) (d : Dict K (List A)) → total (push_at k x d) ≡ suc (total d)
  unfolding push_at flatten
  total-push_at k x [] = refl
  total-push_at k x ((i, ys) ∷ d) = ground (
    arith,
    total-push_at k x d,
    length-append (ys ++ x ∷ []) (flatten (values d)),
    length-append ys (x ∷ []),
    length-append ys (flatten (values d)),
    length-append ys (flatten (values (push_at k x d))),
  )

  group_onto-total :
      (f : A → K) (d : Dict K (List A)) (xs : List A)
      → total (group_onto f d xs) ≡ total d + length xs
  unfolding group_onto
  group_onto-total f d [] = omega arith
  group_onto-total f d (x ∷ xs) =
      omega (arith, group_onto-total f (push_at (f x) x d) xs, total-push_at (f x) x d)

  -- Grouping loses nothing and copies nothing.
  pub group_by-total : (f : A → K) (xs : List A) → total (group_by f xs) ≡ length xs
  unfolding group_by flatten
  group_by-total f xs = omega (arith, group_onto-total f [] xs)
