-- ===== src/Prelude/Dict.antt =====
-- Python's `dict`: an association list in the order of first insertion.
pub mod Laws
pub mod Entries
pub mod Keys
use mathlib.Core.Bool.{Bool, true, false}
use mathlib.Core.List.{List, [], ◌∷◌, ◌++◌, map}
use mathlib.Core.Option.{Option, none, some}
use analysis_srv.Prelude.Tests.{if◌then◌else◌}
use analysis_srv.Prelude.Eq.{Key, ◌==◌}

abbrev pub Dict {ℓ κ} : Type ℓ → Type κ → Type (ℓ ⊔ κ)
Dict K V = List (K × V)

abbrev pub empty {ℓ κ} : {K : Type ℓ} {V : Type κ} → Dict K V
empty = []

module _ {ℓ κ} {K : Type ℓ} ⦃e : Key K⦄ {V : Type κ} where
  -- d.get(k)
  unfoldable pub get : K → Dict K V → Option V
  get k [] = none
  get k ((j, v) ∷ d) = if j == k then some v else get k d

  -- d[k] = v: a key that is present keeps its place
  unfoldable pub set : K → V → Dict K V → Dict K V
  set k v [] = (k, v) ∷ []
  set k v ((j, w) ∷ d) = if j == k then (j, v) ∷ d else (j, w) ∷ set k v d

abbrev pub keys {ℓ κ} : {K : Type ℓ} {V : Type κ} → Dict K V → List K
keys = map (λ p. p.0)

abbrev pub values {ℓ κ} : {K : Type ℓ} {V : Type κ} → Dict K V → List V
values = map (λ p. p.1)

module _ {ℓ κ} {K : Type ℓ} ⦃e : Key K⦄ {A : Type κ} where
  -- d.setdefault(k, []).append(x), and d[k].append(x) on a defaultdict(list)
  unfoldable pub push_at : K → A → Dict K (List A) → Dict K (List A)
  push_at k x [] = (k, x ∷ []) ∷ []
  push_at k x ((j, xs) ∷ d) = if j == k then (j, xs ++ x ∷ []) ∷ d else (j, xs) ∷ push_at k x d

  unfoldable pub group_onto : (A → K) → Dict K (List A) → List A → Dict K (List A)
  group_onto f d [] = d
  group_onto f d (x ∷ xs) = group_onto f (push_at (f x) x d) xs

  -- for x in xs: d[f(x)].append(x)
  unfoldable pub group_by : (A → K) → List A → Dict K (List A)
  unfolding group_onto
  group_by f xs = group_onto f empty xs

  -- d.get(k, [])
  abbrev pub items_at : K → Dict K (List A) → List A
  items_at k d = elim (get k d) [ none ↦ [] | some xs ↦ xs ]
