-- ===== src/Dedup/UnionFind.antt =====
-- `_UnionFind` of annotate_dedup.py: a dict from items to parents, with path compression. `find` is
-- recursive there; here it is on fuel, with `none` where the fuel runs out.
pub mod Roots
pub mod Links
pub mod Closure
use analysis_srv.Prelude.{ℕ, zero, suc, Bool, true, false, Option, none, some, List, [], ◌∷◌, map}
use analysis_srv.Prelude.Dict.{Dict, get, set}
use analysis_srv.Prelude.Eq.{Key, ◌==◌}

module _ {K : Type 0} ⦃key : Key K⦄ where
  -- {item: item for item in items}, onto the dict so far
  unfoldable pub singletons_onto : Dict K K → List K → Dict K K
  unfolding set
  singletons_onto p [] = p
  singletons_onto p (item ∷ items) = singletons_onto (set item item p) items

  unfoldable pub singletons : List K → Dict K K
  unfolding singletons_onto
  singletons items = singletons_onto [] items

  -- d.get(item, item)
  unfoldable pub parent_or_self : K → Dict K K → K
  unfolding get
  parent_or_self item p = elim (get item p) [ none ↦ item | some parent ↦ parent ]

  -- d.setdefault(item, item)
  unfoldable pub with_default : K → Dict K K → Dict K K
  with_default item p = elim (get item p) [ none ↦ set item item p | some parent ↦ p ]

  unfoldable pub find : ℕ → K → Dict K K → Option (K × Dict K K)
  find zero item p = none
  find (suc fuel) item p = elim (parent_or_self item p == item) [
    | true ↦ some (item, with_default item p)
    | false ↦ elim (find fuel (parent_or_self item p) (with_default item p)) [
      | none ↦ none
      | some (root, q) ↦ some (root, set item root q)
    ]
  ]

  -- The end of `union`, with both roots.
  unfoldable pub join_roots : K → K → Dict K K → Dict K K
  join_roots left_root right_root p = elim (left_root == right_root) [
    | true ↦ p
    | false ↦ set right_root left_root p
  ]

  unfoldable pub union : ℕ → K → K → Dict K K → Option (Dict K K)
  union fuel left right p = elim (find fuel left p) [
    | none ↦ none
    | some (left_root, q) ↦ elim (find fuel right q) [
      | none ↦ none
      | some (right_root, r) ↦ some (join_roots left_root right_root r)
    ]
  ]

  -- The calls of `union` that a loop makes.
  unfoldable pub unions : ℕ → List (K × K) → Dict K K → Option (Dict K K)
  unions fuel [] p = some p
  unions fuel ((left, right) ∷ pairs) p = elim (union fuel left right p) [
    | none ↦ none
    | some q ↦ unions fuel pairs q
  ]
