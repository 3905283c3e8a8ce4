-- ===== src/Dedup/UnionFind/Roots.antt =====
-- What a forest of parents stands for: a root for each item. `find` returns it, within a bounded
-- number of steps, and compression leaves it as it is.
use mathlib.Core.Path.{subst}
use analysis_srv.Prelude.{
  ℕ, zero, suc, ◌≤◌, ◌<◌, ◌≡◌, ◌≢◌, sym, ap, ◌∙◌, Option, some, arith, Bool-cases, inl, inr,
  if◌then◌else◌,
}
use analysis_srv.Prelude.Dict.{Dict, set}
use analysis_srv.Prelude.Dict.Laws.{get-set}
use analysis_srv.Prelude.Eq.{Key, ◌==◌, ==_iff}
use analysis_srv.Dedup.UnionFind.{parent_or_self, with_default, find}

module _ {K : Type 0} ⦃key : Key K⦄ where
  -- `rep` gives each item's root, and `height` falls on the way to it.
  pub record Represents (p : Dict K K) (rep : K → K) (height : K → ℕ) : Type 0 where
    pub along : (k : K) → rep (parent_or_self k p) ≡ rep k
    pub root : (k : K) → parent_or_self k p ≡ k → rep k ≡ k
    pub falls : (k : K) → parent_or_self k p ≢ k → height (parent_or_self k p) < height k

  pub parent_or_self-set :
      (item root k : K) (p : Dict K K)
      → parent_or_self k (set item root p) ≡ (if item == k then root else parent_or_self k p)
  unfolding parent_or_self
  parent_or_self-set item root k p = ground (arith, get-set item k root p)

  parent_or_self-with_default :
      (item k : K) (p : Dict K K) → parent_or_self k (with_default item p) ≡ parent_or_self k p
  unfolding parent_or_self with_default
  parent_or_self-with_default item k p = ground (arith, get-set item k item p, ==_iff item k)

  module _ (rep : K → K) (height : K → ℕ) where
    with_default-Represents :
        (item : K) (p : Dict K K)
        → Represents p rep height
        → Represents (with_default item p) rep height
    with_default-Represents item p r = record {
      along = λ k. rw (parent_or_self-with_default item k p) (r.along k);
      root = λ k h. r.root k (sym (parent_or_self-with_default item k p) ∙ h);
      falls = λ k h.
          rw (parent_or_self-with_default item k p)
            (r.falls k (λ e. h (parent_or_self-with_default item k p ∙ e)));
    }

    -- An edge to a root of the same item that is not higher.
    set-Represents :
        (item target : K) (p : Dict K K)
        → Represents p rep height
        → rep target ≡ rep item
        → (target ≡ item → rep item ≡ item)
        → (target ≢ item → height target < height item)
        → Represents (set item target p) rep height
    set-Represents item target p r same own lower = record {
      along = λ k. elim (Bool-cases (item == k)) [
        | inl e ↦ rw (parent_or_self-set item target k p, e) (same ∙ ap rep ((==_iff item k).0 e))
        | inr e ↦ rw (parent_or_self-set item target k p, e) (r.along k)
      ];
      root = λ k h. elim (Bool-cases (item == k)) [
        | inl e ↦
            let own_k : target ≡ k = rw (parent_or_self-set item target k p, e) at h in
            let same_item = (==_iff item k).0 e in
            ap rep (sym same_item) ∙ own (own_k ∙ sym same_item) ∙ same_item
        | inr e ↦ r.root k (rw (parent_or_self-set item target k p, e) at h)
      ];
      falls = λ k h. elim (Bool-cases (item == k)) [
        | inl e ↦
            rw (parent_or_self-set item target k p, e)
              (subst (λ x. height target < height x) ((==_iff item k).0 e)
                (lower
                  (λ t. h (rw (parent_or_self-set item target k p, e) (t ∙ (==_iff item k).0 e)))))
        | inr e ↦
            rw (parent_or_self-set item target k p, e)
              (r.falls k (λ t. h (rw (parent_or_self-set item target k p, e) t)))
      ];
    }

    -- What `find` did: it returned the root, which is its own root and no higher, and the forest
    -- stands for the same.
    abbrev pub Finds : K → Option (K × Dict K K) → Type 0
    Finds item r =
        (q : Dict K K) × (r ≡ some (rep item, q))
        × Represents q rep height
        × (rep (rep item) ≡ rep item)
        × (height (rep item) ≤ height item)

    pub find-Finds :
        (fuel : ℕ) (item : K) (p : Dict K K)
        → Represents p rep height
        → height item < fuel
        → Finds item (find fuel item p)
    unfolding find
    find-Finds zero item p r small = absurd (omega arith)
    find-Finds (suc fuel) item p r small = elim (Bool-cases (parent_or_self item p == item)) [
      | inl e ↦
          let own = r.root item ((==_iff (parent_or_self item p) item).0 e) in
          rw (find, e)
            (
              with_default item p,
              ap (λ x. some (x, with_default item p)) (sym own),
              with_default-Represents item p r,
              ap rep own,
              rw own (omega arith),
            )
      | inr e ↦
          let lower = r.falls item (λ t. cc ((==_iff (parent_or_self item p) item).1 t)) in
          let (q, found, rq, top, bound) =
            find-Finds fuel (parent_or_self item p) (with_default item p)
              (with_default-Represents item p r) (omega (arith, lower, small)) in
          let same = r.along item in
          let target = rep (parent_or_self item p) in
          let top_item : rep (rep item) ≡ rep item = ap rep (sym same) ∙ top ∙ same in
          let lower_target : height target < height item = omega (arith, lower, bound) in
          rw (find, e, found)
            (
              set item target q,
              ap (λ x. some (x, set item target q)) same,
              set-Represents item target q rq (top ∙ same) (λ t. sym same ∙ t) (λ t. lower_target),
              top_item,
              subst (λ x. height x ≤ height item) same (omega (arith, lower_target)),
            )
    ]
