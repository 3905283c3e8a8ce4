-- ===== src/Dedup/UnionFind/Closure.antt =====
-- After any sequence of unions, `find` decides the equivalence that the united pairs generate.
use mathlib.Core.Path.{subst}
use analysis_srv.Prelude.{
  ℕ, ◌<◌, ◌≡◌, ◌↔◌, refl, sym, ap, ◌∙◌, true, some, List, [], ◌∷◌, arith, inl, inr, length, count,
  All, count-le-length,
}
use analysis_srv.Prelude.Dict.{Dict, get}
use analysis_srv.Prelude.Eq.{Key, ◌==◌, ==_iff}
use analysis_srv.Dedup.UnionFind.{singletons_onto, singletons, parent_or_self, find, unions}
use analysis_srv.Dedup.UnionFind.Roots.{find-Finds, parent_or_self-set}
use analysis_srv.Dedup.UnionFind.Links.{
  Has, Linked, paired, itself, back, chained, is_in, IsForest, AreInside, unions-United,
}

module _ {K : Type 0} ⦃key : Key K⦄ where
  singletons_onto_lem :
      (items : List K) (p : Dict K K) (k : K)
      → parent_or_self k p ≡ k
      → parent_or_self k (singletons_onto p items) ≡ k
  unfolding singletons_onto
  singletons_onto_lem [] p k h = h
  singletons_onto_lem (item ∷ items) p k h =
      singletons_onto_lem items _ k
        (ground (arith, parent_or_self-set item item k p, ==_iff item k))

  singletons_lem : (items : List K) (k : K) → parent_or_self k (singletons items) ≡ k
  unfolding singletons parent_or_self get
  singletons_lem items k = singletons_onto_lem items [] k refl

  count-is_in : (items : List K) (k : K) → is_in items k ≡ true → 0 < count (λ j. j == k) items
  count-is_in [] k h = cc
  count-is_in (j ∷ items) k h = ground (arith, count-is_in items k)

  singletons-IsForest :
      (items : List K) (pairs : List (K × K))
      → IsForest items pairs (singletons items) (λ k. k) (λ k. 0)
  singletons-IsForest items pairs = record {
    stands = record {
      along = singletons_lem items;
      root = λ k h. refl;
      falls = λ k h. absurd (h (singletons_lem items k));
    };
    low = count-is_in items;
    links = λ k. itself;
  }

  same_of_Has :
      (rep : K → K) (pairs : List (K × K)) (a b : K)
      → All (λ pair. rep pair.0 ≡ rep pair.1) pairs
      → Has pairs a b
      → rep a ≡ rep b
  same_of_Has rep [] a b same h = absurd h
  same_of_Has rep ((x, y) ∷ pairs) a b same (inl (ex, ey)) = cc (ap rep ex, ap rep ey, same.0)
  same_of_Has rep ((x, y) ∷ pairs) a b same (inr h) = same_of_Has rep pairs a b same.1 h

  same_of_Linked :
      (rep : K → K) (pairs : List (K × K)) {a b : K}
      → All (λ pair. rep pair.0 ≡ rep pair.1) pairs
      → Linked pairs a b
      → rep a ≡ rep b
  same_of_Linked rep pairs {a} {b} same (paired h) = same_of_Has rep pairs a b same h
  same_of_Linked rep pairs same itself = refl
  same_of_Linked rep pairs same (back l) = sym (same_of_Linked rep pairs same l)
  same_of_Linked rep pairs same (chained l m) =
      same_of_Linked rep pairs same l ∙ same_of_Linked rep pairs same m

  Has-self :
      (pairs todo : List (K × K))
      → ((a b : K) → Has todo a b → Has pairs a b)
      → All (λ pair. Has pairs pair.0 pair.1) todo
  Has-self pairs [] inc = tt
  Has-self pairs ((x, y) ∷ todo) inc =
      (inc x y (inl (refl, refl)), Has-self pairs todo (λ a b h. inc a b (inr h)))

  -- The forest after the unions, whose roots are equal exactly for linked items.
  pub unions-closure :
      (items : List K) (pairs : List (K × K))
      → AreInside items pairs pairs
      → (q : Dict K K) × (rep : K → K) × (height : K → ℕ) × (unions
            (length items)
            pairs
            (singletons items)
          ≡ some q)
        × IsForest items pairs q rep height
        × ((j k : K) → (rep j ≡ rep k) ↔ Linked pairs j k)
  unions-closure items pairs inside =
      let (q, rep, height, done, f, same, keep) =
        unions-United items pairs pairs (singletons items) (λ k. k) (λ k. 0)
          (singletons-IsForest items pairs) inside (Has-self pairs pairs (λ a b h. h)) in
      (
        q,
        rep,
        height,
        done,
        f,
        λ j k. (
          λ e. chained (f.links j) (subst (λ c. Linked pairs c k) (sym e) (back (f.links k))),
          same_of_Linked rep pairs same,
        ),
      )

  -- Fuel for as many steps as there are items is enough for every union and for two calls of `find` after
  -- them; and the two roots are equal exactly if a chain of united pairs links the two items.
  pub find_decides :
      (items : List K) (pairs : List (K × K)) (j k : K)
      → AreInside items pairs pairs
      → is_in items j ≡ true
      → is_in items k ≡ true
      → (p q r : Dict K K) × (root_j root_k : K) × (unions (length items) pairs (singletons items)
          ≡ some p)
        × (find (length items) j p ≡ some (root_j, q))
        × (find (length items) k q ≡ some (root_k, r))
        × ((root_j ≡ root_k) ↔ Linked pairs j k)
  find_decides items pairs j k inside in_j in_k =
      let (p, rep, height, done, f, closure) = unions-closure items pairs inside in
      let (q, found_j, stands_q, top_j, bound_j) =
        find-Finds rep height (length items) j p f.stands
          (omega (arith, f.low j in_j, count-le-length (λ i. rep i == rep j) items)) in
      let (r, found_k, stands_r, top_k, bound_k) =
        find-Finds rep height (length items) k q stands_q
          (omega (arith, f.low k in_k, count-le-length (λ i. rep i == rep k) items)) in
      (p, q, r, rep j, rep k, done, found_j, found_k, closure j k)
