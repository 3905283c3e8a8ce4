-- ===== src/Dedup/UnionFind/Links.antt =====
-- Unions in any order give the least equivalence that holds the united pairs.
use mathlib.Core.Path.{subst}
use analysis_srv.Prelude.{
  ℕ, ◌+◌, ◌≤◌, ◌<◌, ◌≡◌, ◌⊎◌, refl, sym, ◌∙◌, Bool, true, false, Option, some, List, [], ◌∷◌, arith,
  Bool-cases, inl, inr, length, count, any, All, count-le-length, if◌then◌else◌,
}
use analysis_srv.Prelude.Dict.{Dict, set}
use analysis_srv.Prelude.Eq.{Key, ◌==◌, ==_iff}
use analysis_srv.Dedup.UnionFind.{join_roots, union, unions}
use analysis_srv.Dedup.UnionFind.Roots.{Represents, find-Finds, parent_or_self-set}

module _ {K : Type 0} ⦃key : Key K⦄ where
  -- The pair stands in the list.
  abbrev pub Has : List (K × K) → K → K → Type 0
  Has [] a b = ⊥
  Has ((x, y) ∷ pairs) a b = ((x ≡ a) × (y ≡ b)) ⊎ Has pairs a b

  -- The least equivalence that holds the pairs.
  pub data Linked (pairs : List (K × K)) : K → K → Type 0 where
    paired : {a b : K} → Has pairs a b → Linked pairs a b
    itself : {a : K} → Linked pairs a a
    back : {a b : K} → Linked pairs a b → Linked pairs b a
    chained : {a b c : K} → Linked pairs a b → Linked pairs b c → Linked pairs a c

  abbrev pub is_in : List K → K → Bool
  is_in items k = any (λ j. j == k) items

  pub ==_refl : (k : K) → (k == k) ≡ true
  ==_refl k = (==_iff k k).1 refl

  apart_sym : (a b : K) → (a == b) ≡ false → (b == a) ≡ false
  apart_sym a b h = elim (Bool-cases (b == a)) [
    | inl e ↦ cc ((==_iff a b).1 (sym ((==_iff b a).0 e)), h)
    | inr e ↦ e
  ]

  module _ (lr rr : K) (rep : K → K) (height : K → ℕ) (extra : ℕ) where
    -- The roots and the heights once the root `rr` hangs under `lr`.
    abbrev joined_rep : K → K
    joined_rep k = if rep k == rr then lr else rep k

    abbrev joined_height : K → ℕ
    joined_height k = if rep k == rr then height k + extra + 1 else height k

    set-joined :
        (p : Dict K K)
        → Represents p rep height
        → rep lr ≡ lr
        → rep rr ≡ rr
        → (lr == rr) ≡ false
        → height lr ≤ extra
        → Represents (set rr lr p) joined_rep joined_height
    set-joined p r top_l top_r apart low = record {
      along = λ k. elim (Bool-cases (rr == k)) [
        | inl e ↦
            rw (parent_or_self-set rr lr k p, e)
              (subst (λ x. joined_rep lr ≡ joined_rep x) ((==_iff rr k).0 e)
                (rw (top_l, apart, top_r, ==_refl rr) refl))
        | inr e ↦ rw (parent_or_self-set rr lr k p, e, r.along k) refl
      ];
      root = λ k h. elim (Bool-cases (rr == k)) [
        | inl e ↦
            let same : lr ≡ rr =
              rw (parent_or_self-set rr lr k p, e) at h ∙ sym ((==_iff rr k).0 e) in
            cc (sym ((==_iff lr rr).1 same) ∙ apart)
        | inr e ↦
            let own = r.root k (rw (parent_or_self-set rr lr k p, e) at h) in
            rw (own, apart_sym rr k e) refl
      ];
      falls = λ k h. elim (Bool-cases (rr == k)) [
        | inl e ↦
            rw (parent_or_self-set rr lr k p, e)
              (subst (λ x. joined_height lr < joined_height x) ((==_iff rr k).0 e)
                (rw (top_l, apart, top_r, ==_refl rr) (omega (arith, low))))
        | inr e ↦
            let lower = r.falls k (λ t. h (rw (parent_or_self-set rr lr k p, e) t)) in
            rw (parent_or_self-set rr lr k p, e, r.along k)
              (elim (Bool-cases (rep k == rr)) [
                | inl u ↦ rw u (omega (arith, lower))
                | inr u ↦ rw u lower
              ])
      ];
    }

    exclusive : (x y c : K) → (x == y) ≡ false → (c == y) ≡ true → (c == x) ≡ false
    exclusive x y c h e = elim (Bool-cases (c == x)) [
      | inl f ↦ cc ((==_iff x y).1 (sym ((==_iff c x).0 f) ∙ (==_iff c y).0 e), h)
      | inr f ↦ f
    ]

    -- The joined class is as large as both were.
    count-joined :
        (items : List K)
        → (lr == rr) ≡ false
        → count (λ j. joined_rep j == lr) items
          ≡ count (λ j. rep j == lr) items + count (λ j. rep j == rr) items
    count-joined [] apart = refl
    count-joined (j ∷ items) apart = elim (Bool-cases (rep j == rr)) [
      | inl e ↦
          rw (e, exclusive lr rr (rep j) apart e, ==_refl lr)
            (omega (arith, count-joined items apart))
      | inr e ↦ rw e (omega (arith, count-joined items apart))
    ]

    -- Another class is as large as it was.
    count-other :
        (c : K) (items : List K)
        → (c == rr) ≡ false
        → count (λ j. rep j == c) items ≤ count (λ j. joined_rep j == c) items
    count-other c [] apart = omega arith
    count-other c (j ∷ items) apart = elim (Bool-cases (rep j == rr)) [
      | inl e ↦ rw (e, exclusive c rr (rep j) apart e) (omega (arith, count-other c items apart))
      | inr e ↦ rw e (omega (arith, count-other c items apart))
    ]

  -- The forest stands for the roots `rep`; the heights of the items are below the sizes of their
  -- classes; and each item is linked to its root.
  pub record IsForest (items : List K) (pairs : List (K × K)) (p : Dict K K) (rep : K → K)
      (height : K → ℕ) : Type 0 where
    pub stands : Represents p rep height
    pub low : (k : K) → is_in items k ≡ true → height k < count (λ j. rep j == rep k) items
    pub links : (k : K) → Linked pairs k (rep k)

  abbrev pub United :
      List K → List (K × K) → (K → K) → Option (Dict K K) → ((K → K) → Type 0) → Type 0
  United items pairs rep r P =
      (q : Dict K K) × (rep' : K → K) × (height' : K → ℕ) × (r ≡ some q)
      × IsForest items pairs q rep' height'
      × P rep'
      × ((a b : K) → rep a ≡ rep b → rep' a ≡ rep' b)

  module _ (items : List K) (pairs : List (K × K)) where
    join_roots-United :
        (p : Dict K K) (rep : K → K) (height : K → ℕ) (left right : K)
        → IsForest items pairs p rep height
        → is_in items left ≡ true
        → Has pairs left right
        → rep (rep left) ≡ rep left
        → rep (rep right) ≡ rep right
        → height (rep left) ≤ height left
        → United items pairs rep
            (some (join_roots (rep left) (rep right) p))
            (λ rep'. rep' left ≡ rep' right)
    unfolding join_roots
    join_roots-United p rep height left right f inside given top_l top_r bound =
        elim (Bool-cases (rep left == rep right)) [
          | inl e ↦ (
            p,
            rep,
            height,
            rw (join_roots, e) refl,
            f,
            (==_iff (rep left) (rep right)).0 e,
            λ a b h. h,
          )
          | inr apart ↦
              let rep' : K → K = joined_rep (rep left) (rep right) rep height (height left) in
              let height' : K → ℕ = joined_height (rep left) (rep right) rep height (height left) in
              (
                set (rep right) (rep left) p,
                rep',
                height',
                rw (join_roots, apart) refl,
                record {
                  stands =
                      set-joined (rep left) (rep right) rep height (height left) p f.stands top_l
                        top_r apart bound;
                  low = λ k h. elim (Bool-cases (rep k == rep right)) [
                    | inl e ↦
                        let same_root = (==_iff (rep k) (rep right)).0 e in
                        let low_k =
                          subst (λ c. height k < count (λ j. rep j == c) items) same_root
                            (f.low k h) in
                        rw e (
                          omega (
                            arith,
                            count-joined (rep left) (rep right) rep height (height left) items
                                apart,
                            low_k,
                            f.low left inside,
                          ))
                    | inr e ↦ rw e (
                        omega (
                          arith,
                          f.low k h,
                          count-other (rep left) (rep right) rep height (height left) (rep k) items
                              e,
                        ))
                  ];
                  links = λ k. elim (Bool-cases (rep k == rep right)) [
                    | inl e ↦
                        let to_right =
                          subst (λ c. Linked pairs k c) ((==_iff (rep k) (rep right)).0 e)
                            (f.links k) in
                        rw e (
                          chained to_right (
                            chained (back (f.links right))
                              (chained (back (paired given)) (f.links left))))
                    | inr e ↦ rw e (f.links k)
                  ];
                },
                rw (apart, ==_refl (rep right)) refl,
                λ a b h. rw h refl,
              )
        ]

    union-United :
        (p : Dict K K) (rep : K → K) (height : K → ℕ) (left right : K)
        → IsForest items pairs p rep height
        → is_in items left ≡ true
        → is_in items right ≡ true
        → Has pairs left right
        → United items pairs rep
            (union (length items) left right p)
            (λ rep'. rep' left ≡ rep' right)
    unfolding union
    union-United p rep height left right f in_left in_right given =
        let (q, found_left, stands_q, top_l, bound) =
          find-Finds rep height (length items) left p f.stands
            (omega (arith, f.low left in_left, count-le-length (λ j. rep j == rep left) items)) in
        let (r, found_right, stands_r, top_r, bound_r) =
          find-Finds rep height (length items) right q stands_q (
            omega (arith, f.low right in_right, count-le-length (λ j. rep j == rep right) items)) in
        rw (union, found_left, found_right)
          (join_roots-United r rep height left right
            (record { stands = stands_r; low = f.low; links = f.links }) in_left given top_l top_r
            bound)

    abbrev pub AreInside : List (K × K) → Type 0
    AreInside = All (λ pair. (is_in items pair.0 ≡ true) × (is_in items pair.1 ≡ true))

    pub unions-United :
        (todo : List (K × K)) (p : Dict K K) (rep : K → K) (height : K → ℕ)
        → IsForest items pairs p rep height
        → AreInside todo
        → All (λ pair. Has pairs pair.0 pair.1) todo
        → United items pairs rep
            (unions (length items) todo p)
            (λ rep'. All (λ pair. rep' pair.0 ≡ rep' pair.1) todo)
    unfolding unions
    unions-United [] p rep height f inside given = (p, rep, height, refl, f, tt, λ a b h. h)
    unions-United ((left, right) ∷ todo) p rep height f (in_pair, inside) (has, given) =
        let (q, rep', height', done, g, same, keep) =
          union-United p rep height left right f in_pair.0 in_pair.1 has in
        let (r, rep'', height'', done', g', rest, keep') =
          unions-United todo q rep' height' g inside given in
        rw (unions, done)
          (
            r,
            rep'',
            height'',
            done',
            g',
            (keep' left right same, rest),
            λ a b h. keep' a b (keep a b h),
          )
