-- ===== src/Dedup/Pairs.antt =====
-- The pairs of a list: what they keep, and that every two items stand in one.
use mathlib.Core.Path.{subst}
use analysis_srv.Prelude.{
  ◌≡◌, ◌⊎◌, inl, inr, refl, sym, Bool, true, false, List, [], ◌∷◌, ◌++◌, map, All, All-append,
  filter, Bool-cases,
}
use analysis_srv.Prelude.Eq.{Key, ◌==◌, ==_iff}
use analysis_srv.Dedup.{pairs_of}
use analysis_srv.Dedup.UnionFind.Links.{Has, is_in}

module _ {A : Type 0} (P : A → Type 0) where
  abbrev pub Both : A × A → Type 0
  Both pair = P pair.0 × P pair.1

  pairs_with : (x : A) (ys : List A) → P x → All P ys → All Both (map (λ y. (x, y)) ys)
  pairs_with x [] p h = tt
  pairs_with x (y ∷ ys) p h = ((p, h.0), pairs_with x ys p h.1)

  pub pairs_of-All : (xs : List A) → All P xs → All Both (pairs_of xs)
  unfolding pairs_of
  pairs_of-All [] h = tt
  pairs_of-All (x ∷ xs) h =
      All-append Both (map (λ y. (x, y)) xs) (pairs_of xs) (pairs_with x xs h.0 h.1)
        (pairs_of-All xs h.1)

module _ {K : Type 0} ⦃key : Key K⦄ where
  pub Has-append_left : (ps qs : List (K × K)) (a b : K) → Has ps a b → Has (ps ++ qs) a b
  Has-append_left [] qs a b h = absurd h
  Has-append_left (p ∷ ps) qs a b (inl h) = inl h
  Has-append_left (p ∷ ps) qs a b (inr h) = inr (Has-append_left ps qs a b h)

  pub Has-append_right : (ps qs : List (K × K)) (a b : K) → Has qs a b → Has (ps ++ qs) a b
  Has-append_right [] qs a b h = h
  Has-append_right (p ∷ ps) qs a b h = inr (Has-append_right ps qs a b h)

  pub Has-filter :
      (t : K × K → Bool) (ps : List (K × K)) (a b : K)
      → Has ps a b
      → t (a, b) ≡ true
      → Has (filter t ps) a b
  Has-filter t [] a b h e = h
  Has-filter t ((x, y) ∷ ps) a b (inl (ex, ey)) e =
      let u : t (x, y) ≡ true = rw (ex, ey) e in rw u (inl (ex, ey))
  Has-filter t ((x, y) ∷ ps) a b (inr h) e = elim (Bool-cases (t (x, y))) [
    | inl u ↦ rw u (inr (Has-filter t ps a b h e))
    | inr u ↦ rw u (Has-filter t ps a b h e)
  ]

  Has-pairs_with : (x b : K) (ys : List K) → is_in ys b ≡ true → Has (map (λ y. (x, y)) ys) x b
  Has-pairs_with x b [] h = cc
  Has-pairs_with x b (y ∷ ys) h = elim (Bool-cases (y == b)) [
    | inl e ↦ inl (refl, (==_iff y b).0 e)
    | inr e ↦ inr (Has-pairs_with x b ys (rw e at h))
  ]

  -- Equal, or in a pair in one order or the other.
  abbrev pub Meets : List (K × K) → K → K → Type 0
  Meets ps a b = (a ≡ b) ⊎ (Has ps a b ⊎ Has ps b a)

  met_forward : (ps : List (K × K)) (a b : K) → Has ps a b → Meets ps a b
  met_forward ps a b h = inr (inl h)

  met_swap : (ps : List (K × K)) (a b : K) → Meets ps a b → Meets ps b a
  met_swap ps a b (inl e) = inl (sym e)
  met_swap ps a b (inr (inl h)) = inr (inr h)
  met_swap ps a b (inr (inr h)) = inr (inl h)

  met_later : (qs ps : List (K × K)) (a b : K) → Meets ps a b → Meets (qs ++ ps) a b
  met_later qs ps a b (inl e) = inl e
  met_later qs ps a b (inr (inl h)) = inr (inl (Has-append_right qs ps a b h))
  met_later qs ps a b (inr (inr h)) = inr (inr (Has-append_right qs ps b a h))

  -- The first item is equal to, or in a pair with, each item.
  met_first :
      (x a b : K) (xs : List K)
      → (x == a) ≡ true
      → is_in (x ∷ xs) b ≡ true
      → Meets (map (λ y. (x, y)) xs ++ pairs_of xs) a b
  met_first x a b xs ea hb =
      subst (λ c. Meets (map (λ y. (x, y)) xs ++ pairs_of xs) c b) ((==_iff x a).0 ea)
        (met_from x b xs (Bool-cases (x == b)) hb)
    where
      met_from :
          (x b : K) (xs : List K)
          → (((x == b) ≡ true) ⊎ ((x == b) ≡ false))
          → is_in (x ∷ xs) b ≡ true
          → Meets (map (λ y. (x, y)) xs ++ pairs_of xs) x b
      met_from x b xs (inl e) hb = inl ((==_iff x b).0 e)
      met_from x b xs (inr e) hb = met_forward (map (λ y. (x, y)) xs ++ pairs_of xs) x b (
          Has-append_left (map (λ y. (x, y)) xs) (pairs_of xs) x b
            (Has-pairs_with x b xs (rw e at hb)))

  -- Two items of a list are equal or stand in a pair, in one order or the other.
  pub pairs_of-Has :
      (xs : List K) (a b : K) → is_in xs a ≡ true → is_in xs b ≡ true → Meets (pairs_of xs) a b
  unfolding pairs_of
  pairs_of-Has [] a b ha hb = cc
  pairs_of-Has (x ∷ xs) a b ha hb = elim (Bool-cases (x == a)) [
    | inl ea ↦ met_first x a b xs ea hb
    | inr na ↦ elim (Bool-cases (x == b)) [
      | inl eb ↦ met_swap (map (λ y. (x, y)) xs ++ pairs_of xs) b a (met_first x b a xs eb ha)
      | inr nb ↦
          met_later (map (λ y. (x, y)) xs) (pairs_of xs) a b
            (pairs_of-Has xs a b (rw na at ha) (rw nb at hb))
    ]
  ]
