-- ===== src/Prelude/Dict/Entries.antt =====
-- The entries of a `dict` that is built by pushing: one for each key, with what is found under it.
use Prim.Native.Nat.{◌≤◌}
use mathlib.Core.Path.{◌≡◌, refl, ◌∙◌}
use mathlib.Core.Bool.{false}
use mathlib.Core.List.{List, [], ◌∷◌}
use native.Mathlib.Omega.{arith}
use analysis_srv.Prelude.Tests.{if◌then◌else◌, nat_eq}
use analysis_srv.Prelude.Lists.{count, All}
use analysis_srv.Prelude.Eq.{Key, ◌==◌, ==_iff}
use analysis_srv.Prelude.Dict.{Dict, get, keys, push_at, items_at}

module _ {K A : Type 0} ⦃key : Key K⦄ where
  -- No key stands twice.
  abbrev pub HasOneEach : Dict K (List A) → Type 0
  HasOneEach d = (k : K) → count (λ j. j == k) (keys d) ≤ 1

  count-push_at :
      (j k : K) (x : A) (d : Dict K (List A))
      → count (λ i. i == k) (keys (push_at j x d)) ≡ (
          if j == k
          then if nat_eq (count (λ i. i == k) (keys d)) 0 then 1 else count (λ i. i == k) (keys d)
          else count (λ i. i == k) (keys d))
  unfolding push_at
  count-push_at j k x [] = ground arith
  count-push_at j k x ((i, xs) ∷ d) =
      ground (arith, ==_iff i j, ==_iff i k, ==_iff j k, count-push_at j k x d)

  pub push_at-HasOneEach :
      (j : K) (x : A) (d : Dict K (List A)) → HasOneEach d → HasOneEach (push_at j x d)
  push_at-HasOneEach j x d h k = ground (arith, h k, count-push_at j k x d)

  abbrev Missing : K → Dict K (List A) → Type 0
  Missing j = All (λ e. (j == e.0) ≡ false)

  none-Missing : (j : K) (d : Dict K (List A)) → count (λ i. i == j) (keys d) ≡ 0 → Missing j d
  none-Missing j [] h = tt
  none-Missing j ((i, xs) ∷ d) h =
      (ground (arith, ==_iff i j, ==_iff j i), none-Missing j d (ground arith))

  items_at-cons :
      (j k : K) (ys : List A) (d : Dict K (List A))
      → items_at k ((j, ys) ∷ d) ≡ (if j == k then ys else items_at k d)
  unfolding get
  items_at-cons j k ys d = ground arith

  weaken-entries :
      (j : K) (ys : List A) (d es : Dict K (List A))
      → Missing j es
      → All (λ e. items_at e.0 d ≡ e.1) es
      → All (λ e. items_at e.0 ((j, ys) ∷ d) ≡ e.1) es
  unfolding get
  weaken-entries j ys d [] m h = tt
  weaken-entries j ys d (e ∷ es) m h =
      (items_at-cons j e.0 ys d ∙ rw m.0 h.0, weaken-entries j ys d es m.1 h.1)

  -- Each entry holds what is found under its key.
  pub entries_lem : (d : Dict K (List A)) → HasOneEach d → All (λ e. items_at e.0 d ≡ e.1) d
  unfolding get
  entries_lem [] h = tt
  entries_lem ((j, ys) ∷ d) h = (
    items_at-cons j j ys d ∙ rw ((==_iff j j).1 refl) refl,
    weaken-entries j ys d d (none-Missing j d (ground (arith, h j, (==_iff j j).1 refl)))
        (entries_lem d (λ k. ground (arith, h k))),
  )
