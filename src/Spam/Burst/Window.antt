-- ===== src/Spam/Burst/Window.antt =====
-- The two pointers find what a count over all pairs finds.
use mathlib.Core.Path.{subst}
use Prim.Native.Nat.{max}
use analysis_srv.Prelude.{
  ℕ, ◌+◌, ◌-◌, ◌≤◌, ◌≡◌, refl, sym, Bool, true, false, List, [], ◌∷◌, ◌++◌, arith, Bool-cases, inl,
  inr, length, count, count-append, length-append, All, append_assoc, ltb, leb,
}
use analysis_srv.Prelude.Sort.{sort_by, sort_by-IsSorted, IsSorted}
use analysis_srv.Spam.Burst.{catch_up, scan, best_burst}

-- The time is not further than the window before `current`.
abbrev pub within : ℕ → ℕ → ℕ → Bool
within window current time = leb (current - time) window

-- For each time, the number of the times up to it that are within the window before it; the largest.
abbrev pub counted_from : ℕ → ℕ → List ℕ → List ℕ → ℕ
counted_from window best before [] = best
counted_from window best before (current ∷ later) =
    counted_from window (max best (count (within window current) (before ++ current ∷ [])))
      (before ++ current ∷ []) later

IsSorted-later : (xs ys : List ℕ) → IsSorted leb (xs ++ ys) → IsSorted leb ys
IsSorted-later [] ys h = h
IsSorted-later (x ∷ xs) ys h = IsSorted-later xs ys h.1

count-within :
    (window current time : ℕ) (times : List ℕ)
    → ltb window (current - time) ≡ false
    → All (λ u. leb time u ≡ true) times
    → count (within window current) times ≡ length times
count-within window current time [] h a = refl
count-within window current time (u ∷ times) h a =
    ground (arith, count-within window current time times h a.1)

All-prefix : (P : ℕ → Type 0) (xs ys : List ℕ) → All P (xs ++ ys) → All P xs
All-prefix P [] ys h = tt
All-prefix P (x ∷ xs) ys h = (h.0, All-prefix P xs ys h.1)

module _ (window : ℕ) where
  -- What is left after the `while` loop: only times within the window; none that a later window has is
  -- lost.
  abbrev Caught : List ℕ → ℕ → ℕ → List ℕ → ℕ × List ℕ → Type 0
  Caught later current left kept r =
      (kept' : List ℕ) × (left' : ℕ) × (r ≡ (left', kept' ++ current ∷ later))
      × (left' + length kept' ≡ left + length kept)
      × IsSorted leb (kept' ++ current ∷ later)
      × (count (within window current) kept' ≡ length kept')
      × ((d : ℕ) → current ≤ d → count (within window d) kept ≡ count (within window d) kept')

  catch_up-Caught :
      (later : List ℕ) (current left : ℕ) (kept : List ℕ)
      → IsSorted leb (kept ++ current ∷ later)
      → Caught later current left kept (catch_up window current left (kept ++ current ∷ later))
  unfolding catch_up
  catch_up-Caught later current left [] s =
      let stays : ltb window (current - current) ≡ false = ground arith in
      rw (catch_up, stays) ([], left, refl, refl, s, refl, λ d h. refl)
  catch_up-Caught later current left (time ∷ kept) s =
      elim (Bool-cases (ltb window (current - time))) [
        | inl e ↦
            let (kept', left', caught, sum, sorted, all, same) =
              catch_up-Caught later current (left + 1) kept s.1 in
            rw (catch_up, e, caught)
              (kept', left', refl, omega (arith, sum), sorted, all, λ d h. ground (arith, same d h))
        | inr e ↦
            rw (catch_up, e)
              (
                time ∷ kept,
                left,
                refl,
                refl,
                s,
                ground (
                  arith,
                  count-within window current time kept e
                      (All-prefix (λ u. leb time u ≡ true) kept (current ∷ later) s.0),
                ),
                λ d h. refl,
              )
      ]

  within_itself : (current : ℕ) → count (within window current) (current ∷ []) ≡ 1
  within_itself current = ground arith

  none_below : (times : List ℕ) → All (λ u. leb 0 u ≡ true) times
  none_below [] = tt
  none_below (u ∷ times) = (ground arith, none_below times)

  scan-counted :
      (before kept : List ℕ) (left best lower : ℕ) (later : List ℕ)
      → left + length kept ≡ length before
      → IsSorted leb (kept ++ later)
      → All (λ u. leb lower u ≡ true) later
      → ((d : ℕ) → lower ≤ d → count (within window d) before ≡ count (within window d) kept)
      → scan window left (kept ++ later) best (length before) later
        ≡ counted_from window best before later
  unfolding scan
  scan-counted before kept left best lower [] sum s low same = refl
  scan-counted before kept left best lower (current ∷ later) sum s low same =
      let (kept', left', caught, sum', sorted, all, same') =
        catch_up-Caught later current left kept s in
      let low_d : (d : ℕ) → current ≤ d → lower ≤ d = λ d h. ground (arith, low.0) in
      let more : List ℕ → List ℕ = λ ts. ts ++ current ∷ [] in
      let value : length before - left' + 1 ≡ count (within window current) (more before) = omega (
        arith,
        count-append (within window current) before (current ∷ []),
        same current (low_d current (omega arith)),
        same' current (omega arith),
        all,
        sum,
        sum',
        within_itself current,
      ) in
      let rest =
        scan-counted (more before) (more kept') left'
          (max best (count (within window current) (more before))) current later
          (omega (
            arith,
            sum,
            sum',
            length-append before (current ∷ []),
            length-append kept' (current ∷ []),
          ))
          (subst (IsSorted leb) (sym (append_assoc kept' (current ∷ []) later)) sorted)
          (IsSorted-later kept' (current ∷ later) sorted).0
          (λ d h. omega (
            arith,
            count-append (within window d) before (current ∷ []),
            count-append (within window d) kept' (current ∷ []),
            same d (low_d d h),
            same' d h,
          )) in
      rw (scan, caught, value)
        (rw (append_assoc kept' (current ∷ []) later, length-append before (current ∷ [])) at rest)

  -- The two pointers find, over the sorted times, the largest count of times within the window before
  -- one of them.
  pub best_burst-counted :
      (posted : List ℕ)
      → best_burst window (sort_by leb posted) ≡ counted_from window 1 [] (sort_by leb posted)
  unfolding best_burst
  best_burst-counted posted =
      scan-counted [] [] 0 1 0 (sort_by leb posted) refl
        (sort_by-IsSorted leb (λ a b. ground arith) (λ a b c h k. ground arith) posted)
        (none_below (sort_by leb posted)) (λ d h. refl)
