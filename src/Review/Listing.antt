-- ===== src/Review/Listing.antt =====
-- What the in-memory repository lists and counts for a project.
use analysis_srv.Prelude.{
  ℕ, String, ◌≡◌, ◌+◌, true, List, [], ◌∷◌, ◌⊎◌, arith, zero, suc, count, filter, take, length,
  length-take, length-filter, filter-All, take-All, All, refl,
}
use Prim.Native.Nat.{min}
use analysis_srv.Prelude.Eq.{text_key}
use analysis_srv.Prelude.Dict.{Dict, values}
use analysis_srv.Prelude.Sort.{sort_by, IsSorted, sort_by-IsSorted, sort_by-All, length-sort_by}
use analysis_srv.Review.{ReviewItem, ReviewQueueSummary, is_pending}
use analysis_srv.Review.Memory.{
  get_pending, count_pending, get_summary, tally, tally_all, of_project, waits_in, not_younger,
}

module _ {F P : Type 0} where
  take-All-le :
      (x : ReviewItem F P) (n : ℕ) (items : List (ReviewItem F P))
      → All (λ y. not_younger x y ≡ true) items
      → All (λ y. not_younger x y ≡ true) (take n items)
  take-All-le x n items a = take-All (λ y. not_younger x y ≡ true) n items a

  take-IsSorted :
      (n : ℕ) (items : List (ReviewItem F P))
      → IsSorted not_younger items
      → IsSorted not_younger (take n items)
  take-IsSorted zero items s = tt
  take-IsSorted (suc n) [] s = tt
  take-IsSorted (suc n) (x ∷ items) s = (take-All-le x n items s.0, take-IsSorted n items s.1)

  not_younger_total : (a b : ReviewItem F P) → (not_younger a b ≡ true) ⊎ (not_younger b a ≡ true)
  not_younger_total a b = ground arith

  not_younger_trans :
      (a b c : ReviewItem F P)
      → not_younger a b ≡ true
      → not_younger b c ≡ true
      → not_younger a c ≡ true
  not_younger_trans a b c h k = ground arith

  -- The list of pending items is oldest first, has only items of the project that are pending, and
  -- is as long as there are such items, up to `limit`.
  pub get_pending_lem :
      (project : String) (limit : ℕ) (s : Dict String (ReviewItem F P))
      → let items = get_pending project limit s in
        (length items ≡ min limit (count_pending project s))
        × IsSorted not_younger items
        × All (λ item. waits_in project item ≡ true) items
  unfolding get_pending count_pending
  get_pending_lem project limit s =
      let waiting = filter (waits_in project) (values s) in
      (
        omega (
          arith,
          length-take limit (sort_by not_younger waiting),
          length-sort_by not_younger waiting,
          length-filter (waits_in project) (values s),
        ),
        take-IsSorted limit (sort_by not_younger waiting)
            (sort_by-IsSorted not_younger not_younger_total not_younger_trans waiting),
        take-All (λ item. waits_in project item ≡ true) limit (sort_by not_younger waiting)
            (sort_by-All not_younger (λ item. waits_in project item ≡ true) waiting
              (filter-All (waits_in project) (values s))),
      )

  tally_all-total :
      (items : List (ReviewItem F P)) (sm : ReviewQueueSummary)
      → let r = tally_all items sm in
        (r.pending + r.approved + r.rejected + r.skipped
          ≡ sm.pending + sm.approved + sm.rejected + sm.skipped + length items)
        × (r.total ≡ sm.total)
        × (r.pending ≡ sm.pending + count is_pending items)
  unfolding tally_all is_pending
  tally_all-total [] sm = omega arith
  tally_all-total (item ∷ items) sm = ground (arith, tally_all-total items (tally item.status sm))

  count-of_project :
      (project : String) (items : List (ReviewItem F P))
      → count is_pending (filter (of_project project) items) ≡ count (waits_in project) items
  count-of_project project [] = refl
  count-of_project project (item ∷ items) = ground (arith, count-of_project project items)

  -- The four counts of a summary add up to its total, and the pending one is what the queue's limit
  -- is compared with.
  pub get_summary_adds_up :
      (project : String) (s : Dict String (ReviewItem F P))
      → let r = get_summary project s in
        (r.pending + r.approved + r.rejected + r.skipped ≡ r.total)
        × (r.pending ≡ count_pending project s)
  unfolding get_summary count_pending
  get_summary_adds_up project s =
      let items = filter (of_project project) (values s) in
      omega (
        arith,
        tally_all-total items (record {
          project_id = project;
          total = length items;
          pending = 0;
          approved = 0;
          rejected = 0;
          skipped = 0;
        }),
        count-of_project project (values s),
      )
