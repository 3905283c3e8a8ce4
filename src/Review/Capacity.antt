-- ===== src/Review/Capacity.antt =====
-- The limit on a project's pending items, under every operation of the queue.
use analysis_srv.Prelude.{ℕ, String, ◌≤◌, Bool, Option, none, some, arith, ap}
use analysis_srv.Prelude.Eq.{==_iff, text_key}
use analysis_srv.Prelude.Float.{Float}
use analysis_srv.Review.{
  ReviewItem, ReviewDecision, ReviewRepository, IsRepository, Fact, max_queue_size, new_item,
  enqueue_review_item, decided, status_of, resolve_found, resolve_review_item,
}

-- No project has more pending items than the limit.
abbrev pub IsWithinLimit : {F P S : Type 0} → ReviewRepository F P S → S → Type 0
IsWithinLimit repo s = (project : String) → repo.count_pending project s ≤ max_queue_size

module _ {F P S : Type 0} (repo : ReviewRepository F P S) (laws : IsRepository repo) where
  module _ ⦃fl : Float F⦄ where
    -- Over any repository with the laws of `IsRepository`: whatever a caller offers for review,
    -- forced or not, no project's pending items pass the limit if none did before.
    pub enqueue-IsWithinLimit :
        (threshold : F) (force : Bool) (uuid : String) (now : ℕ) (fact : Fact F P) (s : S)
        → IsWithinLimit repo s
        → IsWithinLimit repo (enqueue_review_item repo threshold force uuid now fact s).1
    unfolding enqueue_review_item
    enqueue-IsWithinLimit threshold force uuid now fact s fits project = ground (
      arith,
      fits project,
      laws.count_pending-save (new_item uuid now fact) project s,
      ==_iff fact.project_id project,
      ap (λ (k : String). repo.count_pending k s) {x = fact.project_id} {y = project},
    )

  resolve_found-IsWithinLimit :
      (decision : ReviewDecision) (remark : Option String) (now : ℕ) (s : S)
      (found : Option (ReviewItem F P))
      → IsWithinLimit repo s
      → IsWithinLimit repo (resolve_found repo decision remark now s found).1
  unfolding resolve_found status_of
  resolve_found-IsWithinLimit decision remark now s none fits project = fits project
  resolve_found-IsWithinLimit decision remark now s (some item) fits project = ground (
    arith,
    fits project,
    laws.count_pending-save (decided repo decision remark now item) project s,
  )

  -- Over any repository with the laws of `IsRepository`: after a decision, whether it is taken or
  -- refused, no project's pending items pass the limit if none did before.
  pub resolve-IsWithinLimit :
      (item_id : String) (decision : ReviewDecision) (remark : Option String) (now : ℕ) (s : S)
      → IsWithinLimit repo s
      → IsWithinLimit repo (resolve_review_item repo item_id decision remark now s).1
  unfolding resolve_review_item
  resolve-IsWithinLimit item_id decision remark now s fits =
      resolve_found-IsWithinLimit decision remark now s (repo.get_by_id item_id s) fits
