-- ===== src/Review/Memory.antt =====
-- internal/review/repository/in_memory.py: the repository over a `dict`, and its laws.
use analysis_srv.Prelude.{
  ℕ, String, ◌≡◌, ◌+◌, Bool, ◌&&◌, Option, some, List, [], ◌∷◌, leb, arith, count, filter, take,
  length, if◌then◌else◌, Option-cases, inl, inr,
}
use analysis_srv.Prelude.Eq.{◌==◌, text_key}
use analysis_srv.Prelude.Dict.{Dict, get, set, values}
use analysis_srv.Prelude.Dict.Laws.{get-set, count-set}
use analysis_srv.Prelude.Sort.{sort_by}
use analysis_srv.Review.{
  ReviewItem, ReviewStatus, pending, approved, rejected, skipped, ReviewQueueSummary,
  ReviewRepository, IsRepository, is_pending, counts_for, counted,
}

-- One round of the loop of `get_summary`.
unfoldable pub tally : ReviewStatus → ReviewQueueSummary → ReviewQueueSummary
tally pending sm = record sm { pending = sm.pending + 1 }
tally approved sm = record sm { approved = sm.approved + 1 }
tally rejected sm = record sm { rejected = sm.rejected + 1 }
tally skipped sm = record sm { skipped = sm.skipped + 1 }

module _ {F P : Type 0} where
  unfoldable pub save : ReviewItem F P → Dict String (ReviewItem F P) → Dict String (ReviewItem F P)
  save item s = set item.id item s

  unfoldable pub get_by_id : String → Dict String (ReviewItem F P) → Option (ReviewItem F P)
  get_by_id key s = get key s

  abbrev pub of_project : String → ReviewItem F P → Bool
  of_project project item = item.project_id == project

  abbrev pub waits_in : String → ReviewItem F P → Bool
  waits_in project item = of_project project item && is_pending item

  abbrev pub not_younger : ReviewItem F P → ReviewItem F P → Bool
  not_younger a b = leb a.created_at b.created_at

  unfoldable pub get_pending : String → ℕ → Dict String (ReviewItem F P) → List (ReviewItem F P)
  unfolding is_pending
  get_pending project limit s =
      take limit (sort_by not_younger (filter (waits_in project) (values s)))

  unfoldable pub count_pending : String → Dict String (ReviewItem F P) → ℕ
  unfolding is_pending
  count_pending project s = count (waits_in project) (values s)

  unfoldable pub tally_all : List (ReviewItem F P) → ReviewQueueSummary → ReviewQueueSummary
  unfolding tally
  tally_all [] sm = sm
  tally_all (item ∷ items) sm = tally_all items (tally item.status sm)

  unfoldable pub get_summary : String → Dict String (ReviewItem F P) → ReviewQueueSummary
  unfolding tally_all
  get_summary project s =
      let items = filter (of_project project) (values s) in
      tally_all items (record {
        project_id = project;
        total = length items;
        pending = 0;
        approved = 0;
        rejected = 0;
        skipped = 0;
      })

abbrev pub in_memory : (F P : Type 0) → ReviewRepository F P (Dict String (ReviewItem F P))
in_memory F P = record {
  save = save;
  get_by_id = get_by_id;
  get_pending = get_pending;
  count_pending = count_pending;
  get_summary = get_summary;
}

get_by_id-save :
    {F P : Type 0} (item : ReviewItem F P) (key : String) (s : Dict String (ReviewItem F P))
    → get_by_id key (save item s) ≡ (if item.id == key then some item else get_by_id key s)
unfolding get_by_id save
get_by_id-save item key s = get-set item.id key item s

count_pending-save :
    {F P : Type 0} (item : ReviewItem F P) (project : String) (s : Dict String (ReviewItem F P))
    → count_pending project (save item s) + counted project (get_by_id item.id s)
      ≡ counts_for project item + count_pending project s
unfolding count_pending save get_by_id is_pending
count_pending-save item project s = elim (Option-cases (get item.id s)) [
  | inl e ↦ ground (arith, count-set (waits_in project) item.id item s)
  | inr (old, e) ↦ ground (arith, count-set (waits_in project) item.id item s)
]

-- The repository over a `dict` has the laws that the use cases rely on: a saved item is found under
-- its id and the others stay, and a write changes the number of a project's pending items by exactly
-- the written item and the one that it replaces.
pub in_memory-IsRepository : (F P : Type 0) → IsRepository (in_memory F P)
in_memory-IsRepository F P = record {
  get_by_id-save = get_by_id-save;
  count_pending-save = count_pending-save;
}
