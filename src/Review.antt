-- ===== src/Review.antt =====
-- The review queue (internal/review): items, the repository's interface, and the use cases that
-- enqueue, list and resolve items. The clock and the UUID generator are arguments; `F` is the type
-- of floats and `P` that of the JSON payload, which the queue passes through unread.
pub mod Memory
pub mod Capacity
pub mod Lifecycle
pub mod Listing
mod Examples
use analysis_srv.Prelude.{
  ℕ, String, ◌≡◌, ◌≤◌, ◌+◌, Bool, true, false, not, ◌||◌, Option, none, some, List, [], ◌∷◌, leb,
  any, if◌then◌else◌,
}
use analysis_srv.Prelude.Eq.{◌==◌, text_key}
use analysis_srv.Prelude.Float.{Float}
use analysis_srv.Prelude.Result.{Result, ok, err}

pub data ReviewStatus : Type 0 where
  pending approved rejected skipped : ReviewStatus

pub data ReviewDecision : Type 0 where
  approve reject skip : ReviewDecision

pub record ReviewItem (F P : Type 0) : Type 0 where
  pub id : String
  pub run_id : String
  pub project_id : String
  pub mention_id : String
  pub fact_type : String
  pub fact_payload : P
  pub confidence : F
  pub status : ReviewStatus
  pub created_at : ℕ
  pub resolved_at : Option ℕ
  pub resolution_note : Option String

-- What the caller of `enqueue` passes.
pub record Fact (F P : Type 0) : Type 0 where
  pub run_id : String
  pub project_id : String
  pub mention_id : String
  pub fact_type : String
  pub fact_payload : P
  pub confidence : F

unfoldable pub new_item : {F P : Type 0} → String → ℕ → Fact F P → ReviewItem F P
new_item uuid now fact = record {
  id = uuid;
  run_id = fact.run_id;
  project_id = fact.project_id;
  mention_id = fact.mention_id;
  fact_type = fact.fact_type;
  fact_payload = fact.fact_payload;
  confidence = fact.confidence;
  status = pending;
  created_at = now;
  resolved_at = none;
  resolution_note = none;
}

abbrev pub is_pending_status : ReviewStatus → Bool
is_pending_status pending = true
is_pending_status _ = false

unfoldable pub is_pending : {F P : Type 0} → ReviewItem F P → Bool
is_pending item = is_pending_status item.status

unfoldable pub is_resolved : {F P : Type 0} → ReviewItem F P → Bool
is_resolved item = not (is_pending_status item.status)

pub record ReviewQueueSummary : Type 0 where
  pub project_id : String
  pub total : ℕ
  pub pending : ℕ
  pub approved : ℕ
  pub rejected : ℕ
  pub skipped : ℕ

-- IReviewRepository: the operations over a store `S`.
pub record ReviewRepository (F P S : Type 0) : Type 0 where
  pub save : ReviewItem F P → S → S
  pub get_by_id : String → S → Option (ReviewItem F P)
  pub get_pending : String → ℕ → S → List (ReviewItem F P)
  pub count_pending : String → S → ℕ
  pub get_summary : String → S → ReviewQueueSummary

abbrev pub counts_for : {F P : Type 0} → String → ReviewItem F P → ℕ
counts_for project item =
    if item.project_id == project then (if is_pending_status item.status then 1 else 0) else 0

-- What an item that may be missing counts for.
abbrev pub counted : {F P : Type 0} → String → Option (ReviewItem F P) → ℕ
counted project none = 0
counted project (some item) = counts_for project item

-- What the use cases rely on: a saved item is found under its id and the others stay, and one write
-- takes what stood under the item's id from the project's pending items and adds the written item.
pub record IsRepository {F P S : Type 0} (repo : ReviewRepository F P S) : Type 0 where
  pub get_by_id-save :
      (item : ReviewItem F P) (key : String) (s : S)
      → repo.get_by_id key (repo.save item s)
        ≡ (if item.id == key then some item else repo.get_by_id key s)
  pub count_pending-save :
      (item : ReviewItem F P) (project : String) (s : S)
      → repo.count_pending project (repo.save item s) + counted project (repo.get_by_id item.id s)
        ≡ counts_for project item + repo.count_pending project s

pub data ReviewError : Type 0 where
  queue_full not_found already_resolved : ReviewError

abbrev pub max_queue_size : ℕ
max_queue_size = 5_000

abbrev pub default_fetch_limit : ℕ
default_fetch_limit = 100

abbrev pub reviewable_fact_types : List String
reviewable_fact_types = "entity" ∷ "topic" ∷ "intent" ∷ "aspect" ∷ "issue" ∷ "stance" ∷ []

unfoldable pub is_reviewable : String → Bool
is_reviewable fact_type = any (λ t. t == fact_type) reviewable_fact_types

unfoldable pub status_of : ReviewDecision → ReviewStatus
status_of approve = approved
status_of reject = rejected
status_of skip = skipped

module _ {F P S : Type 0} ⦃fl : Float F⦄ (repo : ReviewRepository F P S) where
  -- The two early returns of `enqueue_review_item`: the fact is passed over in silence.
  unfoldable pub passes_over : F → Bool → Fact F P → Bool
  unfolding is_reviewable
  passes_over threshold force fact =
      if force then false else not (is_reviewable fact.fact_type) || fl.le threshold fact.confidence

  unfoldable pub enqueue_review_item :
      F → Bool → String → ℕ → Fact F P → S → Result ReviewError (Option (ReviewItem F P)) × S
  unfolding passes_over new_item
  enqueue_review_item threshold force uuid now fact s =
      if passes_over threshold force fact
      then (ok none, s)
      else if leb max_queue_size (repo.count_pending fact.project_id s)
      then (err queue_full, s)
      else (ok (some (new_item uuid now fact)), repo.save (new_item uuid now fact) s)

module _ {F P S : Type 0} (repo : ReviewRepository F P S) where
  abbrev pub decided : ReviewDecision → Option String → ℕ → ReviewItem F P → ReviewItem F P
  decided decision remark now item = record item {
    status = status_of decision;
    resolved_at = some now;
    resolution_note = remark;
  }

  unfoldable pub resolve_found :
      ReviewDecision
      → Option String
      → ℕ
      → S
      → Option (ReviewItem F P)
      → Result ReviewError (ReviewItem F P) × S
  unfolding is_resolved
  resolve_found decision remark now s none = (err not_found, s)
  resolve_found decision remark now s (some item) =
      if is_resolved item
      then (err already_resolved, s)
      else (ok (decided decision remark now item), repo.save (decided decision remark now item) s)

  unfoldable pub resolve_review_item :
      String → ReviewDecision → Option String → ℕ → S → Result ReviewError (ReviewItem F P) × S
  unfolding resolve_found
  resolve_review_item item_id decision remark now s =
      resolve_found decision remark now s (repo.get_by_id item_id s)

  unfoldable pub get_pending_items : String → ℕ → S → List (ReviewItem F P)
  get_pending_items project limit s = repo.get_pending project limit s

  unfoldable pub summary : String → S → ReviewQueueSummary
  summary project s = repo.get_summary project s
