-- ===== src/Review/Examples.antt =====
-- Runs of the review queue over the in-memory repository.
use analysis_srv.Prelude.{
  ℕ, zero, suc, String, ◌≡◌, ◌≤◌, ◌+◌, refl, true, false, none, some, [], ◌∷◌, length, All, arith,
}
use Prim.Native.Nat.{min}
use Prim.Native.String.{◌++◌}
use analysis_srv.Prelude.Eq.{==_iff, text_key}
use analysis_srv.Prelude.Int.{ℤ, pos}
use analysis_srv.Prelude.Float.{scaled}
use analysis_srv.Prelude.Dict.{Dict, get, set}
use analysis_srv.Prelude.Sort.{IsSorted}
use analysis_srv.Prelude.Result.{ok, err}
use analysis_srv.Review.{
  ReviewItem, ReviewRepository, IsRepository, Fact, queue_full, already_resolved, passes_over,
  max_queue_size, enqueue_review_item, resolve_review_item, new_item, decided, pending, approve,
  skip, is_reviewable, resolve_found, is_pending, is_resolved, status_of,
}
use analysis_srv.Review.Memory.{
  in_memory, in_memory-IsRepository, get_pending, count_pending, get_summary, get_by_id, save,
  waits_in, not_younger,
}
use analysis_srv.Review.Capacity.{IsWithinLimit, enqueue-IsWithinLimit}
use analysis_srv.Review.Lifecycle.{IsKeyed, enqueue_finds, enqueue_full, resolve_once}
use analysis_srv.Review.Listing.{get_pending_lem, get_summary_adds_up}

abbrev Store : Type 0
Store = Dict String (ReviewItem ℤ ℕ)

abbrev repo : ReviewRepository ℤ ℕ Store
repo = in_memory ℤ ℕ

abbrev fact : Fact ℤ ℕ
fact = record {
  run_id = "r";
  project_id = "p";
  mention_id = "m";
  fact_type = "topic";
  fact_payload = 0;
  confidence = pos 1;
}

abbrev item : String → ℕ → ReviewItem ℤ ℕ
item key now = record {
  id = key;
  run_id = "r";
  project_id = "p";
  mention_id = "m";
  fact_type = "topic";
  fact_payload = 0;
  confidence = pos 1;
  status = pending;
  created_at = now;
  resolved_at = none;
  resolution_note = none;
}

abbrev nothing : Store
nothing = []

-- One waiting item.
abbrev one : Store
one = ("u", item "u" 1) ∷ []

abbrev two : Store
two = ("u", item "u" 2) ∷ ("v", item "v" 1) ∷ []

nothing-IsWithinLimit : IsWithinLimit repo nothing
unfolding count_pending
nothing-IsWithinLimit project = omega arith

one-IsKeyed : IsKeyed repo one
unfolding get_by_id get
one-IsKeyed key = ground (arith, ==_iff "u" key)

enqueue-IsWithinLimit_example :
    IsWithinLimit repo (enqueue_review_item repo (pos 7) false "u" 1 fact nothing).1
enqueue-IsWithinLimit_example =
    enqueue-IsWithinLimit repo (in_memory-IsRepository ℤ ℕ) (pos 7) false "u" 1 fact nothing
      nothing-IsWithinLimit

one_queued :
    enqueue_review_item repo (pos 7) false "u" 1 fact nothing ≡ (ok (some (item "u" 1)), one)
unfolding enqueue_review_item passes_over is_reviewable new_item count_pending save set
one_queued = refl

enqueue_finds_example : repo.get_by_id "u" one ≡ some (item "u" 1)
enqueue_finds_example =
    enqueue_finds repo (in_memory-IsRepository ℤ ℕ) (pos 7) false "u" 1 fact nothing one
      (item "u" 1) one_queued

one_resolved : resolve_review_item repo "u" approve none 2 one ≡ (
  ok (decided repo approve none 2 (item "u" 1)),
  ("u", decided repo approve none 2 (item "u" 1)) ∷ [],
)
unfolding resolve_review_item resolve_found is_resolved status_of get_by_id get save set
one_resolved = refl

resolve_once_example :
    resolve_review_item repo "u" skip none 3 (("u", decided repo approve none 2 (item "u" 1)) ∷ [])
    ≡ (err already_resolved, ("u", decided repo approve none 2 (item "u" 1)) ∷ [])
resolve_once_example =
    resolve_once repo (in_memory-IsRepository ℤ ℕ) "u" approve skip none none 2 3 one
      (("u", decided repo approve none 2 (item "u" 1)) ∷ [])
      (decided repo approve none 2 (item "u" 1)) one-IsKeyed one_resolved

get_pending_lem_example :
    let items = get_pending "p" 5 two in
    (length items ≡ min 5 (count_pending "p" two))
    × IsSorted not_younger items
    × All (λ item. waits_in "p" item ≡ true) items
get_pending_lem_example = get_pending_lem "p" 5 two

get_summary_adds_up_example :
    let r = get_summary "p" two in
    (r.pending + r.approved + r.rejected + r.skipped ≡ r.total)
    × (r.pending ≡ count_pending "p" two)
get_summary_adds_up_example = get_summary_adds_up "p" two

-- A queue of `n` waiting items.
label : ℕ → String
label zero = ""
label (suc n) = "x" ++ label n

fill : ℕ → Store
fill zero = []
fill (suc n) = (label n, item (label n) n) ∷ fill n

count_pending-fill : (n : ℕ) → count_pending "p" (fill n) ≡ n
unfolding count_pending fill is_pending
count_pending-fill zero = refl
count_pending-fill (suc n) = omega (arith, count_pending-fill n)

full_queue :
    enqueue_review_item repo (pos 7) false "u" 1 fact (fill 5_000) ≡ (err queue_full, fill 5_000)
unfolding enqueue_review_item passes_over is_reviewable
full_queue = rw (count_pending-fill 5_000) refl

enqueue_full_example :
    (queue_full ≡ queue_full)
    × (fill 5_000 ≡ fill 5_000)
    × (passes_over repo (pos 7) false fact ≡ false)
    × (max_queue_size ≤ repo.count_pending "p" (fill 5_000))
enqueue_full_example =
    enqueue_full repo (in_memory-IsRepository ℤ ℕ) (pos 7) false "u" 1 fact (fill 5_000)
      (fill 5_000) queue_full full_queue

in_memory-IsRepository_example : IsRepository (in_memory ℤ ℕ)
in_memory-IsRepository_example = in_memory-IsRepository ℤ ℕ
