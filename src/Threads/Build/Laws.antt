-- ===== src/Threads/Build/Laws.antt =====
-- What `build_threads` gives when the walks end: every mention is counted in one summary and has one
-- context, with its lineage.
use mathlib.Core.List.{reverse}
use analysis_srv.Prelude.{
  ℕ, ◌+◌, ◌<◌, ◌≡◌, refl, ◌∙◌, String, true, some, List, [], ◌∷◌, ◌++◌, arith, length, All,
  All-append, length-append, flatten,
}
use analysis_srv.Prelude.Eq.{text_key}
use analysis_srv.Prelude.Dict.{Dict, values, group_by}
use analysis_srv.Prelude.Dict.Laws.{group_by-total}
use analysis_srv.Prelude.Dict.Keys.{group_by-All}
use analysis_srv.Prelude.Float.{Float}
use analysis_srv.Prelude.Sort.{sort_by, sort_by-All, length-sort_by}
use analysis_srv.Prelude.Text.{non_empty, or_empty}
use analysis_srv.Model.Mention.{MentionRecord}
use analysis_srv.Threads.{mentions_by_id, parent_of}
use analysis_srv.Threads.Walk.{IsChain, lineage_ids_ends}
use analysis_srv.Threads.Build.{
  MentionContext, ThreadSummary, ThreadBundle, shallower, resolve_root_mention, context_with,
  contexts_of, thread_summary, threads_of, edges_of, build_threads,
}

module _ {F : Type 0} ⦃fl : Float F⦄ where
  abbrev pub counted : List (ThreadSummary F) → ℕ
  counted [] = 0
  counted (s ∷ summaries) = s.total_mentions + counted summaries

  -- The lineage is, from the root down, the chain of the parents.
  abbrev pub HasLineage : List (MentionRecord F) → MentionContext → Type 0
  HasLineage mentions c =
      (keys : List String) × (c.lineage_ids ≡ reverse keys)
      × IsChain (mentions_by_id mentions) keys (or_empty c.parent_id)

  module _ (height : String → ℕ) (fuel : ℕ) (mentions : List (MentionRecord F))
      (falls : (key : String)
        → non_empty (parent_of (mentions_by_id mentions) key) ≡ true
        → height (parent_of (mentions_by_id mentions) key) < height key) where
    abbrev IsLow : MentionRecord F → Type 0
    IsLow m = height (or_empty m.parent_id) < fuel

    contexts_of-HasLineage :
        (root_id : String) (root : MentionRecord F) (ms : List (MentionRecord F))
        → All IsLow ms
        → (contexts : List MentionContext) × (contexts_of fuel mentions root_id root ms
            ≡ some contexts)
          × All (HasLineage mentions) contexts
          × (length contexts ≡ length ms)
    unfolding contexts_of context_with
    contexts_of-HasLineage root_id root [] low = ([], refl, tt, refl)
    contexts_of-HasLineage root_id root (m ∷ ms) low =
        let (keys, e, chain) = lineage_ids_ends height fuel mentions m falls low.0 in
        let (rest, f, all, same) = contexts_of-HasLineage root_id root ms low.1 in
        (
          context_with mentions root_id root m (reverse keys) ∷ rest,
          rw (contexts_of, e, f) refl,
          ((keys, refl, chain), all),
          omega (arith, same),
        )

    threads_of-HasLineage :
        (groups : Dict String (List (MentionRecord F)))
        → All (All IsLow) (values groups)
        → (r : List (ThreadSummary F) × List MentionContext) × (threads_of fuel mentions groups
            ≡ some r)
          × (counted r.0 ≡ length (flatten (values groups)))
          × All (HasLineage mentions) r.1
          × (length r.1 ≡ length (flatten (values groups)))
    unfolding threads_of thread_summary flatten
    threads_of-HasLineage [] low = (([], []), refl, refl, tt, refl)
    threads_of-HasLineage ((root_id, []) ∷ groups) low = threads_of-HasLineage groups low.1
    threads_of-HasLineage ((root_id, first ∷ rest) ∷ groups) low =
        let root = resolve_root_mention (mentions_by_id mentions) root_id first rest in
        let thread = first ∷ rest in
        let (contexts, e, all, same) =
          contexts_of-HasLineage root_id root (sort_by shallower thread)
            (sort_by-All shallower IsLow thread low.0) in
        let ((summaries, later), f, number, others, same') = threads_of-HasLineage groups low.1 in
        (
          (thread_summary root_id thread ∷ summaries, contexts ++ later),
          rw (threads_of, e, f) refl,
          omega (arith, number, length-append thread (flatten (values groups))),
          All-append (HasLineage mentions) contexts later all others,
          omega (
            arith,
            same,
            same',
            length-append contexts later,
            length-append thread (flatten (values groups)),
            length-sort_by shallower thread,
          ),
        )

    -- Where some height falls from each mention to its parent, and the fuel is above the heights of the
    -- parents, `build_threads` gives a bundle. The totals of its summaries add up to the number of the
    -- mentions, there are as many contexts, and the lineage of each is the chain of its parents.
    pub build_threads-HasLineage :
        All IsLow mentions
        → (bundle : ThreadBundle F) × (build_threads fuel mentions ≡ some bundle)
          × (counted bundle.summaries ≡ length mentions)
          × (length bundle.contexts ≡ length mentions)
          × All (HasLineage mentions) bundle.contexts
    unfolding build_threads
    build_threads-HasLineage low =
        let groups = group_by (λ (m : MentionRecord F). m.root_id) mentions in
        let (r, e, number, all, same) =
          threads_of-HasLineage groups (group_by-All IsLow (λ m. m.root_id) mentions low) in
        (
          record { summaries = r.0; edges = edges_of mentions; contexts = r.1 },
          rw (build_threads, e) refl,
          number ∙ group_by-total (λ m. m.root_id) mentions,
          same ∙ group_by-total (λ m. m.root_id) mentions,
          all,
        )
