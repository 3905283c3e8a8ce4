-- ===== src/Threads/Build.antt =====
-- `build_threads`: the mentions by root, and for each thread its summary and its mentions' contexts.
pub mod Laws
use Prim.Native.String.{◌++◌ as ◌+s◌}
use analysis_srv.Prelude.{
  ℕ, ◌-◌, String, Bool, true, false, not, ◌&&◌, ◌||◌, Option, none, some, List, [], ◌∷◌, ◌++◌, map,
  filter, length, take, most, ltb, leb, nat_eq, if◌then◌else◌,
}
use analysis_srv.Prelude.Eq.{◌==◌, text_key}
use analysis_srv.Prelude.Dict.{Dict, get, push_at, group_by, items_at}
use analysis_srv.Prelude.Float.{Float}
use analysis_srv.Prelude.Sets.{member}
use analysis_srv.Prelude.Sort.{sort_by}
use analysis_srv.Prelude.Text.{non_empty, or_empty, not_after}
use analysis_srv.Prelude.Text.Split.{join}
use analysis_srv.Model.Mention.{MentionRecord}
use analysis_srv.Threads.{mentions_by_id, lineage_ids}

pub record ThreadEdge : Type 0 where
  pub root_id : String
  pub parent_id : String
  pub child_id : String
  pub depth : ℕ

pub record MentionContext : Type 0 where
  pub mention_id : String
  pub root_id : String
  pub parent_id : Option String
  pub lineage_ids : List String
  pub sibling_ids : List String
  pub direct_child_ids : List String
  pub context_text : String
  pub root_text : String
  pub parent_text : Option String

pub record ThreadSummary (F : Type 0) : Type 0 where
  pub root_id : String
  pub total_mentions : ℕ
  pub total_descendants : ℕ
  pub max_depth_observed : ℕ
  pub comment_count : ℕ
  pub reply_count : ℕ
  pub top_comment_ids : List String
  pub top_comment_scores : List F

pub record ThreadBundle (F : Type 0) : Type 0 where
  pub summaries : List (ThreadSummary F)
  pub edges : List ThreadEdge
  pub contexts : List MentionContext

-- min(first ∷ rest, key=...): the first of the least ones
unfoldable pub least_by : {A : Type 0} → (A → A → Bool) → A → List A → A
least_by le first [] = first
least_by le first (x ∷ rest) = least_by le (if le first x then first else x) rest

unfoldable pub context_parts : String → String → String → List String
context_parts root_text of_parent raw_text =
    let parts : List String =
      root_text
      ∷ (if non_empty of_parent && not (of_parent == root_text) then of_parent ∷ [] else []) in
    if member raw_text parts then parts else parts ++ raw_text ∷ []

module _ {F : Type 0} where
  unfoldable pub edges_of : List (MentionRecord F) → List ThreadEdge
  edges_of [] = []
  edges_of (m ∷ mentions) =
      let rest = edges_of mentions in
      if non_empty (or_empty m.parent_id)
      then record {
        root_id = m.root_id;
        parent_id = or_empty m.parent_id;
        child_id = m.mention_id;
        depth = m.depth;
      }
        ∷ rest
      else rest

  unfoldable pub children_by_parent : List (MentionRecord F) → Dict String (List (MentionRecord F))
  children_by_parent mentions =
      group_by (λ m. or_empty m.parent_id) (filter (λ m. non_empty (or_empty m.parent_id)) mentions)

  -- No parent, or one that is not among the mentions.
  unfoldable pub is_detached : Dict String (MentionRecord F) → MentionRecord F → Bool
  is_detached by_id m = elim m.parent_id [
    | none ↦ true
    | some parent ↦ elim (get parent by_id) [ none ↦ true | some p ↦ false ]
  ]

  -- The key of `_resolve_root_mention`.
  unfoldable pub rooted_before :
      Dict String (MentionRecord F) → MentionRecord F → MentionRecord F → Bool
  rooted_before by_id a b =
      if ltb a.depth b.depth
      then true
      else if ltb b.depth a.depth
      then false
      else if is_detached by_id a && not (is_detached by_id b)
      then true
      else if is_detached by_id b && not (is_detached by_id a)
      then false
      else not_after a.mention_id b.mention_id

  unfoldable pub resolve_root_mention :
      Dict String (MentionRecord F)
      → String
      → MentionRecord F
      → List (MentionRecord F)
      → MentionRecord F
  resolve_root_mention by_id root_id first rest = elim (get root_id by_id) [
    | some m ↦ m
    | none ↦ least_by (rooted_before by_id) first rest
  ]

  -- The key (depth, mention_id).
  unfoldable pub shallower : MentionRecord F → MentionRecord F → Bool
  shallower a b =
      if ltb a.depth b.depth
      then true
      else if ltb b.depth a.depth
      then false
      else not_after a.mention_id b.mention_id

  unfoldable pub parent_text : Dict String (MentionRecord F) → MentionRecord F → Option String
  parent_text by_id m = elim m.parent_id [
    | none ↦ none
    | some parent ↦ elim (get parent by_id) [ none ↦ none | some p ↦ some p.raw_text ]
  ]

  -- With the lineage that the walk gave.
  unfoldable pub context_with :
      List (MentionRecord F)
      → String
      → MentionRecord F
      → MentionRecord F
      → List String
      → MentionContext
  context_with mentions root_id root m lineage =
      let by_id = mentions_by_id mentions in
      let children = children_by_parent mentions in
      record {
        mention_id = m.mention_id;
        root_id = root_id;
        parent_id = m.parent_id;
        lineage_ids = lineage;
        sibling_ids =
            map (λ s. s.mention_id)
              (filter (λ s. not (s.mention_id == m.mention_id))
                (items_at (or_empty m.parent_id) children));
        direct_child_ids = map (λ c. c.mention_id) (items_at m.mention_id children);
        context_text =
            join " | " (context_parts root.raw_text (or_empty (parent_text by_id m)) m.raw_text);
        root_text = root.raw_text;
        parent_text = parent_text by_id m;
      }

  -- The loop over the sorted mentions of a thread.
  unfoldable pub contexts_of :
      ℕ
      → List (MentionRecord F)
      → String
      → MentionRecord F
      → List (MentionRecord F)
      → Option (List MentionContext)
  contexts_of fuel mentions root_id root [] = some []
  contexts_of fuel mentions root_id root (m ∷ ms) = elim (lineage_ids fuel mentions m) [
    | none ↦ none
    | some lineage ↦ elim (contexts_of fuel mentions root_id root ms) [
      | none ↦ none
      | some rest ↦ some (context_with mentions root_id root m lineage ∷ rest)
    ]
  ]

module _ {F : Type 0} ⦃fl : Float F⦄ where
  unfoldable pub score_for_ranking : MentionRecord F → F
  score_for_ranking m = elim m.sort_score [ none ↦ fl.lit 0 1 | some score ↦ score ]

  abbrev pub ranked_before : MentionRecord F → MentionRecord F → Bool
  ranked_before a b = fl.le (score_for_ranking b) (score_for_ranking a)

  unfoldable pub thread_summary : String → List (MentionRecord F) → ThreadSummary F
  thread_summary root_id thread =
      let comments = filter (λ m. nat_eq m.depth 1) thread in
      let top = take 5 (sort_by ranked_before comments) in
      record {
        root_id = root_id;
        total_mentions = length thread;
        total_descendants = length thread - 1;
        max_depth_observed = most (map (λ m. m.depth) thread);
        comment_count = length comments;
        reply_count = length (filter (λ m. leb 2 m.depth) thread);
        top_comment_ids = map (λ m. m.mention_id) top;
        top_comment_scores = map score_for_ranking top;
      }

  -- The loop over the groups, none of which is empty.
  unfoldable pub threads_of :
      ℕ
      → List (MentionRecord F)
      → Dict String (List (MentionRecord F))
      → Option (List (ThreadSummary F) × List MentionContext)
  threads_of fuel mentions [] = some ([], [])
  threads_of fuel mentions ((root_id, []) ∷ groups) = threads_of fuel mentions groups
  threads_of fuel mentions ((root_id, first ∷ rest) ∷ groups) =
      let root = resolve_root_mention (mentions_by_id mentions) root_id first rest in
      elim (contexts_of fuel mentions root_id root (sort_by shallower (first ∷ rest))) [
        | none ↦ none
        | some contexts ↦ elim (threads_of fuel mentions groups) [
          | none ↦ none
          | some (summaries, later) ↦
              some (thread_summary root_id (first ∷ rest) ∷ summaries, contexts ++ later)
        ]
      ]

  unfoldable pub build_threads : ℕ → List (MentionRecord F) → Option (ThreadBundle F)
  build_threads fuel mentions =
      elim (threads_of fuel mentions (group_by (λ m. m.root_id) mentions)) [
        | none ↦ none
        | some (summaries, contexts) ↦
            some (record { summaries = summaries; edges = edges_of mentions; contexts = contexts })
      ]
