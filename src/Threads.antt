-- ===== src/Threads.antt =====
-- internal/threads/usecase/build_threads.py: the walk from a mention up to the root of its thread, and
-- in Threads/Build.antt the threads. The walk is a loop on the parent ids, so it is on fuel here, with
-- `none` where the fuel runs out.
pub mod Walk
pub mod Build
mod Examples
use mathlib.Core.List.{reverse}
use analysis_srv.Prelude.{
  ℕ, zero, suc, String, Option, none, some, List, [], ◌∷◌, ◌++◌, if◌then◌else◌,
}
use analysis_srv.Prelude.Dict.{Dict, set, get}
use analysis_srv.Prelude.Eq.{text_key}
use analysis_srv.Prelude.Text.{non_empty, or_empty}
use analysis_srv.Model.Mention.{MentionRecord}

abbrev pub also : String → Option (List String) → Option (List String)
also key none = none
also key (some keys) = some (key ∷ keys)

abbrev pub reversed : Option (List String) → Option (List String)
reversed none = none
reversed (some keys) = some (reverse keys)

module _ {F : Type 0} where
  -- {m.mention_id: m for m in mentions}, onto the dict so far
  unfoldable pub index_onto :
      Dict String (MentionRecord F) → List (MentionRecord F) → Dict String (MentionRecord F)
  unfolding set
  index_onto d [] = d
  index_onto d (m ∷ mentions) = index_onto (set m.mention_id m d) mentions

  unfoldable pub mentions_by_id : List (MentionRecord F) → Dict String (MentionRecord F)
  unfolding index_onto
  mentions_by_id mentions = index_onto [] mentions

  -- The parent of the mention with this id; the empty text, which ends the loop, for none.
  unfoldable pub parent_of : Dict String (MentionRecord F) → String → String
  unfolding get or_empty
  parent_of by_id key = elim (get key by_id) [ none ↦ "" | some m ↦ or_empty m.parent_id ]

  -- The loop, from `current_parent`: the ids that it appends.
  unfoldable pub climb : ℕ → Dict String (MentionRecord F) → String → Option (List String)
  unfolding non_empty
  climb zero by_id current = if non_empty current then none else some []
  climb (suc fuel) by_id current =
      let rest = climb fuel by_id (parent_of by_id current) in
      if non_empty current then also current rest else some []

  unfoldable pub lineage_ids : ℕ → List (MentionRecord F) → MentionRecord F → Option (List String)
  unfolding climb mentions_by_id
  lineage_ids fuel mentions mention =
      reversed (climb fuel (mentions_by_id mentions) (or_empty mention.parent_id))
