-- ===== src/Threads/Examples.antt =====
-- A thread of three mentions, and one that names itself as its parent.
use mathlib.Core.List.{reverse}
use mathlib.Core.Path.{subst}
use analysis_srv.Prelude.{
  ℕ, ◌<◌, ◌≡◌, refl, String, true, none, some, List, [], ◌∷◌, length, All, arith, if◌then◌else◌,
  Bool-cases, inl, inr,
}
use analysis_srv.Prelude.Dict.{set, get}
use analysis_srv.Prelude.Eq.{text_key, ◌==◌, ==_iff}
use analysis_srv.Prelude.Text.{non_empty, or_empty}
use analysis_srv.Prelude.Int.{ℤ}
use analysis_srv.Prelude.Float.{scaled}
use analysis_srv.Model.Mention.{MentionRecord}
use analysis_srv.Model.Samples.{sample_mention}
use analysis_srv.Threads.Build.{ThreadBundle, build_threads}
use analysis_srv.Threads.Build.Laws.{counted, HasLineage, build_threads-HasLineage}
use analysis_srv.Threads.{mentions_by_id, index_onto, parent_of, lineage_ids}
use analysis_srv.Threads.Walk.{IsChain, lineage_ids_ends, lineage_ids_loops}

abbrev child : MentionRecord ℤ
child = sample_mention "b" (some "a") "reply"

abbrev grandchild : MentionRecord ℤ
grandchild = sample_mention "c" (some "b") "thanks"

abbrev thread : List (MentionRecord ℤ)
thread = sample_mention "a" none "post" ∷ child ∷ grandchild ∷ []

abbrev height : String → ℕ
height key = if "c" == key then 2 else if "b" == key then 1 else 0

abbrev Falls : String → Type 0
Falls key =
    non_empty (parent_of (mentions_by_id thread) key) ≡ true
    → height (parent_of (mentions_by_id thread) key) < height key

parent-Falls : (key : String) → Falls key
unfolding mentions_by_id index_onto parent_of get set or_empty non_empty
parent-Falls key = elim (Bool-cases ("a" == key)) [
  | inl a ↦ subst Falls ((==_iff "a" key).0 a) (λ h. ground arith)
  | inr na ↦ elim (Bool-cases ("b" == key)) [
    | inl b ↦ subst Falls ((==_iff "b" key).0 b) (λ h. omega arith)
    | inr nb ↦ elim (Bool-cases ("c" == key)) [
      | inl c ↦ subst Falls ((==_iff "c" key).0 c) (λ h. omega arith)
      | inr nc ↦ λ h. cc
    ]
  ]
]

lineage_ids_ends_example :
    (keys : List String) × (lineage_ids 2 thread grandchild ≡ some (reverse keys))
    × IsChain (mentions_by_id thread) keys "b"
unfolding or_empty
lineage_ids_ends_example = lineage_ids_ends height 2 thread grandchild parent-Falls (omega arith)

abbrev looping : MentionRecord ℤ
looping = sample_mention "d" (some "d") "me"

lineage_ids_loops_example : lineage_ids 1_000 (looping ∷ []) looping ≡ none
unfolding mentions_by_id index_onto parent_of get set or_empty non_empty
lineage_ids_loops_example = lineage_ids_loops 1_000 (looping ∷ []) looping refl refl

build_threads-HasLineage_example :
    (bundle : ThreadBundle ℤ) × (build_threads 3 thread ≡ some bundle)
    × (counted bundle.summaries ≡ 3)
    × (length bundle.contexts ≡ 3)
    × All (HasLineage thread) bundle.contexts
unfolding or_empty
build_threads-HasLineage_example =
    build_threads-HasLineage height 3 thread parent-Falls
      (omega arith, (omega arith, (omega arith, tt)))
