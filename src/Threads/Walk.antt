-- ===== src/Threads/Walk.antt =====
-- When the walk ends, and when it does not.
use mathlib.Core.List.{reverse}
use analysis_srv.Prelude.{
  ℕ, zero, suc, ◌<◌, ◌≡◌, refl, ap, String, true, false, Option, none, some, List, [], ◌∷◌, arith,
  Bool-cases, inl, inr,
}
use analysis_srv.Prelude.Dict.{Dict}
use analysis_srv.Prelude.Text.{non_empty, or_empty}
use analysis_srv.Model.Mention.{MentionRecord}
use analysis_srv.Threads.{mentions_by_id, parent_of, also, climb, reversed, lineage_ids}

module _ {F : Type 0} where
  -- The ids on the way up: each is the parent of the one after it, and the first has no parent.
  abbrev pub IsChain : Dict String (MentionRecord F) → List String → String → Type 0
  IsChain by_id [] current = non_empty current ≡ false
  IsChain by_id (key ∷ keys) current =
      (key ≡ current) × (non_empty current ≡ true) × IsChain by_id keys (parent_of by_id current)

  module _ (by_id : Dict String (MentionRecord F)) where
    -- The loop came to its end with a chain.
    abbrev Ends : String → Option (List String) → Type 0
    Ends current r = (keys : List String) × (r ≡ some keys) × IsChain by_id keys current

    climb_stops :
        (fuel : ℕ) (current : String)
        → non_empty current ≡ false
        → Ends current (climb fuel by_id current)
    unfolding climb
    climb_stops zero current over = ([], rw over refl, over)
    climb_stops (suc fuel) current over = ([], rw over refl, over)

    also-Ends :
        (current : String) (r : Option (List String))
        → non_empty current ≡ true
        → Ends (parent_of by_id current) r
        → Ends current (also current r)
    also-Ends current r named (keys, e, chain) =
        (current ∷ keys, ap (also current) e, (refl, named, chain))

    climb-Ends :
        (height : String → ℕ) (fuel : ℕ) (current : String)
        → ((key : String)
            → non_empty (parent_of by_id key) ≡ true
            → height (parent_of by_id key) < height key)
        → height current < fuel
        → Ends current (climb fuel by_id current)
    unfolding climb
    climb-Ends height zero current falls small = ground arith
    climb-Ends height (suc fuel) current falls small = elim (Bool-cases (non_empty current)) [
      | inl named ↦ rw named (
          also-Ends current (climb fuel by_id (parent_of by_id current)) named
            (elim (Bool-cases (non_empty (parent_of by_id current))) [
              | inl more ↦
                  climb-Ends height fuel (parent_of by_id current) falls
                    (omega (arith, falls current more, small))
              | inr over ↦ climb_stops fuel (parent_of by_id current) over
            ]))
      | inr over ↦ climb_stops (suc fuel) current over
    ]

    climb_loops :
        (fuel : ℕ) (key : String)
        → non_empty key ≡ true
        → parent_of by_id key ≡ key
        → climb fuel by_id key ≡ none
    unfolding climb
    climb_loops zero key named loop = rw named refl
    climb_loops (suc fuel) key named loop = rw (named, loop, climb_loops fuel key named loop) refl

  -- Where some height falls from each mention to its parent, the walk ends within the height of the
  -- first parent plus one rounds, and its ids are, from the root down, the chain of the parents.
  pub lineage_ids_ends :
      (height : String → ℕ) (fuel : ℕ) (mentions : List (MentionRecord F))
      (mention : MentionRecord F)
      → ((key : String)
          → non_empty (parent_of (mentions_by_id mentions) key) ≡ true
          → height (parent_of (mentions_by_id mentions) key) < height key)
      → height (or_empty mention.parent_id) < fuel
      → (keys : List String) × (lineage_ids fuel mentions mention ≡ some (reverse keys))
        × IsChain (mentions_by_id mentions) keys (or_empty mention.parent_id)
  unfolding lineage_ids
  lineage_ids_ends height fuel mentions mention falls small =
      let (keys, e, chain) =
        climb-Ends (mentions_by_id mentions) height fuel (or_empty mention.parent_id) falls small in
      (keys, ap reversed e, chain)

  -- A mention whose parent names itself as its parent, such as one that is its own parent, has no
  -- lineage: however many rounds the walk is given, it does not end.
  pub lineage_ids_loops :
      (fuel : ℕ) (mentions : List (MentionRecord F)) (mention : MentionRecord F)
      → non_empty (or_empty mention.parent_id) ≡ true
      → parent_of (mentions_by_id mentions) (or_empty mention.parent_id)
        ≡ or_empty mention.parent_id
      → lineage_ids fuel mentions mention ≡ none
  unfolding lineage_ids
  lineage_ids_loops fuel mentions mention named loop =
      ap reversed
        (climb_loops (mentions_by_id mentions) fuel (or_empty mention.parent_id) named loop)
