-- ===== src/Dedup/Near/Chains/Groups.antt =====
-- The groups of near duplicates: the loop after the unions collects each mention under its root.
use analysis_srv.Prelude.{
  ℕ, ◌≤◌, ◌<◌, ◌≡◌, ◌↔◌, refl, ap, ◌∙◌, String, Option, none, some, List, [], ◌∷◌, ◌++◌, arith,
  length, filter, count-le-length, All, if◌then◌else◌, append_assoc, append-nil, sym,
}
use analysis_srv.Prelude.Eq.{◌==◌, text_key}
use analysis_srv.Prelude.Dict.{Dict, get, keys, items_at}
use analysis_srv.Prelude.Dict.Laws.{items_at-push_at}
use analysis_srv.Prelude.Float.{Float}
use analysis_srv.Model.Mention.{MentionRecord}
use analysis_srv.Dedup.{Digests, DedupConfig}
use analysis_srv.Dedup.UnionFind.Roots.{Represents, find-Finds}
use analysis_srv.Dedup.UnionFind.Links.{Linked}
use analysis_srv.Dedup.UnionFind.Closure.{unions-closure}
use analysis_srv.Dedup.Near.{
  is_similar, brute_force_threshold, united_pairs, push_found, group_by_root,
}
use analysis_srv.Dedup.Near.Similar.{HasDistinctSets}
use analysis_srv.Dedup.Near.Clusters.{near_groups}
use analysis_srv.Dedup.Near.Chains.{
  Chain, ids_stand, united_pairs-AreInside, Linked-Chain, Chain-Linked,
}

All-map :
    {P Q : String → Type 0} → ((x : String) → P x → Q x) → (xs : List String) → All P xs → All Q xs
All-map f [] h = tt
All-map f (x ∷ xs) h = (f x h.0, All-map f xs h.1)

module _ {F : Type 0} where
  abbrev collected : Option (MentionRecord F) → List (MentionRecord F) → List (MentionRecord F)
  collected none rest = rest
  collected (some m) rest = m ∷ rest

  -- The mentions of these ids, in their order.
  abbrev pub found_of : Dict String (MentionRecord F) → List String → List (MentionRecord F)
  found_of by_id [] = []
  found_of by_id (mid ∷ ids) = collected (get mid by_id) (found_of by_id ids)

module _ {F : Type 0} ⦃fl : Float F⦄ (digests : Digests) (config : DedupConfig F) where
  push_found-items_at :
      (target root : String) (m : Option (MentionRecord F))
      (grouped : Dict String (List (MentionRecord F))) (fs : List (MentionRecord F))
      → items_at root (push_found digests config target m grouped) ++ fs
        ≡ items_at root grouped ++ (if target == root then collected m fs else fs)
  unfolding get
  push_found-items_at target root none grouped fs = ground arith
  push_found-items_at target root (some m) grouped fs = ground (
    arith,
    items_at-push_at target root m grouped,
    append_assoc (items_at root grouped) (m ∷ []) fs,
  )

  collected-filter :
      (by_id : Dict String (MentionRecord F)) (rep : String → String) (mid root : String)
      (ids : List String)
      → (if rep mid == root
          then collected (get mid by_id) (found_of by_id (filter (λ j. rep j == root) ids))
          else found_of by_id (filter (λ j. rep j == root) ids))
        ≡ found_of by_id (filter (λ j. rep j == root) (mid ∷ ids))
  collected-filter by_id rep mid root ids = ground arith

  module _ (by_id : Dict String (MentionRecord F)) (rep : String → String) (height : String → ℕ)
      (fuel : ℕ) where
    Collects :
        List String
        → Dict String (List (MentionRecord F))
        → Option (Dict String (List (MentionRecord F)))
        → Type 0
    Collects ids grouped r =
        (after : Dict String (List (MentionRecord F))) × (r ≡ some after)
        × ((root : String)
            → items_at root after
              ≡ items_at root grouped ++ found_of by_id (filter (λ mid. rep mid == root) ids))

    group_by_root-Collects :
        (ids : List String) (forest : Dict String String)
        (grouped : Dict String (List (MentionRecord F)))
        → Represents forest rep height
        → All (λ mid. height mid < fuel) ids
        → Collects ids grouped (group_by_root digests config fuel by_id ids forest grouped)
    unfolding group_by_root Collects
    group_by_root-Collects [] forest grouped r low =
        (grouped, refl, λ root. sym (append-nil (items_at root grouped)))
    group_by_root-Collects (mid ∷ ids) forest grouped r low =
        let (forest', found, r', top, bound) = find-Finds rep height fuel mid forest r low.0 in
        let (after, done, holds) =
          group_by_root-Collects ids forest'
            (push_found digests config (rep mid) (get mid by_id) grouped) r' low.1 in
        rw (group_by_root, found)
          (
            after,
            done,
            λ root.
                (holds root
                  ∙ push_found-items_at (rep mid) root (get mid by_id) grouped
                      (found_of by_id (filter (λ j. rep j == root) ids)))
                ∙ ap (◌++◌ (items_at root grouped)) (collected-filter by_id rep mid root ids),
          )

  -- The fuel never runs out; each root's group has the mentions of exactly the ids with this root, in
  -- their order; and two ids have one root exactly if united pairs link them.
  pub near_groups-Linked :
      (sets : Dict String (List String)) (sigs : Dict String (List ℕ))
      (by_id : Dict String (MentionRecord F))
      → (grouped : Dict String (List (MentionRecord F))) × (rep : String → String) × (near_groups
            digests config sets sigs by_id
          ≡ some grouped)
        × ((root : String)
            → items_at root grouped ≡ found_of by_id (filter (λ mid. rep mid == root) (keys sigs)))
        × ((j k : String) → (rep j ≡ rep k) ↔ Linked (united_pairs digests config sets sigs) j k)
  unfolding near_groups Collects get
  near_groups-Linked sets sigs by_id =
      let ids = keys sigs in
      let (forest, rep, height, united, f, closure) =
        unions-closure ids (united_pairs digests config sets sigs)
          (united_pairs-AreInside digests config sets sigs) in
      let low : All (λ mid. height mid < length ids) ids =
        All-map (λ mid h. omega (arith, f.low mid h, count-le-length (λ j. rep j == rep mid) ids))
          ids (ids_stand ids) in
      let (grouped, collected_all, groups) =
        group_by_root-Collects by_id rep height (length ids) ids forest [] f.stands low in
      (grouped, rep, rw (near_groups, united) collected_all, groups, closure)

  -- In a batch of at most 64 ids whose sets of shingles have no repetition, the groups are given,
  -- and they are the classes of the mentions that a chain of similar ones links, whatever the
  -- signatures and the buckets are.
  pub near_groups-chained :
      (sets : Dict String (List String)) (sigs : Dict String (List ℕ))
      (by_id : Dict String (MentionRecord F))
      → HasDistinctSets digests config sets
      → length (keys sigs) ≤ brute_force_threshold
      → (grouped : Dict String (List (MentionRecord F))) × (rep : String → String) × (near_groups
            digests config sets sigs by_id
          ≡ some grouped)
        × ((root : String)
            → items_at root grouped ≡ found_of by_id (filter (λ mid. rep mid == root) (keys sigs)))
        × ((j k : String)
            → (rep j ≡ rep k) ↔ Chain (is_similar digests config sets) (keys sigs) j k)
  near_groups-chained sets sigs by_id distinct small =
      let (grouped, rep, done, groups, linked) = near_groups-Linked sets sigs by_id in
      (
        grouped,
        rep,
        done,
        groups,
        λ j k. (
          λ e. Linked-Chain digests config sets sigs ((linked j k).0 e),
          λ c. (linked j k).1 (Chain-Linked digests config sets sigs distinct small c),
        ),
      )
