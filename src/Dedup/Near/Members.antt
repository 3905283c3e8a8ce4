-- ===== src/Dedup/Near/Members.antt =====
-- The members of the near clusters: none is among the exact members, and a cluster has at least two.
use mathlib.Core.Path.{subst}
use analysis_srv.Prelude.{
  ℕ, ◌≤◌, ◌≡◌, refl, ◌∙◌, String, false, Option, none, some, List, [], ◌∷◌, arith, Bool-cases,
  Option-cases, inl, inr, map, length, All, ltb, length-map,
}
use analysis_srv.Prelude.Eq.{text_key}
use analysis_srv.Prelude.Dict.{Dict, get, set, keys, values}
use analysis_srv.Prelude.Dict.Laws.{All-set}
use analysis_srv.Prelude.Float.{Float}
use analysis_srv.Prelude.Sets.{member}
use analysis_srv.Prelude.Sort.{sort_by, sort_by-All, length-sort_by}
use analysis_srv.Prelude.Text.{not_after}
use analysis_srv.Model.Mention.{MentionRecord}
use analysis_srv.Dedup.{Digests, DedupConfig, DedupClusterRecord}
use analysis_srv.Dedup.UnionFind.{find, singletons, unions}
use analysis_srv.Dedup.Near.{
  candidates, shingles_onto, signatures, by_id_onto, push_found, group_by_root, united_pairs,
}
use analysis_srv.Prelude.Dict.Keys.{push_at-All}
use analysis_srv.Dedup.Near.Chains.Groups.{near_groups-Linked}
use analysis_srv.Dedup.Near.Clusters.{
  near_groups, near_cluster, near_clusters_of, larger_first, near_clusters,
}

module _ {F : Type 0} where
  abbrev pub IsOutside : List String → MentionRecord F → Type 0
  IsOutside exact_members m = member m.mention_id exact_members ≡ false

  -- At least two members, as many as the size says, and none among the exact ones.
  abbrev pub IsApart : List String → DedupClusterRecord F → Type 0
  IsApart exact_members c =
      All (λ mid. member mid exact_members ≡ false) c.mention_ids
      × (2 ≤ c.cluster_size)
      × (length c.mention_ids ≡ c.cluster_size)

  get-All :
      (P : MentionRecord F → Type 0) (k : String) (d : Dict String (MentionRecord F))
      (m : MentionRecord F)
      → All P (values d)
      → get k d ≡ some m
      → P m
  unfolding get
  get-All P k [] m a h = cc
  get-All P k ((j, n) ∷ d) m a h = ground (arith, get-All P k d m a.1)

module _ {F : Type 0} ⦃fl : Float F⦄ (digests : Digests) (config : DedupConfig F) where
  module _ (P : MentionRecord F → Type 0) where
    by_id_onto-All :
        (d : Dict String (MentionRecord F)) (mentions : List (MentionRecord F))
        → All P mentions
        → All P (values d)
        → All P (values (by_id_onto digests config d mentions))
    unfolding by_id_onto
    by_id_onto-All d [] h a = a
    by_id_onto-All d (m ∷ mentions) h a =
        by_id_onto-All (set m.mention_id m d) mentions h.1 (All-set P m.mention_id m d h.0 a)

    push_found-All :
        (root : String) (m : Option (MentionRecord F))
        (grouped : Dict String (List (MentionRecord F)))
        → ((x : MentionRecord F) → m ≡ some x → P x)
        → All (All P) (values grouped)
        → All (All P) (values (push_found digests config root m grouped))
    push_found-All root none grouped h a = a
    push_found-All root (some m) grouped h a = push_at-All P root m grouped (h m refl) a

    group_by_root-All :
        (fuel : ℕ) (by_id : Dict String (MentionRecord F)) (ids : List String)
        (forest : Dict String String) (grouped after : Dict String (List (MentionRecord F)))
        → All P (values by_id)
        → All (All P) (values grouped)
        → group_by_root digests config fuel by_id ids forest grouped ≡ some after
        → All (All P) (values after)
    unfolding group_by_root
    group_by_root-All fuel by_id [] forest grouped after b a h =
        let same : grouped ≡ after = cc in subst (λ d. All (All P) (values d)) same a
    group_by_root-All fuel by_id (mid ∷ ids) forest grouped after b a h =
        elim (Option-cases (find fuel mid forest)) [
          | inl e ↦ cc (h, e)
          | inr ((root, forest'), e) ↦
              group_by_root-All fuel by_id ids forest'
                (push_found digests config root (get mid by_id) grouped) after b
                (push_found-All root (get mid by_id) grouped (λ x. get-All P mid by_id x b) a)
                (rw (group_by_root, e) at h)
        ]

    near_groups-All :
        (sets : Dict String (List String)) (sigs : Dict String (List ℕ))
        (by_id : Dict String (MentionRecord F)) (grouped : Dict String (List (MentionRecord F)))
        → All P (values by_id)
        → near_groups digests config sets sigs by_id ≡ some grouped
        → All (All P) (values grouped)
    unfolding near_groups
    near_groups-All sets sigs by_id grouped b h =
        elim (Option-cases (
          unions (length (keys sigs)) (united_pairs digests config sets sigs)
            (singletons (keys sigs)))) [
              | inl e ↦ cc (h, e)
              | inr (forest, e) ↦
                  group_by_root-All (length (keys sigs)) by_id (keys sigs) forest [] grouped b tt
                    (rw (near_groups, e) at h)
            ]

  near_clusters_of-IsApart :
      (exact_members : List String) (sets : Dict String (List String))
      (groups : List (List (MentionRecord F)))
      → All (All (IsOutside exact_members)) groups
      → All (IsApart exact_members) (near_clusters_of digests config sets groups)
  unfolding near_clusters_of near_cluster
  near_clusters_of-IsApart exact_members sets [] h = tt
  near_clusters_of-IsApart exact_members sets ([] ∷ groups) h =
      near_clusters_of-IsApart exact_members sets groups h.1
  near_clusters_of-IsApart exact_members sets ((only ∷ []) ∷ groups) h =
      near_clusters_of-IsApart exact_members sets groups h.1
  near_clusters_of-IsApart exact_members sets ((first ∷ second ∷ rest) ∷ groups) h = (
    (
      sort_by-All not_after (λ mid. member mid exact_members ≡ false)
          (map (λ m. m.mention_id) (first ∷ second ∷ rest))
          (ids-All exact_members (first ∷ second ∷ rest) h.0),
      omega arith,
      length-sort_by not_after (map (λ m. m.mention_id) (first ∷ second ∷ rest))
          ∙ length-map (λ m. m.mention_id) (first ∷ second ∷ rest),
    ),
    near_clusters_of-IsApart exact_members sets groups h.1,
  )
    where
      ids-All :
          (exact_members : List String) (ms : List (MentionRecord F))
          → All (IsOutside exact_members) ms
          → All (λ mid. member mid exact_members ≡ false) (map (λ m. m.mention_id) ms)
      ids-All exact_members [] h = tt
      ids-All exact_members (m ∷ ms) h = (h.0, ids-All exact_members ms h.1)

  candidates-IsOutside :
      (exact_members : List String) (mentions : List (MentionRecord F))
      → All (IsOutside exact_members) (candidates digests config exact_members mentions)
  unfolding candidates
  candidates-IsOutside exact_members [] = tt
  candidates-IsOutside exact_members (m ∷ mentions) =
      ground (arith, candidates-IsOutside exact_members mentions)

  -- `_near_clusters` ends with a result; each of its clusters has at least two members, as many as its
  -- size says, and none of them is an exact member.
  pub near_clusters-IsApart :
      (exact_members : List String) (mentions : List (MentionRecord F))
      → (clusters : List (DedupClusterRecord F)) × (near_clusters digests config exact_members
            mentions
          ≡ some clusters)
        × All (IsApart exact_members) clusters
  unfolding near_clusters
  near_clusters-IsApart exact_members mentions =
      let found = candidates digests config exact_members mentions in
      let sets = shingles_onto digests config [] found in
      let sigs = signatures digests config sets in
      let by_id = by_id_onto digests config [] found in
      let outside =
        by_id_onto-All (IsOutside exact_members) [] found
          (candidates-IsOutside exact_members mentions) tt in
      let (grouped, rep, done, groups, linked) =
        near_groups-Linked digests config sets sigs by_id in
      let unordered = near_clusters_of digests config sets (values grouped) in
      let apart =
        near_clusters_of-IsApart exact_members sets (values grouped)
          (near_groups-All (IsOutside exact_members) sets sigs by_id grouped outside done) in
      elim (Bool-cases (ltb (length found) 2)) [
        | inl e ↦ rw (near_clusters, e) ([], refl, tt)
        | inr e ↦ elim (Bool-cases (ltb (length sigs) 2)) [
          | inl f ↦ rw (near_clusters, e, f) ([], refl, tt)
          | inr f ↦
              rw (near_clusters, e, f, done)
                (
                  sort_by (larger_first digests config) unordered,
                  refl,
                  sort_by-All (larger_first digests config) (IsApart exact_members) unordered apart,
                )
        ]
      ]
