-- ===== src/Dedup/Near/Clusters.antt =====
-- The end of `_near_clusters`: from the candidates to the groups, and from the groups to the clusters.
use Prim.Native.String.{◌++◌ as ◌+s◌}
use analysis_srv.Prelude.{
  ℕ, String, Bool, true, false, Option, none, some, List, [], ◌∷◌, map, length, ltb, nat_eq,
  if◌then◌else◌,
}
use analysis_srv.Prelude.Eq.{text_key}
use analysis_srv.Prelude.Dict.{Dict, keys, items_at}
use analysis_srv.Prelude.Float.{Float}
use analysis_srv.Prelude.Sort.{sort_by}
use analysis_srv.Prelude.Text.{not_after, take_chars}
use analysis_srv.Prelude.Text.Split.{join}
use analysis_srv.Model.Mention.{MentionRecord}
use analysis_srv.Dedup.{Digests, DedupConfig, DedupClusterRecord, pairs_of, representative, jaccard}
use analysis_srv.Dedup.UnionFind.{singletons, unions}
use analysis_srv.Dedup.Near.{
  candidates, shingles_onto, signatures, united_pairs, by_id_onto, group_by_root,
}

module _ {F : Type 0} ⦃fl : Float F⦄ (digests : Digests) (config : DedupConfig F) where
  -- The groups of the mentions with the ids of `sigs`; the fuel is their number.
  unfoldable pub near_groups :
      Dict String (List String)
      → Dict String (List ℕ)
      → Dict String (MentionRecord F)
      → Option (Dict String (List (MentionRecord F)))
  near_groups shingle_sets sigs by_id =
      elim (unions (length (keys sigs)) (united_pairs digests config shingle_sets sigs)
        (singletons (keys sigs))) [
          | none ↦ none
          | some forest ↦
              group_by_root digests config (length (keys sigs)) by_id (keys sigs) forest []
        ]

  abbrev add_similarity :
      Dict String (List String) → F → List (MentionRecord F × MentionRecord F) → F
  add_similarity shingle_sets total [] = total
  add_similarity shingle_sets total ((a, b) ∷ pairs) =
      add_similarity shingle_sets
        (fl.add total
          (jaccard (items_at a.mention_id shingle_sets) (items_at b.mention_id shingle_sets)))
        pairs

  unfoldable pub cluster_similarity : Dict String (List String) → List (MentionRecord F) → F
  cluster_similarity shingle_sets mentions =
      let pairs = pairs_of mentions in
      if ltb (length mentions) 2
      then fl.lit 1 1
      else if nat_eq (length pairs) 0
      then fl.lit 1 1
      else fl.round 4
          (fl.div (add_similarity shingle_sets (fl.lit 0 1) pairs) (fl.lit (length pairs) 1))

  unfoldable pub cluster_hash : List (MentionRecord F) → String
  cluster_hash mentions =
      digests.hex (join "|" (sort_by not_after (map (λ m. m.normalized_text_compact) mentions)))

  unfoldable pub near_cluster :
      Dict String (List String) → MentionRecord F → List (MentionRecord F) → DedupClusterRecord F
  near_cluster shingle_sets first rest =
      let chosen = representative first rest in
      record {
        dedup_cluster_id = "near:" +s take_chars 16 (cluster_hash (first ∷ rest));
        dedup_kind = "near";
        representative_mention_id = chosen.mention_id;
        representative_text = chosen.raw_text;
        mention_ids = sort_by not_after (map (λ m. m.mention_id) (first ∷ rest));
        cluster_size = length (first ∷ rest);
        similarity_proxy = cluster_similarity shingle_sets (first ∷ rest);
        text_fingerprint = some (cluster_hash (first ∷ rest));
      }

  unfoldable pub near_clusters_of :
      Dict String (List String) → List (List (MentionRecord F)) → List (DedupClusterRecord F)
  near_clusters_of shingle_sets [] = []
  near_clusters_of shingle_sets ([] ∷ groups) = near_clusters_of shingle_sets groups
  near_clusters_of shingle_sets ((only ∷ []) ∷ groups) = near_clusters_of shingle_sets groups
  near_clusters_of shingle_sets ((first ∷ second ∷ rest) ∷ groups) =
      near_cluster shingle_sets first (second ∷ rest) ∷ near_clusters_of shingle_sets groups

  -- The key (-cluster_size, dedup_cluster_id).
  unfoldable pub larger_first : DedupClusterRecord F → DedupClusterRecord F → Bool
  larger_first a b =
      if ltb b.cluster_size a.cluster_size
      then true
      else if ltb a.cluster_size b.cluster_size
      then false
      else not_after a.dedup_cluster_id b.dedup_cluster_id

  abbrev ordered_clusters :
      Dict String (List String)
      → Option (Dict String (List (MentionRecord F)))
      → Option (List (DedupClusterRecord F))
  ordered_clusters shingle_sets none = none
  ordered_clusters shingle_sets (some groups) =
      some (sort_by larger_first (near_clusters_of shingle_sets (map (λ g. g.1) groups)))

  unfoldable pub near_clusters :
      List String → List (MentionRecord F) → Option (List (DedupClusterRecord F))
  near_clusters exact_members mentions =
      let found = candidates digests config exact_members mentions in
      let shingle_sets = shingles_onto digests config [] found in
      let sigs = signatures digests config shingle_sets in
      if ltb (length found) 2
      then some []
      else if ltb (length sigs) 2
      then some []
      else ordered_clusters shingle_sets
          (near_groups shingle_sets sigs (by_id_onto digests config [] found))
