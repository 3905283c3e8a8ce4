-- ===== src/Dedup/Annotate.antt =====
-- `annotate` of the deduplication service: the clusters, written on the mentions.
pub mod Laws
use analysis_srv.Prelude.{
  ℕ, String, Bool, Option, none, some, List, [], ◌∷◌, ◌++◌, map, flatten, length, count, ltb,
  if◌then◌else◌,
}
use analysis_srv.Prelude.Eq.{text_key}
use analysis_srv.Prelude.Dict.{Dict, get, set, values}
use analysis_srv.Prelude.Float.{Float}
use analysis_srv.Model.Mention.{MentionRecord}
use analysis_srv.Dedup.{Digests, DedupConfig, at_least, DedupClusterRecord, DedupAnalysisResult}
use analysis_srv.Dedup.Exact.{exact_clusters}
use analysis_srv.Dedup.Near.Clusters.{near_clusters}

-- The dict of the fields that a cluster changes in its mentions.
pub record Update (F : Type 0) : Type 0 where
  pub dedup_cluster_id : String
  pub dedup_kind : String
  pub dedup_representative_mention_id : String
  pub dedup_cluster_size : ℕ
  pub dedup_similarity : F
  pub dedup_weight : F

module _ {F : Type 0} ⦃fl : Float F⦄ where
  unfoldable pub update_of : DedupClusterRecord F → Update F
  update_of cluster = record {
    dedup_cluster_id = cluster.dedup_cluster_id;
    dedup_kind = cluster.dedup_kind;
    dedup_representative_mention_id = cluster.representative_mention_id;
    dedup_cluster_size = cluster.cluster_size;
    dedup_similarity = cluster.similarity_proxy;
    dedup_weight = fl.round 6 (fl.div (fl.lit 1 1) (fl.lit (at_least cluster.cluster_size 1) 1));
  }

  -- for mention_id in mention_ids: updates[mention_id] = update
  unfoldable pub write_update :
      Update F → List String → Dict String (Update F) → Dict String (Update F)
  write_update update [] updates = updates
  write_update update (mention_id ∷ mention_ids) updates =
      write_update update mention_ids (set mention_id update updates)

  unfoldable pub annotations_onto :
      Dict String (Update F) → List (DedupClusterRecord F) → Dict String (Update F)
  annotations_onto updates [] = updates
  annotations_onto updates (cluster ∷ clusters) =
      annotations_onto (write_update (update_of cluster) cluster.mention_ids updates) clusters

  unfoldable pub annotation_map : List (DedupClusterRecord F) → Dict String (Update F)
  annotation_map clusters = annotations_onto [] clusters

  -- dataclasses.replace(mention, **annotations.get(mention.mention_id, {}))
  unfoldable pub annotated : Dict String (Update F) → MentionRecord F → MentionRecord F
  annotated annotations mention = elim (get mention.mention_id annotations) [
    | none ↦ mention
    | some update ↦ record mention {
      dedup_cluster_id = some update.dedup_cluster_id;
      dedup_kind = some update.dedup_kind;
      dedup_representative_mention_id = some update.dedup_representative_mention_id;
      dedup_cluster_size = update.dedup_cluster_size;
      dedup_similarity = some update.dedup_similarity;
      dedup_weight = update.dedup_weight;
    }
  ]

  abbrev pub member_ids : List (DedupClusterRecord F) → List String
  member_ids clusters = flatten (map (λ c. c.mention_ids) clusters)

  -- The end of `annotate`. An update is never an empty dict, so that all of them are counted.
  unfoldable pub annotate_with :
      List (MentionRecord F)
      → List (DedupClusterRecord F)
      → List (DedupClusterRecord F)
      → List (MentionRecord F) × DedupAnalysisResult F
  annotate_with mentions exact near = (
    map (annotated (annotation_map (exact ++ near))) mentions,
    record {
      mentions_updated = length (values (annotation_map (exact ++ near)));
      exact_cluster_count = count (λ c. ltb 1 c.cluster_size) exact;
      near_cluster_count = count (λ c. ltb 1 c.cluster_size) near;
      clusters = exact ++ near;
    },
  )

  module _ (digests : Digests) (config : DedupConfig F) where
    unfoldable pub exact_part : List (MentionRecord F) → List (DedupClusterRecord F)
    exact_part mentions =
        if config.exact_enabled then exact_clusters digests config mentions else []

    unfoldable pub near_part :
        List (MentionRecord F) → List (DedupClusterRecord F) → Option (List (DedupClusterRecord F))
    near_part mentions exact =
        if config.near_enabled
        then near_clusters digests config (member_ids exact) mentions
        else some []

    -- `none` where the fuel of a `find` runs out.
    unfoldable pub annotate :
        List (MentionRecord F) → Option (List (MentionRecord F) × DedupAnalysisResult F)
    annotate [] = some (
      [],
      record {
        mentions_updated = 0;
        exact_cluster_count = 0;
        near_cluster_count = 0;
        clusters = [];
      },
    )
    annotate (m ∷ ms) = elim (near_part (m ∷ ms) (exact_part (m ∷ ms))) [
      | none ↦ none
      | some near ↦ some (annotate_with (m ∷ ms) (exact_part (m ∷ ms)) near)
    ]
