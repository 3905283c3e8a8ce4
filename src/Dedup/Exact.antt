-- ===== src/Dedup/Exact.antt =====
-- `_exact_clusters`: the mentions of one fingerprint.
pub mod Laws
use analysis_srv.Prelude.{
  ℕ, String, Bool, true, false, Option, none, some, List, [], ◌∷◌, map, length,
}
use Prim.Native.String.{◌++◌ as ◌+s◌}
use analysis_srv.Prelude.Eq.{◌==◌, text_key}
use analysis_srv.Prelude.Dict.{Dict, push_at}
use analysis_srv.Prelude.Float.{Float}
use analysis_srv.Prelude.Sort.{sort_by}
use analysis_srv.Prelude.Text.{not_after, take_chars}
use analysis_srv.Model.Mention.{MentionRecord}
use analysis_srv.Dedup.{Digests, DedupConfig, DedupClusterRecord, representative, fingerprint}

module _ {F : Type 0} ⦃fl : Float F⦄ (digests : Digests) (config : DedupConfig F) where
  -- The groups, from those of the mentions so far.
  unfoldable pub group_onto_fingerprints :
      Dict String (List (MentionRecord F))
      → List (MentionRecord F)
      → Dict String (List (MentionRecord F))
  group_onto_fingerprints groups [] = groups
  group_onto_fingerprints groups (mention ∷ mentions) =
      elim (fingerprint digests config mention.normalized_text_compact) [
        | none ↦ group_onto_fingerprints groups mentions
        | some print ↦ group_onto_fingerprints (push_at print mention groups) mentions
      ]

  unfoldable pub exact_cluster :
      String → MentionRecord F → List (MentionRecord F) → DedupClusterRecord F
  exact_cluster print first rest =
      let chosen = representative first rest in
      record {
        dedup_cluster_id = "exact:" +s take_chars 16 print;
        dedup_kind = "exact";
        representative_mention_id = chosen.mention_id;
        representative_text = chosen.raw_text;
        mention_ids = map (λ m. m.mention_id) (first ∷ rest);
        cluster_size = length (first ∷ rest);
        similarity_proxy = fl.lit 1 1;
        text_fingerprint = some print;
      }

  -- Groups of one mention are passed over.
  unfoldable pub clusters_of : Dict String (List (MentionRecord F)) → List (DedupClusterRecord F)
  clusters_of [] = []
  clusters_of ((print, []) ∷ groups) = clusters_of groups
  clusters_of ((print, only ∷ []) ∷ groups) = clusters_of groups
  clusters_of ((print, first ∷ second ∷ rest) ∷ groups) =
      exact_cluster print first (second ∷ rest) ∷ clusters_of groups

  abbrev pub prints_in_order :
      String × List (MentionRecord F) → String × List (MentionRecord F) → Bool
  prints_in_order a b = not_after a.0 b.0

  unfoldable pub exact_clusters : List (MentionRecord F) → List (DedupClusterRecord F)
  exact_clusters mentions =
      clusters_of (sort_by prints_in_order (group_onto_fingerprints [] mentions))
