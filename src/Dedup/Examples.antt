-- ===== src/Dedup/Examples.antt =====
-- A batch of three mentions, two of them with one text.
use analysis_srv.Prelude.{
  ℕ, ◌≡◌, ◌↔◌, refl, String, true, none, some, List, [], ◌∷◌, ◌++◌, arith, map, filter, All,
  if◌then◌else◌,
}
use analysis_srv.Prelude.Int.{ℤ, pos}
use analysis_srv.Prelude.Float.{scaled}
use analysis_srv.Prelude.Eq.{◌==◌, text_key}
use analysis_srv.Prelude.Dict.{Dict, get, keys, items_at}
use analysis_srv.Prelude.Sets.{member}
use analysis_srv.Prelude.Text.{len}
use analysis_srv.Model.Mention.{MentionRecord}
use analysis_srv.Model.Samples.{sample_mention}
use analysis_srv.Dedup.{Digests, DedupConfig, DedupClusterRecord, DedupAnalysisResult}
use analysis_srv.Dedup.UnionFind.{singletons, find, unions}
use analysis_srv.Dedup.UnionFind.Links.{Linked}
use analysis_srv.Dedup.UnionFind.Closure.{find_decides}
use analysis_srv.Dedup.Exact.{exact_clusters}
use analysis_srv.Dedup.Exact.Laws.{IsExact, exact_clusters-IsExact}
use analysis_srv.Dedup.Near.{is_similar, shingles_onto}
use analysis_srv.Dedup.Near.Similar.{shingles_onto-distinct}
use analysis_srv.Dedup.Near.Clusters.{near_groups, near_clusters}
use analysis_srv.Dedup.Near.Chains.{Chain}
use analysis_srv.Dedup.Near.Chains.Groups.{found_of, near_groups-chained}
use analysis_srv.Dedup.Near.Members.{IsApart, near_clusters-IsApart}
use analysis_srv.Dedup.Annotate.{annotated, annotation_map, member_ids, exact_part, annotate}
use analysis_srv.Dedup.Annotate.Laws.{annotate_lem}

-- Digests that are easy to read.
abbrev digests : Digests
digests = record { hex = λ text. text; number = len }

abbrev config : DedupConfig ℤ
config = record {
  exact_enabled = true;
  near_enabled = true;
  min_text_length = 3;
  word_shingle_size = 1;
  char_shingle_size = 2;
  num_perm = 8;
  num_bands = 4;
  rows_per_band = 2;
  near_similarity_threshold = pos 500_000;
  max_bucket_size = 256;
}

abbrev batch : List (MentionRecord ℤ)
batch =
    sample_mention "m1" none "good car"
    ∷ sample_mention "m2" none "good car"
    ∷ sample_mention "m3" none "a good car"
    ∷ []

abbrev items : List String
items = "a" ∷ "b" ∷ "c" ∷ []

abbrev united : List (String × String)
united = ("a", "b") ∷ []

find_decides_example :
    (p q r : Dict String String) × (root_a root_c : String) × (unions 3 united (singletons items)
      ≡ some p)
    × (find 3 "a" p ≡ some (root_a, q))
    × (find 3 "c" q ≡ some (root_c, r))
    × ((root_a ≡ root_c) ↔ Linked united "a" "c")
find_decides_example = find_decides items united "a" "c" ((refl, refl), tt) refl refl

abbrev sigs : Dict String (List ℕ)
sigs = ("m1", 1 ∷ []) ∷ ("m3", 2 ∷ []) ∷ []

abbrev by_id : Dict String (MentionRecord ℤ)
by_id =
    ("m1", sample_mention "m1" none "good car") ∷ ("m3", sample_mention "m3" none "a good car") ∷ []

abbrev sets : Dict String (List String)
sets = shingles_onto digests config [] batch

near_groups-chained_example :
    (grouped : Dict String (List (MentionRecord ℤ))) × (rep : String → String) × (near_groups
        digests config sets sigs by_id
      ≡ some grouped)
    × ((root : String)
        → items_at root grouped ≡ found_of by_id (filter (λ mid. rep mid == root) (keys sigs)))
    × ((j k : String) → (rep j ≡ rep k) ↔ Chain (is_similar digests config sets) (keys sigs) j k)
unfolding get
near_groups-chained_example =
    near_groups-chained digests config sets sigs by_id
      (shingles_onto-distinct digests config [] batch (λ k x. omega arith)) (omega arith)

exact_clusters-IsExact_example :
    All (IsExact digests config batch) (exact_clusters digests config batch)
exact_clusters-IsExact_example = exact_clusters-IsExact digests config batch

near_clusters-IsApart_example :
    (clusters : List (DedupClusterRecord ℤ)) × (near_clusters digests config
        ("m1" ∷ "m2" ∷ [])
        batch
      ≡ some clusters)
    × All (IsApart ("m1" ∷ "m2" ∷ [])) clusters
near_clusters-IsApart_example = near_clusters-IsApart digests config ("m1" ∷ "m2" ∷ []) batch

annotate_lem_example :
    (r : List (MentionRecord ℤ) × DedupAnalysisResult ℤ) × (near : List (DedupClusterRecord ℤ))
    × (annotate digests config batch ≡ some r)
    × (r.1.clusters ≡ exact_part digests config batch ++ near)
    × (r.0 ≡ map (annotated (annotation_map r.1.clusters)) batch)
    × (annotated (annotation_map r.1.clusters) (sample_mention "m1" none "good car")
        ≡ annotated
            (annotation_map (
              if member "m1" (member_ids (exact_part digests config batch))
              then exact_part digests config batch
              else near))
            (sample_mention "m1" none "good car"))
annotate_lem_example = annotate_lem digests config batch (sample_mention "m1" none "good car")
