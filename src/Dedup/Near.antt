-- ===== src/Dedup/Near.antt =====
-- `_near_clusters`: MinHash signatures, band buckets, the union of similar mentions, and the clusters.
-- A mention's shingles and signature are found under its id, since both dicts are built from the
-- candidates; where the source would raise a `KeyError`, which it never does, the shingles are empty
-- and the mention is passed over.
pub mod Clusters
pub mod Similar
pub mod Chains
pub mod Members
use Prim.Native.Nat.{bit_and, bit_xor, ◌^◌}
use Prim.Native.String.{◌++◌ as ◌+s◌}
use analysis_srv.Prelude.{
  ℕ, zero, suc, ◌+◌, ◌-◌, ◌*◌, String, Bool, true, false, not, ◌&&◌, ◌||◌, Option, none, some, List,
  [], ◌∷◌, ◌++◌, map, length, filter, take, ltb, leb, flatten, if◌then◌else◌,
}
use analysis_srv.Prelude.Eq.{◌==◌, text_key, nat_key, pair_key, list_key}
use analysis_srv.Prelude.Dict.{Dict, get, set, keys, values, push_at, items_at}
use analysis_srv.Prelude.Float.{Float}
use analysis_srv.Prelude.Sets.{member}
use analysis_srv.Prelude.Sort.{sort_by}
use analysis_srv.Prelude.Text.{len, not_after, take_chars}
use analysis_srv.Prelude.Text.Split.{join}
use analysis_srv.Model.Mention.{MentionRecord}
use analysis_srv.Dedup.{
  Digests, DedupConfig, DedupClusterRecord, pairs_of, representative, shingles, jaccard,
}
use analysis_srv.Dedup.UnionFind.{singletons, find, unions}

abbrev pub brute_force_threshold : ℕ
brute_force_threshold = 64

abbrev lowest : ℕ → List ℕ → ℕ
lowest n [] = n
lowest n (m ∷ ms) = lowest (if ltb m n then m else n) ms

abbrev drop : ℕ → List ℕ → List ℕ
drop zero xs = xs
drop (suc n) [] = []
drop (suc n) (x ∷ xs) = drop n xs

-- One value, mixed with a seed and cut to 64 bits.
abbrev mixed : ℕ → ℕ → ℕ
mixed seed v = bit_and (bit_xor v ((seed + 1) * 0x9E3779B97F4A7C15)) 0xFFFFFFFFFFFFFFFF

-- The signature's entries for `n` seeds from `seed`.
unfoldable pub signature_from : ℕ → ℕ → ℕ → List ℕ → List ℕ
signature_from zero seed v vs = []
signature_from (suc n) seed v vs =
    lowest (mixed seed v) (map (mixed seed) vs) ∷ signature_from n (seed + 1) v vs

unfoldable pub signature_of : ℕ → List ℕ → List ℕ
signature_of num_perm [] = []
signature_of num_perm (v ∷ vs) = signature_from num_perm 0 v vs

-- What a bucket is found under: the band's index and its rows.
abbrev pub Band : Type 0
Band = ℕ × List ℕ

module _ {F : Type 0} ⦃fl : Float F⦄ (digests : Digests) (config : DedupConfig F) where
  unfoldable pub candidates : List String → List (MentionRecord F) → List (MentionRecord F)
  candidates exact_members = filter (λ m.
      not (member m.mention_id exact_members)
      && leb config.min_text_length (len m.normalized_text_compact))

  unfoldable pub shingles_onto :
      Dict String (List String) → List (MentionRecord F) → Dict String (List String)
  shingles_onto d [] = d
  shingles_onto d (m ∷ mentions) =
      shingles_onto (set m.mention_id (shingles config m.normalized_text_compact) d) mentions

  unfoldable pub minhash_signature : List String → List ℕ
  minhash_signature items = signature_of config.num_perm (map digests.number items)

  unfoldable pub signatures : Dict String (List String) → Dict String (List ℕ)
  signatures [] = []
  signatures ((mid, []) ∷ rest) = signatures rest
  signatures ((mid, item ∷ items) ∷ rest) =
      (mid, minhash_signature (item ∷ items)) ∷ signatures rest

  -- The bands of a signature from number `band_index` on, for `n` of them.
  unfoldable pub bands_from : ℕ → ℕ → List ℕ → List Band
  bands_from zero band_index signature = []
  bands_from (suc n) band_index signature =
      elim (take config.rows_per_band (drop (band_index * config.rows_per_band) signature)) [
        | [] ↦ bands_from n (band_index + 1) signature
        | row ∷ rows ↦ (band_index, row ∷ rows) ∷ bands_from n (band_index + 1) signature
      ]

  unfoldable pub push_bands : String → List Band → Dict Band (List String) → Dict Band (List String)
  push_bands mid [] buckets = buckets
  push_bands mid (band ∷ bands) buckets = push_bands mid bands (push_at band mid buckets)

  unfoldable pub buckets_onto :
      Dict Band (List String) → Dict String (List ℕ) → Dict Band (List String)
  buckets_onto buckets [] = buckets
  buckets_onto buckets ((mid, signature) ∷ rest) =
      buckets_onto (push_bands mid (bands_from config.num_bands 0 signature) buckets) rest

  unfoldable pub is_similar : Dict String (List String) → String × String → Bool
  is_similar shingle_sets pair =
      fl.le config.near_similarity_threshold
        (jaccard (items_at pair.0 shingle_sets) (items_at pair.1 shingle_sets))

  -- The pairs that the loop over the buckets unites.
  unfoldable pub bucket_pairs :
      Dict String (List String) → List (List String) → List (String × String)
  bucket_pairs shingle_sets [] = []
  bucket_pairs shingle_sets (bucket ∷ buckets) =
      let rest = bucket_pairs shingle_sets buckets in
      if ltb (length bucket) 2 || ltb config.max_bucket_size (length bucket)
      then rest
      else filter (is_similar shingle_sets) (pairs_of bucket) ++ rest

  -- Those that the comparison of all pairs unites, in a small batch.
  unfoldable pub brute_pairs : Dict String (List String) → List String → List (String × String)
  brute_pairs shingle_sets ids =
      if leb (length ids) brute_force_threshold
      then filter (is_similar shingle_sets) (pairs_of ids)
      else []

  unfoldable pub united_pairs :
      Dict String (List String) → Dict String (List ℕ) → List (String × String)
  united_pairs shingle_sets sigs =
      bucket_pairs shingle_sets (values (buckets_onto [] sigs))
      ++ brute_pairs shingle_sets (keys sigs)

  unfoldable pub by_id_onto :
      Dict String (MentionRecord F) → List (MentionRecord F) → Dict String (MentionRecord F)
  by_id_onto d [] = d
  by_id_onto d (m ∷ mentions) = by_id_onto (set m.mention_id m d) mentions

  abbrev push_found :
      String
      → Option (MentionRecord F)
      → Dict String (List (MentionRecord F))
      → Dict String (List (MentionRecord F))
  push_found root none grouped = grouped
  push_found root (some m) grouped = push_at root m grouped

  -- The loop that collects the mentions under their roots; each `find` may compress paths.
  unfoldable pub group_by_root :
      ℕ
      → Dict String (MentionRecord F)
      → List String
      → Dict String String
      → Dict String (List (MentionRecord F))
      → Option (Dict String (List (MentionRecord F)))
  group_by_root fuel by_id [] forest grouped = some grouped
  group_by_root fuel by_id (mid ∷ ids) forest grouped = elim (find fuel mid forest) [
    | none ↦ none
    | some (root, forest') ↦
        group_by_root fuel by_id ids forest' (push_found root (get mid by_id) grouped)
  ]
