-- ===== src/Dedup.antt =====
-- The deduplication of mentions (internal/dedup/usecase/annotate_dedup.py): its configuration and
-- records, and the helpers that both kinds of clusters use. The two digests of `hashlib` are
-- parameters; `F` is the type of floats.
pub mod UnionFind
pub mod Pairs
pub mod Exact
pub mod Near
pub mod Annotate
mod Examples
use analysis_srv.Prelude.{
  ℕ, String, Bool, true, false, not, ◌&&◌, ◌||◌, Option, none, some, List, [], ◌∷◌, ◌++◌, map,
  length, filter, head?, take, ltb, leb, nat_eq, if◌then◌else◌,
}
use Prim.Native.Nat.{◌/◌}
use analysis_srv.Prelude.Eq.{◌==◌, text_key}
use analysis_srv.Prelude.Float.{Float}
use analysis_srv.Prelude.Sets.{set_of, union_of, common_of}
use analysis_srv.Prelude.Sort.{sort_by}
use analysis_srv.Prelude.Text.{non_empty, len, not_after, replace_char}
use analysis_srv.Prelude.Text.Split.{words, join, substrings}
use analysis_srv.Model.Mention.{MentionRecord}

-- blake2b of a text: the hexadecimal digits of 20 bytes, and the number of 8 bytes.
pub record Digests : Type 0 where
  pub hex : String → String
  pub number : String → ℕ

pub record DedupConfig (F : Type 0) : Type 0 where
  pub exact_enabled : Bool
  pub near_enabled : Bool
  pub min_text_length : ℕ
  pub word_shingle_size : ℕ
  pub char_shingle_size : ℕ
  pub num_perm : ℕ
  pub num_bands : ℕ
  pub rows_per_band : ℕ
  pub near_similarity_threshold : F
  pub max_bucket_size : ℕ

abbrev at_least : ℕ → ℕ → ℕ
at_least m n = if ltb m n then n else m

-- The bounds that `__init__` puts on the numbers of permutations and bands.
unfoldable pub bounded : {F : Type 0} → DedupConfig F → DedupConfig F
bounded config =
    let num_perm = at_least config.num_perm 8 in
    let num_bands =
      at_least 1 (if ltb num_perm config.num_bands then num_perm else config.num_bands) in
    record config {
      num_perm = num_perm;
      num_bands = num_bands;
      rows_per_band = at_least 1 (num_perm / num_bands);
    }

pub record DedupClusterRecord (F : Type 0) : Type 0 where
  pub dedup_cluster_id : String
  pub dedup_kind : String
  pub representative_mention_id : String
  pub representative_text : String
  pub mention_ids : List String
  pub cluster_size : ℕ
  pub similarity_proxy : F
  pub text_fingerprint : Option String

pub record DedupAnalysisResult (F : Type 0) : Type 0 where
  pub mentions_updated : ℕ
  pub exact_cluster_count : ℕ
  pub near_cluster_count : ℕ
  pub clusters : List (DedupClusterRecord F)

-- Each item with each later one.
unfoldable pub pairs_of : {A : Type 0} → List A → List (A × A)
pairs_of [] = []
pairs_of (x ∷ xs) = map (λ y. (x, y)) xs ++ pairs_of xs

-- [xs[i:i + n] for i in range(len(xs) - n + 1)]
unfoldable pub windows : ℕ → List String → List (List String)
windows n [] = if nat_eq n 0 then [] ∷ [] else []
windows n (x ∷ xs) =
    let rest = windows n xs in if leb n (length (x ∷ xs)) then take n (x ∷ xs) ∷ rest else rest

module _ {F : Type 0} where
  -- The key of `_representative`: longest text, least depth, least id.
  unfoldable pub represents_before : MentionRecord F → MentionRecord F → Bool
  represents_before a b =
      let la = len a.normalized_text_compact in
      let lb = len b.normalized_text_compact in
      if ltb lb la
      then true
      else if ltb la lb
      then false
      else if ltb a.depth b.depth
      then true
      else if ltb b.depth a.depth
      then false
      else not_after a.mention_id b.mention_id

  -- Of a group with the mention `first`.
  unfoldable pub representative : MentionRecord F → List (MentionRecord F) → MentionRecord F
  representative first rest = elim (head? (sort_by represents_before (first ∷ rest))) [
    | none ↦ first
    | some m ↦ m
  ]

  unfoldable pub fingerprint : Digests → DedupConfig F → String → Option String
  fingerprint digests config text =
      let compact = join " " (words text) in
      if ltb (len compact) config.min_text_length then none else some (digests.hex compact)

  unfoldable pub shingles : DedupConfig F → String → List String
  shingles config text =
      let tokens = words text in
      let compact = replace_char 32 "" text in
      if leb config.word_shingle_size (length tokens)
      then set_of (map (join " ") (windows config.word_shingle_size tokens))
      else if leb config.char_shingle_size (len compact)
      then set_of (substrings config.char_shingle_size compact)
      else if non_empty text
      then text ∷ []
      else []

module _ {F : Type 0} ⦃fl : Float F⦄ where
  unfoldable pub jaccard : List String → List String → F
  jaccard left right =
      if nat_eq (length left) 0 && nat_eq (length right) 0
      then fl.lit 1 1
      else if nat_eq (length (union_of left right)) 0
      then fl.lit 0 1
      else fl.round 4 (
          fl.div (fl.lit (length (common_of left right)) 1)
            (fl.lit (length (union_of left right)) 1))
