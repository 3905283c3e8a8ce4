-- ===== src/Dedup/Near/Similar.antt =====
-- Similarity is the same from both sides, and the united pairs are similar ones.
use analysis_srv.Prelude.{
  ◌≡◌, refl, ap, String, Bool, ◌&&◌, List, [], ◌∷◌, arith, Bool-cases, inl, inr, length, map,
  nat_eq,
}
use analysis_srv.Prelude.Eq.{◌==◌, text_key, nat_key, pair_key, list_key}
use analysis_srv.Prelude.Dict.{Dict, set, items_at}
use analysis_srv.Prelude.Dict.Laws.{get-set}
use analysis_srv.Prelude.Float.{Float}
use analysis_srv.Prelude.Sets.{IsDistinct, set_of-IsDistinct, common_of_sym, union_of_sym}
use analysis_srv.Model.Mention.{MentionRecord}
use analysis_srv.Prelude.Text.{replace_char}
use analysis_srv.Prelude.Text.Split.{words, join, substrings}
use analysis_srv.Dedup.{Digests, DedupConfig, windows, shingles, jaccard}
use analysis_srv.Dedup.Near.{shingles_onto, is_similar}

and_comm : (a b : Bool) → (a && b) ≡ (b && a)
and_comm a b = ground arith

module _ {F : Type 0} ⦃fl : Float F⦄ where
  pub jaccard_sym :
      (left right : List String)
      → IsDistinct left
      → IsDistinct right
      → ◌≡◌ {A = F} (jaccard left right) (jaccard right left)
  unfolding jaccard
  jaccard_sym left right dl dr =
      rw
        (
          and_comm (nat_eq (length left) 0) (nat_eq (length right) 0),
          common_of_sym left right dl dr,
          union_of_sym left right dl dr,
        )
        refl

  module _ (digests : Digests) (config : DedupConfig F) where
    shingles-IsDistinct : (text : String) → IsDistinct (shingles config text)
    unfolding shingles
    shingles-IsDistinct text k = ground (
      arith,
      set_of-IsDistinct (map (join " ") (windows config.word_shingle_size (words text))) k,
      set_of-IsDistinct (substrings config.char_shingle_size (replace_char 32 "" text)) k,
    )

    abbrev pub HasDistinctSets : Dict String (List String) → Type 0
    HasDistinctSets sets = (k : String) → IsDistinct (items_at k sets)

    pub shingles_onto-distinct :
        (sets : Dict String (List String)) (mentions : List (MentionRecord F))
        → HasDistinctSets sets
        → HasDistinctSets (shingles_onto digests config sets mentions)
    unfolding shingles_onto
    shingles_onto-distinct sets [] h = h
    shingles_onto-distinct sets (m ∷ mentions) h =
        shingles_onto-distinct (set m.mention_id (shingles config m.normalized_text_compact) sets)
          mentions
          (λ k x. elim (Bool-cases (m.mention_id == k)) [
            | inl e ↦
                rw
                  (
                    items_at,
                    get-set m.mention_id k (shingles config m.normalized_text_compact) sets,
                    e,
                  )
                  (shingles-IsDistinct m.normalized_text_compact x)
            | inr e ↦
                rw
                  (
                    items_at,
                    get-set m.mention_id k (shingles config m.normalized_text_compact) sets,
                    e,
                  )
                  (h k x)
          ])

    pub is_similar_sym :
        (sets : Dict String (List String)) (a b : String)
        → HasDistinctSets sets
        → is_similar digests config sets (a, b) ≡ is_similar digests config sets (b, a)
    unfolding is_similar
    is_similar_sym sets a b h =
        ap (fl.le config.near_similarity_threshold)
          (jaccard_sym (items_at a sets) (items_at b sets) (h a) (h b))
