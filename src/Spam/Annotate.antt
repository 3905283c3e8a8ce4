-- ===== src/Spam/Annotate.antt =====
-- `annotate` of the spam scoring service. `none` stands for the `KeyError` of a lookup that fails.
pub mod Laws
use analysis_srv.Prelude.{
  ℕ, String, Bool, true, false, ◌&&◌, ◌||◌, Option, none, some, List, [], ◌∷◌, ◌++◌, map, filter,
  any, length, ltb, if◌then◌else◌,
}
use analysis_srv.Prelude.Eq.{◌==◌, text_key}
use analysis_srv.Prelude.Dict.{Dict, get, set, values, group_by}
use analysis_srv.Prelude.Float.{Float, max_f, min_f}
use analysis_srv.Prelude.Sets.{member, set_of}
use analysis_srv.Prelude.Sort.{sort_by}
use analysis_srv.Prelude.Text.{non_empty, not_after}
use analysis_srv.Model.Mention.{MentionRecord}
use analysis_srv.Spam.{
  Patterns, SpamConfig, MentionFeatures, AuthorQualityRecord, QualityAnalysisResult,
}
use analysis_srv.Spam.Features.{counter, mention_features}
use analysis_srv.Spam.Author.{features_of, author_profile}

-- The flags for which a mention is enriched in the light way.
abbrev lite_flags : List String
lite_flags = "reaction_only" ∷ "low_information" ∷ "duplicate_like" ∷ "spam_like" ∷ "url_heavy" ∷ []

unfoldable pub route_hint : List String → String
route_hint flags =
    if any (λ flag. member flag lite_flags) flags then "semantic_lite" else "semantic_full"

unfoldable pub quality_label : String → List String → String
quality_label label flags =
    if member "spam_like" flags
    then "spam_like"
    else if member "duplicate_like" flags && label == "normal"
    then "duplicate_like"
    else label

module _ {F : Type 0} ⦃fl : Float F⦄ where
  unfoldable pub quality_flags : MentionRecord F → Bool → List String
  quality_flags mention spam_like = set_of (
      mention.text_quality_flags
      ++ (if ltb 1 mention.dedup_cluster_size then "duplicate_like" ∷ [] else [])
      ++ (if spam_like then "spam_like" ∷ [] else []))

  unfoldable pub quality_weight : SpamConfig F → F → F → F → F
  quality_weight config dedup_weight mention_spam_score author_inorganic_score = fl.round 6 (
      fl.mul
        (fl.mul dedup_weight (
          max_f (fl.sub (fl.lit 1 1) (fl.mul mention_spam_score config.mention_discount_strength))
            config.quality_weight_floor))
        (max_f (fl.sub (fl.lit 1 1) (fl.mul author_inorganic_score config.author_discount_strength))
          config.quality_weight_floor))

  unfoldable pub updated_mention :
      SpamConfig F → MentionRecord F → MentionFeatures F → AuthorQualityRecord F → MentionRecord F
  updated_mention config mention feature profile =
      let suspicious = fl.le config.mention_threshold feature.mention_spam_score in
      let weight =
        quality_weight config mention.dedup_weight feature.mention_spam_score
          profile.author_inorganic_score in
      let flags = quality_flags mention (suspicious || profile.author_suspicious) in
      record mention {
        mention_spam_score = feature.mention_spam_score;
        author_inorganic_score = profile.author_inorganic_score;
        mention_suspicious = suspicious;
        author_suspicious = profile.author_suspicious;
        suspicion_reason_codes =
            feature.reason_codes
            ++ (if profile.author_suspicious then profile.reason_codes else []);
        quality_weight = weight;
        text_quality_flags = flags;
        text_quality_label = quality_label mention.text_quality_label flags;
        text_quality_score = fl.round 4 (min_f mention.text_quality_score weight);
        semantic_route_hint = route_hint flags;
      }

  -- The profiles of the groups of mentions by author.
  unfoldable pub profiles_of :
      SpamConfig F
      → Dict String (MentionFeatures F)
      → Dict String ℕ
      → Dict String (List (MentionRecord F))
      → Option (Dict String (AuthorQualityRecord F))
  profiles_of config features counts [] = some []
  profiles_of config features counts ((author_id, mentions) ∷ groups) =
      elim (features_of features mentions) [
        | none ↦ none
        | some of_author ↦ elim (profiles_of config features counts groups) [
          | none ↦ none
          | some profiles ↦
              some
                ((author_id, author_profile config author_id mentions of_author counts) ∷ profiles)
        ]
      ]

  -- The loop over the mentions.
  unfoldable pub update_mentions :
      SpamConfig F
      → Dict String (MentionFeatures F)
      → Dict String (AuthorQualityRecord F)
      → List (MentionRecord F)
      → Option (List (MentionRecord F))
  update_mentions config features profiles [] = some []
  update_mentions config features profiles (m ∷ mentions) = elim (get m.mention_id features) [
    | none ↦ none
    | some feature ↦ elim (get m.author_id profiles) [
      | none ↦ none
      | some profile ↦ elim (update_mentions config features profiles mentions) [
        | none ↦ none
        | some updated ↦ some (updated_mention config m feature profile ∷ updated)
      ]
    ]
  ]

  -- The key (-author_inorganic_score, -mention_count, author_id).
  unfoldable pub worse_first : AuthorQualityRecord F → AuthorQualityRecord F → Bool
  worse_first a b =
      if fl.lt b.author_inorganic_score a.author_inorganic_score
      then true
      else if fl.lt a.author_inorganic_score b.author_inorganic_score
      then false
      else if ltb b.mention_count a.mention_count
      then true
      else if ltb a.mention_count b.mention_count
      then false
      else not_after a.author_id b.author_id

  module _ (patterns : Patterns) (config : SpamConfig F) where
    unfoldable pub features_onto :
        Dict String (MentionFeatures F) → List (MentionRecord F) → Dict String (MentionFeatures F)
    features_onto d [] = d
    features_onto d (m ∷ mentions) =
        features_onto (set m.mention_id (mention_features patterns m) d) mentions

    unfoldable pub template_counts : Dict String (MentionFeatures F) → Dict String ℕ
    template_counts features =
        counter (filter non_empty (map (λ f. f.template_key) (values features)))

    abbrev finished :
        Dict String (AuthorQualityRecord F)
        → Option (List (MentionRecord F))
        → Option (List (MentionRecord F) × QualityAnalysisResult F)
    finished profiles none = none
    finished profiles (some updated) = some (
      updated,
      record {
        mentions_updated = length updated;
        author_profiles = sort_by worse_first (values profiles);
      },
    )

    unfoldable pub annotate :
        List (MentionRecord F) → Option (List (MentionRecord F) × QualityAnalysisResult F)
    annotate [] = some ([], record { mentions_updated = 0; author_profiles = [] })
    annotate (m ∷ ms) =
        let features = features_onto [] (m ∷ ms) in
        elim (profiles_of config features (template_counts features)
          (group_by (λ n. n.author_id) (m ∷ ms))) [
            | none ↦ none
            | some profiles ↦ finished profiles (update_mentions config features profiles (m ∷ ms))
          ]
