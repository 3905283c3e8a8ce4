-- ===== src/Spam/Author.antt =====
-- `_author_profile` of score_authors.py: the score of one author, from the mentions of the author, their
-- features in the same order, and the numbers of all mentions with each template.
use analysis_srv.Prelude.{
  ℕ, String, Option, none, some, List, [], ◌∷◌, ◌++◌, map, count, length, ltb, leb, nat_eq,
  if◌then◌else◌,
}
use analysis_srv.Prelude.Eq.{text_key}
use analysis_srv.Prelude.Dict.{Dict, get}
use analysis_srv.Prelude.Float.{Float, min_f}
use analysis_srv.Model.Mention.{MentionRecord}
use analysis_srv.Spam.{SpamConfig, MentionFeatures, AuthorQualityRecord}
use analysis_srv.Spam.Features.{or_one, ratio}
use analysis_srv.Spam.Burst.{burstiness_score}

-- template_counts.get(key, 0)
abbrev count_of : String → Dict String ℕ → ℕ
count_of key counts = elim (get key counts) [ none ↦ 0 | some n ↦ n ]

-- [mention_features[m.mention_id] for m in mentions], or `none` where an id is missing.
unfoldable pub features_of :
    {F : Type 0}
    → Dict String (MentionFeatures F)
    → List (MentionRecord F)
    → Option (List (MentionFeatures F))
features_of mention_features [] = some []
features_of mention_features (m ∷ mentions) = elim (get m.mention_id mention_features) [
  | none ↦ none
  | some feature ↦ elim (features_of mention_features mentions) [
    | none ↦ none
    | some features ↦ some (feature ∷ features)
  ]
]

module _ {F : Type 0} ⦃fl : Float F⦄ where
  abbrev sum_onto : F → List F → F
  sum_onto total [] = total
  sum_onto total (x ∷ xs) = sum_onto (fl.add total x) xs

  unfoldable pub template_ratio : Dict String ℕ → List (MentionFeatures F) → F
  template_ratio template_counts features =
      if nat_eq (length features) 0
      then fl.lit 0 1
      else ratio (count (λ f. leb 3 (count_of f.template_key template_counts)) features)
          (length features)

  -- [code] where the bound is met
  abbrev pub reason : F → F → String → List String
  reason bound x code = if fl.le bound x then code ∷ [] else []

  unfoldable pub author_reasons : F → F → F → F → F → List String
  author_reasons burstiness duplicate_rate template_share repost_ratio average_score =
      reason (fl.lit 55 100) burstiness "author_burstiness"
      ++ reason (fl.lit 45 100) duplicate_rate "author_duplicate_participation"
      ++ reason (fl.lit 45 100) template_share "author_template_reuse"
      ++ reason (fl.lit 4 10) repost_ratio "author_repost_like_ratio"
      ++ reason (fl.lit 55 100) average_score "high_average_mention_spam_score"

  unfoldable pub author_base : F → F → F → F → F → F
  author_base burstiness duplicate_rate template_share repost_ratio average_score = fl.round 4 (
      min_f
        (fl.add
          (fl.add
            (fl.add
              (fl.add (fl.mul average_score (fl.lit 42 100)) (fl.mul burstiness (fl.lit 18 100)))
              (fl.mul duplicate_rate (fl.lit 20 100)))
            (fl.mul template_share (fl.lit 12 100)))
          (fl.mul repost_ratio (fl.lit 8 100)))
        (fl.lit 1 1))

  -- The base with 0.03 for each reason, 0.09 at most.
  unfoldable pub raised : F → List String → F
  raised base reason_codes = fl.round 4 (
      min_f
        (fl.add base
          (min_f (fl.mul (fl.lit (length reason_codes) 1) (fl.lit 3 100)) (fl.lit 9 100)))
        (fl.lit 1 1))

  unfoldable pub author_profile :
      SpamConfig F
      → String
      → List (MentionRecord F)
      → List (MentionFeatures F)
      → Dict String ℕ
      → AuthorQualityRecord F
  author_profile config author_id mentions features template_counts =
      let scores = map (λ f. f.mention_spam_score) features in
      let repost_ratio = ratio (count (λ f. f.repost_like) features) (or_one (length mentions)) in
      let template_share = template_ratio template_counts features in
      let burstiness = burstiness_score config mentions in
      let duplicate_rate =
        ratio (count (λ m. ltb 1 m.dedup_cluster_size) mentions) (or_one (length mentions)) in
      let average_score =
        fl.div (sum_onto (fl.lit 0 1) scores) (fl.lit (or_one (length scores)) 1) in
      let reasons =
        author_reasons burstiness duplicate_rate template_share repost_ratio average_score in
      let score =
        raised (author_base burstiness duplicate_rate template_share repost_ratio average_score)
          reasons in
      record {
        author_id = author_id;
        mention_count = length mentions;
        suspicious_mention_count = count (fl.le config.mention_threshold) scores;
        author_inorganic_score = score;
        author_suspicious = fl.le config.author_threshold score;
        burstiness_score = burstiness;
        template_ratio = fl.round 4 template_share;
        duplicate_cluster_participation_rate = fl.round 4 duplicate_rate;
        repost_like_ratio = fl.round 4 repost_ratio;
        average_mention_spam_score = fl.round 4 average_score;
        reason_codes = reasons;
      }
