-- ===== src/Spam/Features.antt =====
-- `_mention_features` of score_authors.py: the signs of spam in one mention.
use analysis_srv.Prelude.{
  ℕ, ◌+◌, ◌-◌, String, Bool, ◌||◌, List, [], ◌∷◌, map, filter, length, most, leb, nat_eq,
  if◌then◌else◌,
}
use analysis_srv.Prelude.Eq.{◌==◌, text_key}
use analysis_srv.Prelude.Dict.{Dict, values}
use analysis_srv.Prelude.Float.{Float, max_f, min_f}
use analysis_srv.Prelude.Sets.{set_of}
use analysis_srv.Prelude.Text.{strip}
use analysis_srv.Prelude.Text.Split.{starts_with}
use analysis_srv.Model.Mention.{MentionRecord}
use analysis_srv.Spam.{Patterns, MentionFeatures}

-- c[key] += 1, and Counter(keys)
unfoldable pub count_up : String → Dict String ℕ → Dict String ℕ
count_up key [] = (key, 1) ∷ []
count_up key ((k, n) ∷ c) = if k == key then (k, n + 1) ∷ c else (k, n) ∷ count_up key c

unfoldable pub counter_onto : Dict String ℕ → List String → Dict String ℕ
counter_onto c [] = c
counter_onto c (key ∷ keys) = counter_onto (count_up key c) keys

unfoldable pub counter : List String → Dict String ℕ
counter keys = counter_onto [] keys

-- The larger of the number and 1.
abbrev pub or_one : ℕ → ℕ
or_one n = if nat_eq n 0 then 1 else n

unfoldable pub template_key : Patterns → String → String
template_key patterns normalized_text = strip (
    patterns.sub "\\s+" " " (
      patterns.sub "\\d+" " <num> "
        (patterns.sub "#[\\w_]+" " <tag> " (patterns.sub "<url>" " <url> " normalized_text))))

module _ {F : Type 0} ⦃fl : Float F⦄ where
  unfoldable pub is_repost_like : MentionRecord F → Bool
  is_repost_like mention =
      starts_with mention.normalized_text_compact "rt "
      || starts_with mention.normalized_text_compact "repost "
      || starts_with mention.normalized_text_compact "shared from "

  -- a / b of two numbers
  abbrev pub ratio : ℕ → ℕ → F
  ratio a b = fl.div (fl.lit a 1) (fl.lit b 1)

  unfoldable pub lexical_diversity : List String → F
  lexical_diversity tokens =
      if nat_eq (length tokens) 0
      then fl.lit 1 1
      else ratio (length (set_of tokens)) (length tokens)

  unfoldable pub max_token_share : List String → F
  max_token_share tokens =
      if nat_eq (length tokens) 0
      then fl.lit 0 1
      else ratio (most (values (counter tokens))) (length tokens)

  unfoldable pub repetition_ratio : List String → F
  repetition_ratio tokens =
      if nat_eq (length tokens) 0
      then fl.lit 0 1
      else fl.sub (fl.lit 1 1) (lexical_diversity tokens)

  unfoldable pub high_url_density : MentionRecord F → List String → F
  high_url_density mention tokens =
      min_f (fl.mul (ratio (length mention.urls) (or_one (length tokens))) (fl.lit 25 10))
        (fl.lit 1 1)

  unfoldable pub low_lexical_diversity : List String → F
  low_lexical_diversity tokens =
      if leb 4 (length tokens)
      then fl.div (max_f (fl.lit 0 1) (fl.sub (fl.lit 45 100) (lexical_diversity tokens)))
          (fl.lit 45 100)
      else fl.lit 0 1

  unfoldable pub duplicate_pressure : MentionRecord F → F
  duplicate_pressure mention =
      ratio (mention.dedup_cluster_size - 1) (or_one mention.dedup_cluster_size)

  -- The weights of the components, in their order.
  abbrev weights : List F
  weights = fl.lit 22 100 ∷ fl.lit 22 100 ∷ fl.lit 20 100 ∷ fl.lit 22 100 ∷ fl.lit 14 100 ∷ []

  abbrev weighted_onto : F → List F → List (String × F) → F
  weighted_onto total (w ∷ ws) ((name, score) ∷ components) =
      weighted_onto (fl.add total (fl.mul score w)) ws components
  weighted_onto total [] components = total
  weighted_onto total (w ∷ ws) [] = total

  abbrev weighted : List F → List (String × F) → F
  weighted (w ∷ ws) ((name, score) ∷ components) = weighted_onto (fl.mul score w) ws components
  weighted [] components = fl.lit 0 1
  weighted (w ∷ ws) [] = fl.lit 0 1

  unfoldable pub spam_score : List (String × F) → F
  spam_score components = fl.round 4 (min_f (weighted weights components) (fl.lit 1 1))

  module _ (patterns : Patterns) where
    unfoldable pub score_components : MentionRecord F → List (String × F)
    score_components mention =
        let tokens = patterns.word_tokens mention.normalized_text_compact in
        ("high_url_density", high_url_density mention tokens)
        ∷ ("low_lexical_diversity", low_lexical_diversity tokens)
        ∷ ("high_repetition_ratio", max_f (repetition_ratio tokens) (max_token_share tokens))
        ∷ ("duplicate_cluster_participation", duplicate_pressure mention)
        ∷ ("repost_like_behavior", if is_repost_like mention then fl.lit 1 1 else fl.lit 0 1)
        ∷ []

    unfoldable pub mention_features : MentionRecord F → MentionFeatures F
    mention_features mention =
        let components = score_components mention in
        record {
          mention_id = mention.mention_id;
          mention_spam_score = spam_score components;
          reason_codes = map (λ c. c.0) (filter (λ c. fl.le (fl.lit 5 10) c.1) components);
          template_key = template_key patterns mention.normalized_text;
          repost_like = is_repost_like mention;
        }
