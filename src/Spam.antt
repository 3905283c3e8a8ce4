-- ===== src/Spam.antt =====
-- The spam scores of mentions and authors (internal/spam): the types and the configuration. The regular
-- expressions of `re` are a parameter; `F` is the type of floats.
pub mod Features
pub mod Burst
pub mod Author
pub mod Annotate
mod Examples
use analysis_srv.Prelude.{ℕ, String, Bool, List}

-- `_TOKEN_RE.findall(text)`, and `re.sub(pattern, replacement, text)`.
pub record Patterns : Type 0 where
  pub word_tokens : String → List String
  pub sub : String → String → String → String

pub record SpamConfig (F : Type 0) : Type 0 where
  pub mention_threshold : F
  pub author_threshold : F
  pub burst_window_minutes : ℕ
  pub quality_weight_floor : F
  pub mention_discount_strength : F
  pub author_discount_strength : F

pub record MentionFeatures (F : Type 0) : Type 0 where
  pub mention_id : String
  pub mention_spam_score : F
  pub reason_codes : List String
  pub template_key : String
  pub repost_like : Bool

pub record AuthorQualityRecord (F : Type 0) : Type 0 where
  pub author_id : String
  pub mention_count : ℕ
  pub suspicious_mention_count : ℕ
  pub author_inorganic_score : F
  pub author_suspicious : Bool
  pub burstiness_score : F
  pub template_ratio : F
  pub duplicate_cluster_participation_rate : F
  pub repost_like_ratio : F
  pub average_mention_spam_score : F
  pub reason_codes : List String

pub record QualityAnalysisResult (F : Type 0) : Type 0 where
  pub mentions_updated : ℕ
  pub author_profiles : List (AuthorQualityRecord F)
