-- ===== src/Model/Mention.antt =====
-- internal/normalization/type.py: the record of one mention that the stages annotate. `F` is the type
-- of floats. A time is a number of microseconds.
use analysis_srv.Prelude.{ℕ, String, Bool, Option, List}
use analysis_srv.Prelude.Int.{ℤ}

pub record MentionRecord (F : Type 0) : Type 0 where
  pub mention_id : String
  pub source_uap_id : String
  pub origin_id : String
  pub platform : String
  pub project_id : String
  pub root_id : String
  pub parent_id : Option String
  pub depth : ℕ
  pub author_id : String
  pub author_username : Option String
  pub raw_text : String
  pub normalized_text : String
  pub normalized_text_compact : String
  pub language : String
  pub language_confidence : F
  pub language_supported : Bool
  pub language_rejection_reason : Option String
  pub mixed_language_uncertain : Bool
  pub text_quality_label : String
  pub text_quality_flags : List String
  pub text_quality_score : F
  pub hashtags : List String
  pub urls : List String
  pub emojis : List String
  pub semantic_route_hint : String
  pub dedup_cluster_id : Option String
  pub dedup_kind : Option String
  pub dedup_representative_mention_id : Option String
  pub dedup_cluster_size : ℕ
  pub dedup_similarity : Option F
  pub dedup_weight : F
  pub mention_spam_score : F
  pub author_inorganic_score : F
  pub mention_suspicious : Bool
  pub author_suspicious : Bool
  pub suspicion_reason_codes : List String
  pub quality_weight : F
  pub source_url : Option String
  pub posted_at : Option ℕ
  pub likes : Option ℤ
  pub comments_count : Option ℤ
  pub shares : Option ℤ
  pub views : Option ℤ
  pub sort_score : Option F
