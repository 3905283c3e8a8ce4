-- ===== src/Model/Insight.antt =====
-- internal/model/insight_message.py: the enriched message, as far as the publisher reads it. The
-- source gives every nested part a default, so none of them is optional here. `F` is the type of
-- floats.
use analysis_srv.Prelude.{String, Bool, Option, List}
use analysis_srv.Prelude.Int.{ℤ}

pub record Identity : Type 0 where
  pub source_type : String
  pub source_id : String
  pub doc_id : String
  pub doc_type : String
  pub published_at : Option String

pub record Content : Type 0 where
  pub text : String
  pub clean_text : String
  pub summary : String
  pub context_summary : String

pub record NlpSentiment (F : Type 0) : Type 0 where
  pub label : String
  pub score : F

pub record NlpAspect : Type 0 where
  pub aspect : String
  pub polarity : String

pub record NlpEntity : Type 0 where
  pub type : String
  pub value : String

pub record Nlp (F : Type 0) : Type 0 where
  pub sentiment : NlpSentiment F
  pub aspects : List NlpAspect
  pub entities : List NlpEntity

pub record BusinessEngagement : Type 0 where
  pub like_count : ℤ
  pub comment_count : ℤ
  pub share_count : ℤ
  pub view_count : ℤ

pub record Business (F : Type 0) : Type 0 where
  pub engagement : BusinessEngagement
  pub impact_score : F
  pub priority : String
  pub relevance_score : F
  pub relevance_reasons : List String

pub record InsightMessage (F : Type 0) : Type 0 where
  pub identity : Identity
  pub content : Content
  pub nlp : Nlp F
  pub business : Business F
  pub should_index : Bool
