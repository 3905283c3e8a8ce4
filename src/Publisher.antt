-- ===== src/Publisher.antt =====
-- The contract publisher (internal/contract_publisher): a buffer of analysed documents that is
-- flushed to three Kafka topics in a fixed order. `F` is the type of floats.
pub mod Helpers
pub mod Batch
pub mod Source
pub mod Insights
pub mod Digest
pub mod Order
pub mod Buffer
pub mod Ordering
pub mod Flush
pub mod Delivery
pub mod Gates
mod Examples
use analysis_srv.Prelude.{ℕ, String, Bool, Option, List}
use analysis_srv.Prelude.Int.{ℤ}
use analysis_srv.Prelude.Dict.{Dict}
use analysis_srv.Prelude.Json.{Json, JsonDict}
use analysis_srv.Model.Uap.{UapRecord}
use analysis_srv.Model.Insight.{InsightMessage}

pub record RunContext : Type 0 where
  pub run_id : String
  pub project_id : String
  pub campaign_id : String
  pub platform : String
  pub domain_overlay : String
  pub analysis_window_start : String
  pub analysis_window_end : String

pub record ContractPublishConfig : Type 0 where
  pub batch_size : ℕ
  pub enabled : Bool
  pub domain_overlay : String

pub record PublishOutput : Type 0 where
  pub success : Bool
  pub error_message : Option String
  pub documents_published : ℕ
  pub insights_published : ℕ

-- One entry of the buffer.
pub record Pair (F : Type 0) : Type 0 where
  pub uap : UapRecord F
  pub msg : InsightMessage F

-- The JSON payloads of the three layers, field by field.
pub record Document (F : Type 0) : Type 0 where
  pub uap_id : String
  pub uap_type : String
  pub uap_media_type : String
  pub platform : String
  pub published_at : String
  pub clean_text : String
  pub summary : String
  pub context_summary : String
  pub sentiment_label : String
  pub sentiment_score : F
  pub aspects : List (String × String)
  pub entities : List (String × String)
  pub relevance_score : F
  pub relevance_reasons : List String
  pub likes : ℤ
  pub comments : ℤ
  pub shares : ℤ
  pub views : ℤ
  pub impact_score : F
  pub priority : String
  pub rag : Bool
  pub source : Dict String (Json F)

pub record BatchPayload (F : Type 0) : Type 0 where
  pub project_id : String
  pub campaign_id : String
  pub documents : List (Document F)

-- An insight card as the reporting stage builds it.
pub record InsightCard (F : Type 0) : Type 0 where
  pub insight_type : String
  pub title : String
  pub summary : String
  pub confidence : F
  pub time_window : String
  pub supporting_metrics : JsonDict F
  pub evidence_references : List String

pub record InsightPayload (F : Type 0) : Type 0 where
  pub project_id : String
  pub campaign_id : String
  pub run_id : String
  pub insight_type : String
  pub title : String
  pub summary : String
  pub confidence : F
  pub analysis_window_start : String
  pub analysis_window_end : String
  pub supporting_metrics : JsonDict F
  pub evidence_references : List String
  pub should_index : Bool
  pub reportability_score : Json F
  pub usefulness_score : Json F

-- Rows of the three reports, and what the digest keeps of them.
pub record SovRow (F : Type 0) : Type 0 where
  pub canonical_entity_id : String
  pub entity_name : String
  pub entity_type : String
  pub mention_count : ℕ
  pub mention_share : F

pub record BuzzTopicRow (F : Type 0) : Type 0 where
  pub reporting_topic_key : String
  pub reporting_topic_label : String
  pub mention_count : ℕ
  pub mention_share : F
  pub buzz_score_proxy : Option F
  pub quality_score : Option F
  pub representative_texts : List String
  pub effective_mention_count : Option F
  pub growth_ratio_proxy : Option F
  pub salient_terms : List String

pub record TopIssueRow (F : Type 0) : Type 0 where
  pub issue_category : String
  pub mention_count : ℕ
  pub issue_pressure_proxy : F
  pub severity_mix : Dict String ℕ

pub record DigestBundle (F : Type 0) : Type 0 where
  pub entities : List (SovRow F)
  pub topic_buzz : List (BuzzTopicRow F)
  pub issues : List (TopIssueRow F)

pub record DigestPayload (F : Type 0) : Type 0 where
  pub project_id : String
  pub campaign_id : String
  pub run_id : String
  pub analysis_window_start : String
  pub analysis_window_end : String
  pub domain_overlay : String
  pub platform : String
  pub total_mentions : ℕ
  pub top_entities : List (SovRow F)
  pub top_topics : List (BuzzTopicRow F)
  pub top_issues : List (TopIssueRow F)
  pub should_index : Bool
