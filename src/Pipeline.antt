-- ===== src/Pipeline.antt =====
-- The analysis pipeline (internal/pipeline): the stages over the accumulated facts, the runner of a
-- stage and the orchestrator. The sub-usecases are optional services, as in `PipelineServices`; each
-- may raise. The types of what they exchange are parameters, and `Q` is the state of the review
-- queue. Elapsed times are left out.
pub mod Stages
pub mod Run
pub mod Report
mod Examples
use analysis_srv.Prelude.{ℕ, String, Bool, Option, none, List, []}
use analysis_srv.Prelude.Result.{Result}

-- The types that the services exchange.
pub record Kinds : Type 1 where
  pub Record : Type 0
  pub Mention : Type 0
  pub Cluster : Type 0
  pub Author : Type 0
  pub Threads : Type 0
  pub NlpFact : Type 0
  pub Fact : Type 0
  pub Bi : Type 0
  pub Card : Type 0
  pub Assessment : Type 0
  pub Queue : Type 0

pub record Enrichment (Fact : Type 0) : Type 0 where
  pub entity_facts : List Fact
  pub topic_facts : List Fact

pub record Batch (Record : Type 0) : Type 0 where
  pub records : List Record
  pub project_id : String
  pub campaign_id : String

module _ (K : Kinds) where
  open K use {Record, Mention, Cluster, Author, Threads, NlpFact, Fact, Bi, Card, Assessment, Queue}

  pub record PipelineFacts : Type 0 where
    pub normalized_records : List Mention
    pub dedup_clusters : List Cluster
    pub spam_scores : List Author
    pub thread_bundles : List Threads
    pub nlp_facts : List NlpFact
    pub nlp_input_records : ℕ
    pub filtered_out_unsupported_language : ℕ
    pub enrichment_bundle : Option (Enrichment Fact)
    pub insight_cards : List Card
    pub bi_bundle : Option Bi
    pub crisis_assessment : Option Assessment

  -- Each service, where it is wired in; `err` stands for an exception, with its text.
  pub record PipelineServices : Type 0 where
    pub normalization : Option (Batch Record → Result String (List Mention × ℕ))
    pub dedup : Option (List Mention → Result String (List Mention × List Cluster))
    pub spam : Option (List Mention → Result String (List Mention × List Author))
    pub threads : Option (List Mention → Result String Threads)
    pub nlp_enricher : Option (List Record → String → Result String (List NlpFact))
    pub enrichment : Option (List Mention → Option Threads → Result String (Enrichment Fact))
    pub review : Option (Fact → Queue → Queue)
    pub reporting : Option (PipelineFacts → Result String (Bi × List Card))
    pub crisis : Option (Bi → Result String Assessment)
    -- the records that the NLP stage keeps, given the mentions
    pub selects : List Mention → Record → Bool

  pub record PipelineConfig : Type 0 where
    pub enable_normalization : Bool
    pub enable_dedup : Bool
    pub enable_spam : Bool
    pub enable_threads : Bool
    pub enable_nlp : Bool
    pub enable_enrichment : Bool
    pub enable_review : Bool
    pub enable_reporting : Bool
    pub enable_crisis : Bool
    pub services : PipelineServices

  -- What a stage reads and changes: the facts, and the review queue behind its service.
  pub record Progress : Type 0 where
    pub facts : PipelineFacts
    pub queue : Queue

  abbrev pub no_facts : PipelineFacts
  no_facts = record {
    normalized_records = [];
    dedup_clusters = [];
    spam_scores = [];
    thread_bundles = [];
    nlp_facts = [];
    nlp_input_records = 0;
    filtered_out_unsupported_language = 0;
    enrichment_bundle = none;
    insight_cards = [];
    bi_bundle = none;
    crisis_assessment = none;
  }
