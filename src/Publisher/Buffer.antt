-- ===== src/Publisher/Buffer.antt =====
-- ContractPublisherUseCase (usecase.py): the buffer, its automatic flush and the final one. The run
-- id and the current time are arguments. A flush fails in two ways: on a publish error the batch goes
-- back into the buffer, and on any other exception, here the ValueError of a document's URL, it is
-- dropped. Logging is left out.
use analysis_srv.Prelude.{
  String, Bool, true, false, Option, none, some, List, [], ◌∷◌, ◌++◌, leb, length, filter, map,
  if◌then◌else◌,
}
use analysis_srv.Prelude.Float.{Float}
use analysis_srv.Prelude.Json.{get}
use analysis_srv.Prelude.Text.{non_empty, or_empty, or_else}
use analysis_srv.Prelude.Result.{Result, ok, err}
use analysis_srv.Model.Uap.{text_or}
use analysis_srv.Publisher.{
  Pair, RunContext, ContractPublishConfig, PublishOutput, InsightCard, DigestBundle, BatchPayload,
  InsightPayload,
}
use analysis_srv.Publisher.Helpers.{normalize_platform_lower, min_iso_utc, max_iso_utc}
use analysis_srv.Publisher.Batch.{build_batch_completed_payload}
use analysis_srv.Publisher.Insights.{build_insights_published_payloads}
use analysis_srv.Publisher.Digest.{build_report_digest_payload}
use analysis_srv.Publisher.Order.{
  Message, Producer, KafkaPublishError, Topic, failed_on, publish_in_required_order,
}

-- What `default_run_id` and the clock give at a flush.
pub record Now : Type 0 where
  pub run_id : String
  pub iso : String

-- The object's state: its buffer and its Kafka producer.
pub record Publisher (F S : Type 0) : Type 0 where
  pub buffer : List (Pair F)
  pub producer : Producer F S

abbrev pub text_of_topic : Topic → String
text_of_topic Topic.batch_completed = "analytics.batch.completed"
text_of_topic Topic.insights_published = "analytics.insights.published"
text_of_topic Topic.report_digest = "analytics.report.digest"

abbrev pub error_text : KafkaPublishError → String
error_text (failed_on topic) = text_of_topic topic

abbrev pub nothing_published : PublishOutput
nothing_published = record {
  success = true;
  error_message = none;
  documents_published = 0;
  insights_published = 0;
}

module _ {F S : Type 0} ⦃fl : Float F⦄
    (with_query_param : String → String → String → Result String String)
    (takes : Message F → S → Bool × S) (config : ContractPublishConfig) where
  abbrev published_at : Pair F → String
  published_at p = or_empty p.uap.content.published_at

  -- The context of a flush is derived from the buffer; `first` is its first pair.
  unfoldable pub build_ctx_from_batch : Now → Pair F → List (Pair F) → RunContext
  unfolding normalize_platform_lower min_iso_utc max_iso_utc or_empty non_empty text_or get
  build_ctx_from_batch now first batch =
      let timestamps = filter non_empty (map published_at batch) in
      record {
        run_id = now.run_id;
        project_id = first.uap.ingest.project_id;
        campaign_id = or_empty first.uap.context.campaign_id;
        platform = normalize_platform_lower first.uap.ingest.source.source_type;
        domain_overlay =
            or_else (text_or "" (get "_resolved_domain_overlay" first.uap.raw))
              config.domain_overlay;
        analysis_window_start = min_iso_utc now.iso timestamps;
        analysis_window_end = max_iso_utc now.iso timestamps;
      }

  -- The end of `flush`: the output, and the buffer that is put back on a publish error.
  unfoldable pub finish :
      List (Pair F)
      → BatchPayload F
      → List (InsightPayload F)
      → Result KafkaPublishError (Unit {0}) × Producer F S
      → PublishOutput × Publisher F S
  finish batch layer3 cards (ok _, producer) = (
    record {
      success = true;
      error_message = none;
      documents_published = length layer3.documents;
      insights_published = length cards;
    },
    record { buffer = []; producer = producer },
  )
  finish batch layer3 cards (err e, producer) = (
    record {
      success = false;
      error_message = some (error_text e);
      documents_published = 0;
      insights_published = 0;
    },
    record { buffer = batch ++ []; producer = producer },
  )

  -- `except Exception`: the batch is not put back.
  unfoldable pub finish_unexpected : String → Publisher F S → PublishOutput × Publisher F S
  finish_unexpected message p = (
    record {
      success = false;
      error_message = some message;
      documents_published = 0;
      insights_published = 0;
    },
    record p { buffer = [] },
  )

  unfoldable pub flush_batch :
      RunContext
      → List (InsightCard F)
      → Option (DigestBundle F)
      → Publisher F S
      → PublishOutput × Publisher F S
  unfolding finish finish_unexpected
  flush_batch ctx cards bundle p =
      let payloads = build_insights_published_payloads cards ctx in
      elim (build_batch_completed_payload with_query_param p.buffer ctx) [
        | err message ↦ finish_unexpected message p
        | ok layer3 ↦ finish p.buffer layer3 payloads (
            publish_in_required_order takes layer3 payloads
              (build_report_digest_payload ctx (length p.buffer) bundle) p.producer)
      ]

  unfoldable pub flush_buffer :
      Now
      → Option RunContext
      → List (InsightCard F)
      → Option (DigestBundle F)
      → Publisher F S
      → List (Pair F)
      → PublishOutput × Publisher F S
  unfolding flush_batch build_ctx_from_batch
  flush_buffer now ctx cards bundle p [] = (nothing_published, p)
  flush_buffer now ctx cards bundle p (first ∷ rest) =
      if config.enabled
      then flush_batch (elim ctx [ none ↦ build_ctx_from_batch now first p.buffer | some c ↦ c ])
          cards bundle p
      else (nothing_published, record p { buffer = [] })

  unfoldable pub flush :
      Now
      → Option RunContext
      → List (InsightCard F)
      → Option (DigestBundle F)
      → Publisher F S
      → PublishOutput × Publisher F S
  unfolding flush_buffer
  flush now ctx cards bundle p = flush_buffer now ctx cards bundle p p.buffer

  unfoldable pub publish_one : Now → Pair F → Publisher F S → Publisher F S
  unfolding flush
  publish_one now pair p =
      let q : Publisher F S = record p { buffer = p.buffer ++ pair ∷ [] } in
      if config.enabled
      then if leb config.batch_size (length q.buffer) then (flush now none [] none q).1 else q
      else p

  unfoldable pub close : Now → Publisher F S → Publisher F S
  unfolding flush
  close now p = (flush now none [] none p).1

  -- The calls that the consumer makes: one document after another, each at its own time.
  unfoldable pub publish_all : List (Now × Pair F) → Publisher F S → Publisher F S
  unfolding publish_one
  publish_all [] p = p
  publish_all ((now, pair) ∷ rest) p = publish_all rest (publish_one now pair p)
