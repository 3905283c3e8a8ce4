-- ===== src/Lib.antt =====
-- A model of the analysis service and theorems about it.
--
-- The service consumes records of social mentions from Kafka, analyses them in a pipeline of stages,
-- and publishes the results in three layers. `apps/consumer` wires it; `internal/consumer/server.py`
-- hands each batch to `internal/ingestion`, then to `internal/pipeline`, whose stages call the
-- sub-usecases; a stage puts unsure facts into the review queue (`internal/review`); the crisis
-- scorer (`internal/crisis`) reads the reports; the consumer publishes each analysed record through
-- `internal/contract_publisher` and applies the crisis level to the project. `internal/outbox` relays
-- stored messages.
--
--   Prelude      names and lemmas that the files share: lists, dicts, stable sort, texts, JSON, an
--                interface of floats with an instance in millionths
--   Model        internal/model: UAPRecord with from_ingest_record (Uap, Uap/Parse), InsightMessage
--                as the publisher reads it (Insight); MentionRecord of internal/normalization
--                (Mention), sample values (Samples)
--   Ingestion    internal/ingestion: adapt_kafka_records, ingest_batch, detect_depth,
--                derive_root_id
--   Pipeline     internal/pipeline: types (Pipeline), one function for each _stage_* (Stages), the
--                table _STAGES, _run_stage and run_pipeline (Run)
--   Review       internal/review: items, the repository interface and the use cases (Review), the
--                in-memory repository (Memory)
--   Dedup        internal/dedup: types and helpers (Dedup), _UnionFind (UnionFind), _exact_clusters
--                (Exact), _near_clusters (Near, Near/Clusters), annotate (Annotate)
--   Spam         internal/spam: types (Spam), _mention_features (Features), _burstiness_score (Burst),
--                _author_profile (Author), annotate (Annotate)
--   Threads      internal/threads: the walk up the parents (Threads), the rest of build_threads (Build)
--   Intent       internal/intent_classification: process and the intents
--   Impact       internal/impact_calculation: helpers.py and process.py
--   Domain       internal/domain: DomainRegistry and DomainLoader
--   Kafka        pkg/kafka/consumer.py: consume_batch
--   Crisis       internal/crisis: constants (Constants), _thresholds_from_config (Config), signals,
--                score and level (Crisis)
--   Consumer     internal/consumer/server.py: levels and the alert's guards (Levels),
--                _maybe_apply_crisis_runtime with its state and lock (Runtime),
--                _should_skip_insight (Gate), _persist_and_publish (Persist), the parse and the
--                grouping of _handle_messages_batch (Batch)
--   Publisher    internal/contract_publisher: types (Publisher), helpers.py (Helpers),
--                publish_batch.py (Batch, Source), publish_insights.py (Insights), publish_digest.py
--                (Digest), publish_order.py (Order), usecase.py (Buffer); proofs in Gates, Ordering, Flush
--                and Delivery
--   Outbox       internal/outbox: the table, write_outbox_record and relay_pending_records
--
-- State is passed explicitly and an exception is the `err` of a `Result`. The store of the review
-- queue, the Kafka producer and the clients of the consumer are arguments: on which messages the
-- producer's `send` raises is any function of the message and a state, a Redis call fails where a
-- flag of the call says so, and times and fresh ids are given. A message that `send` takes is in
-- the client's queue: the code does not wait for the broker's answer, and the model has no broker.
-- All loops but two are over finite lists. The walk up the parents of a mention is on fuel, which
-- is enough if it exceeds the height of the first parent, since each round goes one step down;
-- where the parents form a cycle none is. The `find` of the union-find is on fuel too; the number
-- of its items is enough, since a path to a root meets no item twice. Floats are an interface with
-- an order; where its laws are needed they are a hypothesis, and the instance in millionths has
-- them.
--
-- Not modelled: logging and metrics, the probe server, SQL and its row locks, the HTTP service,
-- the language models, and the services of normalization, enrichment and reporting; the pipeline
-- takes all the stages' services as parameters. Digests, regular expressions and the logarithm
-- are parameters. The database of the outbox runs each statement at once and one worker runs at a
-- time. JSON values of a type that the wire format does not have at their place are read as
-- absent.
pub mod Prelude
pub mod Review
pub mod Outbox
pub mod Model
pub mod Publisher
pub mod Consumer
pub mod Crisis
pub mod Threads
pub mod Pipeline
pub mod Ingestion
pub mod Dedup
pub mod Spam
pub mod Domain
pub mod Intent
pub mod Impact
pub mod Kafka
