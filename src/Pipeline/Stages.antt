-- ===== src/Pipeline/Stages.antt =====
-- The stages of run_pipeline.py. A stage whose service is missing, or that has no mentions to work
-- on, returns the facts as they are.
use analysis_srv.Prelude.{
  String, Bool, true, false, none, some, List, [], ◌∷◌, ◌++◌, filter, length, head?, if◌then◌else◌,
}
use analysis_srv.Prelude.Result.{Result, ok, err}
use analysis_srv.Pipeline.{Kinds, Batch, PipelineFacts, PipelineServices, PipelineConfig, Progress}

infixl 5 ◌>>=◌
abbrev pub ◌>>=◌ : {A B : Type 0} → Result String A → (A → Result String B) → Result String B
ok a >>= f = f a
err e >>= f = err e

abbrev pub is_empty : {A : Type 0} → List A → Bool
is_empty [] = true
is_empty (x ∷ xs) = false

module _ (K : Kinds) (batch : Batch K.Record) (config : PipelineConfig K) where
  abbrev pub Stage : Type 0
  Stage = Progress K → Result String (Progress K)

  abbrev services : PipelineServices K
  services = config.services

  abbrev with_facts : Progress K → PipelineFacts K → Progress K
  with_facts p facts = record p { facts = facts }

  unfoldable pub stage_normalize : Stage
  stage_normalize p = elim services.normalization [
    | none ↦ ok p
    | some normalize ↦ do
      (mentions, filtered) ← normalize batch
      ok (
          with_facts p (record p.facts {
            normalized_records = mentions;
            filtered_out_unsupported_language = filtered;
          }))
  ]

  unfoldable pub stage_dedup : Stage
  stage_dedup p = elim services.dedup [
    | none ↦ ok p
    | some annotate ↦ if is_empty p.facts.normalized_records then ok p else do
      (updated, clusters) ← annotate p.facts.normalized_records
      ok (with_facts p (record p.facts { normalized_records = updated; dedup_clusters = clusters }))
  ]

  unfoldable pub stage_spam : Stage
  stage_spam p = elim services.spam [
    | none ↦ ok p
    | some annotate ↦ if is_empty p.facts.normalized_records then ok p else do
      (updated, authors) ← annotate p.facts.normalized_records
      ok (with_facts p (record p.facts { normalized_records = updated; spam_scores = authors }))
  ]

  unfoldable pub stage_threads : Stage
  stage_threads p = elim services.threads [
    | none ↦ ok p
    | some build ↦ if is_empty p.facts.normalized_records then ok p else do
      bundle ← build p.facts.normalized_records
      ok (with_facts p (record p.facts { thread_bundles = bundle ∷ [] }))
  ]

  -- With mentions at hand only the records that they stem from are analysed.
  abbrev records_for_nlp : Progress K → List K.Record
  records_for_nlp p =
      if is_empty p.facts.normalized_records
      then batch.records
      else filter (services.selects p.facts.normalized_records) batch.records

  unfoldable pub stage_nlp : Stage
  stage_nlp p = elim services.nlp_enricher [
    | none ↦ ok p
    | some enrich_batch ↦ do
      nlp_facts ← enrich_batch (records_for_nlp p) batch.project_id
      ok (
          with_facts p (record p.facts {
            nlp_facts = nlp_facts;
            nlp_input_records = length (records_for_nlp p);
          }))
  ]

  unfoldable pub stage_enrichment : Stage
  stage_enrichment p = elim services.enrichment [
    | none ↦ ok p
    | some enrich ↦ if is_empty p.facts.normalized_records then ok p else do
      bundle ← enrich p.facts.normalized_records (head? p.facts.thread_bundles)
      ok (with_facts p (record p.facts { enrichment_bundle = some bundle }))
  ]

  -- One `enqueue` for each fact; an exception of the queue is dropped.
  unfoldable pub enqueue_all : (K.Fact → K.Queue → K.Queue) → List K.Fact → K.Queue → K.Queue
  enqueue_all enqueue [] q = q
  enqueue_all enqueue (fact ∷ facts) q = enqueue_all enqueue facts (enqueue fact q)

  unfoldable pub stage_review : Stage
  unfolding enqueue_all
  stage_review p = elim services.review [
    | none ↦ ok p
    | some enqueue ↦ elim p.facts.enrichment_bundle [
      | none ↦ ok p
      | some bundle ↦ ok (record p {
        queue = enqueue_all enqueue (bundle.entity_facts ++ bundle.topic_facts) p.queue;
      })
    ]
  ]

  unfoldable pub stage_reporting : Stage
  stage_reporting p = elim services.reporting [
    | none ↦ ok p
    | some report ↦ if is_empty p.facts.normalized_records then ok p else do
      (bi, cards) ← report p.facts
      ok (with_facts p (record p.facts { bi_bundle = some bi; insight_cards = cards }))
  ]

  unfoldable pub stage_crisis : Stage
  stage_crisis p = elim services.crisis [
    | none ↦ ok p
    | some assess ↦ elim p.facts.bi_bundle [
      | none ↦ ok p
      | some bi ↦ do
        assessment ← assess bi
        ok (with_facts p (record p.facts { crisis_assessment = some assessment }))
    ]
  ]
