-- ===== src/Pipeline/Report.antt =====
-- What a run of the pipeline reports, and what it leaves alone when a stage is off.
use mathlib.Core.Path.{subst}
use analysis_srv.Prelude.{
  ◌≡◌, refl, sym, ap, ◌⊎◌, inl, inr, Bool, true, false, not, none, List, [], ◌∷◌, map, Bool-cases,
  arith, String, All,
}
use analysis_srv.Prelude.Result.{Result, ok, err, Result-cases}
use analysis_srv.Pipeline.{Kinds, Batch, PipelineConfig, Progress, no_facts}
use analysis_srv.Pipeline.Stages.{
  stage_dedup, stage_spam, stage_threads, stage_nlp, stage_enrichment, stage_review,
  stage_reporting, stage_crisis,
}
use analysis_srv.Pipeline.Run.{
  StageName, normalization, dedup, spam, threads, nlp, enrichment, review, reporting, crisis,
  StageResult, StageError, Row, stages, run_stage, run_stages, run_pipeline, skipped_result,
  stage_result,
}

module _ (K : Kinds) (batch : Batch K.Record) (config : PipelineConfig K) where
  abbrev Outcome : Type 0
  Outcome = Result StageError (Progress K × List StageResult)

  abbrev entry : StageResult → StageName × Bool
  entry result = (result.stage_name, result.skipped)

  abbrev pub expected : Row K batch config → StageName × Bool
  expected row = (row.stage_name, not row.enabled)

  -- The row is on, has the error's name, and raises its cause in some progress.
  abbrev Raises : Row K batch config → StageError → Type 0
  Raises row e =
      (row.enabled ≡ true)
      × (row.stage_name ≡ e.stage_name)
      × ((p : Progress K) × (row.stage p ≡ err e.cause))

  abbrev IsRaisedBy : StageError → List (Row K batch config) → Type 0
  IsRaisedBy e [] = ⊥
  IsRaisedBy e (row ∷ rows) = Raises row e ⊎ IsRaisedBy e rows

  abbrev pub Explains : List (Row K batch config) → Outcome → Type 0
  Explains rows (ok (q, results)) = map entry results ≡ map expected rows
  Explains rows (err e) = IsRaisedBy e rows

  abbrev add_result : StageResult → Outcome → Outcome
  add_result result (ok (q, results)) = ok (q, result ∷ results)
  add_result result (err e) = err e

  add_result-Explains :
      (row : Row K batch config) (rows : List (Row K batch config)) (result : StageResult)
      (outcome : Outcome)
      → entry result ≡ expected row
      → Explains rows outcome
      → Explains (row ∷ rows) (add_result result outcome)
  add_result-Explains row rows result (ok (q, results)) same h = cc
  add_result-Explains row rows result (err e) same h = inr h

  -- For any table of stages: a run that ends well reports each stage once, in the table's order, as
  -- skipped exactly if its flag is off; a run that fails names a stage of the table that is on and
  -- that raised the cause.
  pub run_stages-Explains :
      (rows : List (Row K batch config)) (p : Progress K)
      → Explains rows (run_stages K batch config rows p)
  unfolding run_stages run_stage skipped_result stage_result
  run_stages-Explains [] p = refl
  run_stages-Explains (row ∷ rows) p = elim (Bool-cases row.enabled) [
    | inl on ↦ elim (Result-cases (row.stage p)) [
      | inl (q, e) ↦ simp on (
          rw e (
            add_result-Explains row rows (stage_result K batch config row.stage_name q.facts)
              (run_stages K batch config rows q) (ap (λ b. (row.stage_name, not b)) (sym on))
              (run_stages-Explains rows q)))
      | inr (cause, e) ↦ simp on (rw e (inl (on, refl, (p, e))))
    ]
    | inr off ↦ simp off (
        add_result-Explains row rows (skipped_result K batch config row.stage_name)
          (run_stages K batch config rows p) (ap (λ b. (row.stage_name, not b)) (sym off))
          (run_stages-Explains rows p))
  ]

  -- A run of the whole pipeline that ends well reports the nine stages in their fixed order, each as
  -- skipped exactly if its flag is off; a run that fails names a stage that is on and that raised the
  -- cause.
  pub run_pipeline-Explains :
      (queue : K.Queue)
      → Explains (stages K batch config) (run_pipeline K batch config queue)
        × (map expected (stages K batch config)
            ≡ (normalization, not config.enable_normalization)
              ∷ (dedup, not config.enable_dedup)
              ∷ (spam, not config.enable_spam)
              ∷ (threads, not config.enable_threads)
              ∷ (nlp, not config.enable_nlp)
              ∷ (enrichment, not config.enable_enrichment)
              ∷ (review, not config.enable_review)
              ∷ (reporting, not config.enable_reporting)
              ∷ (crisis, not config.enable_crisis)
              ∷ [])
  unfolding run_pipeline
  run_pipeline-Explains queue = (
    run_stages-Explains (stages K batch config) (record { facts = no_facts K; queue = queue }),
    refl,
  )

  abbrev Ends : (Progress K → Type 0) → Result String (Progress K) → Type 0
  Ends P (ok q) = P q
  Ends P (err e) = Unit

  -- Nothing that is derived from mentions is there.
  abbrev pub HasNoMentions : Progress K → Type 0
  HasNoMentions p =
      (p.facts.normalized_records ≡ [])
      × (p.facts.dedup_clusters ≡ [])
      × (p.facts.spam_scores ≡ [])
      × (p.facts.thread_bundles ≡ [])
      × (p.facts.enrichment_bundle ≡ none)
      × (p.facts.insight_cards ≡ [])
      × (p.facts.bi_bundle ≡ none)
      × (p.facts.crisis_assessment ≡ none)

  stage_dedup_keeps :
      (p : Progress K) → HasNoMentions p → Ends HasNoMentions (stage_dedup K batch config p)
  unfolding stage_dedup
  stage_dedup_keeps p h = ground arith

  stage_nlp_keeps :
      (p : Progress K) → HasNoMentions p → Ends HasNoMentions (stage_nlp K batch config p)
  unfolding stage_nlp
  stage_nlp_keeps p h = ground arith

  stage_review_keeps :
      (p : Progress K) → HasNoMentions p → Ends HasNoMentions (stage_review K batch config p)
  unfolding stage_review
  stage_review_keeps p h = ground arith

  stage_crisis_keeps :
      (p : Progress K) → HasNoMentions p → Ends HasNoMentions (stage_crisis K batch config p)
  unfolding stage_crisis
  stage_crisis_keeps p h = ground arith

  stage_spam_keeps :
      (p : Progress K) → HasNoMentions p → Ends HasNoMentions (stage_spam K batch config p)
  unfolding stage_spam
  stage_spam_keeps p h = ground arith

  stage_threads_keeps :
      (p : Progress K) → HasNoMentions p → Ends HasNoMentions (stage_threads K batch config p)
  unfolding stage_threads
  stage_threads_keeps p h = ground arith

  stage_enrichment_keeps :
      (p : Progress K) → HasNoMentions p → Ends HasNoMentions (stage_enrichment K batch config p)
  unfolding stage_enrichment
  stage_enrichment_keeps p h = ground arith

  stage_reporting_keeps :
      (p : Progress K) → HasNoMentions p → Ends HasNoMentions (stage_reporting K batch config p)
  unfolding stage_reporting
  stage_reporting_keeps p h = ground arith

  abbrev pub AlsoEnds : (Progress K → Type 0) → Outcome → Type 0
  AlsoEnds P (ok (q, results)) = P q
  AlsoEnds P (err e) = Unit

  -- The row is off, or its stage keeps the property.
  abbrev Keeps : (Progress K → Type 0) → Row K batch config → Type 0
  Keeps P row = (row.enabled ≡ false) ⊎ ((p : Progress K) → P p → Ends P (row.stage p))

  add_result_keeps :
      (P : Progress K → Type 0) (result : StageResult) (outcome : Outcome)
      → AlsoEnds P outcome
      → AlsoEnds P (add_result result outcome)
  add_result_keeps P result (ok (q, results)) h = h
  add_result_keeps P result (err e) h = h

  kept :
      (P : Progress K → Type 0) (row : Row K batch config) (p q : Progress K)
      → row.enabled ≡ true
      → row.stage p ≡ ok q
      → Keeps P row
      → P p
      → P q
  kept P row p q on e (inl off) h = ground arith
  kept P row p q on e (inr keep) h = subst (Ends P) e (keep p h)

  run_stages-Keeps :
      (P : Progress K → Type 0) (rows : List (Row K batch config)) (p : Progress K)
      → All (Keeps P) rows
      → P p
      → AlsoEnds P (run_stages K batch config rows p)
  unfolding run_stages run_stage
  run_stages-Keeps P [] p keeps h = h
  run_stages-Keeps P (row ∷ rows) p (keep, keeps) h = elim (Bool-cases row.enabled) [
    | inl on ↦ elim (Result-cases (row.stage p)) [
      | inl (q, e) ↦ simp on (
          rw e (
            add_result_keeps P (stage_result K batch config row.stage_name q.facts)
              (run_stages K batch config rows q)
              (run_stages-Keeps P rows q keeps (kept P row p q on e keep h))))
      | inr (cause, e) ↦ simp on (rw e tt)
    ]
    | inr off ↦ simp off (
        add_result_keeps P (skipped_result K batch config row.stage_name)
          (run_stages K batch config rows p) (run_stages-Keeps P rows p keeps h))
  ]

  -- With normalization off, a run that ends well has made nothing that is derived from mentions,
  -- whatever the other flags and services: in particular no report and no crisis assessment.
  pub run_pipeline-HasNoMentions :
      (queue : K.Queue)
      → config.enable_normalization ≡ false
      → AlsoEnds HasNoMentions (run_pipeline K batch config queue)
  unfolding run_pipeline
  run_pipeline-HasNoMentions queue off =
      run_stages-Keeps HasNoMentions (stages K batch config)
        (record { facts = no_facts K; queue = queue })
        (
          inl off,
          (
            inr stage_dedup_keeps,
            (
              inr stage_spam_keeps,
              (
                inr stage_threads_keeps,
                (
                  inr stage_nlp_keeps,
                  (
                    inr stage_enrichment_keeps,
                    (
                      inr stage_review_keeps,
                      (inr stage_reporting_keeps, (inr stage_crisis_keeps, tt)),
                    ),
                  ),
                ),
              ),
            ),
          ),
        )
        (refl, refl, refl, refl, refl, refl, refl, refl)
