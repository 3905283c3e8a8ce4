-- ===== src/Pipeline/Run.antt =====
-- `_run_stage` and `run_pipeline`: the stages in their order, each under its flag.
use analysis_srv.Prelude.{ℕ, String, Bool, true, false, List, [], ◌∷◌, length, if◌then◌else◌}
use analysis_srv.Prelude.Result.{Result, ok, err}
use analysis_srv.Pipeline.{Kinds, Batch, PipelineFacts, PipelineConfig, Progress, no_facts}
use analysis_srv.Pipeline.Stages.{
  Stage, is_empty, stage_normalize, stage_dedup, stage_spam, stage_threads, stage_nlp,
  stage_enrichment, stage_review, stage_reporting, stage_crisis,
}

pub data StageName : Type 0 where
  normalization dedup spam threads nlp enrichment review reporting crisis : StageName

pub record StageResult : Type 0 where
  pub stage_name : StageName
  pub records_in : ℕ
  pub records_out : ℕ
  pub skipped : Bool

-- StageError, with the stage that raised.
pub record StageError : Type 0 where
  pub stage_name : StageName
  pub cause : String

module _ (K : Kinds) (batch : Batch K.Record) (config : PipelineConfig K) where
  -- A row of the table `_STAGES`, its flag looked up.
  pub record Row : Type 0 where
    pub stage_name : StageName
    pub stage : Stage K batch config
    pub enabled : Bool

  abbrev pub stages : List Row
  stages =
      record {
        stage_name = normalization;
        stage = stage_normalize K batch config;
        enabled = config.enable_normalization;
      }
      ∷ record {
        stage_name = dedup;
        stage = stage_dedup K batch config;
        enabled = config.enable_dedup;
      }
      ∷ record {
        stage_name = spam;
        stage = stage_spam K batch config;
        enabled = config.enable_spam;
      }
      ∷ record {
        stage_name = threads;
        stage = stage_threads K batch config;
        enabled = config.enable_threads;
      }
      ∷ record { stage_name = nlp; stage = stage_nlp K batch config; enabled = config.enable_nlp }
      ∷ record {
        stage_name = enrichment;
        stage = stage_enrichment K batch config;
        enabled = config.enable_enrichment;
      }
      ∷ record {
        stage_name = review;
        stage = stage_review K batch config;
        enabled = config.enable_review;
      }
      ∷ record {
        stage_name = reporting;
        stage = stage_reporting K batch config;
        enabled = config.enable_reporting;
      }
      ∷ record {
        stage_name = crisis;
        stage = stage_crisis K batch config;
        enabled = config.enable_crisis;
      }
      ∷ []

  abbrev records_in : ℕ
  records_in = length batch.records

  unfoldable pub skipped_result : StageName → StageResult
  skipped_result name = record {
    stage_name = name;
    records_in = records_in;
    records_out = records_in;
    skipped = true;
  }

  unfoldable pub stage_result : StageName → PipelineFacts K → StageResult
  stage_result name facts = record {
    stage_name = name;
    records_in = records_in;
    records_out =
        if is_empty facts.normalized_records then records_in else length facts.normalized_records;
    skipped = false;
  }

  unfoldable pub run_stage : Row → Progress K → Result StageError (Progress K × StageResult)
  unfolding stage_result
  run_stage row p = elim (row.stage p) [
    | ok q ↦ ok (q, stage_result row.stage_name q.facts)
    | err e ↦ err (record { stage_name = row.stage_name; cause = e })
  ]

  unfoldable pub run_stages :
      List Row → Progress K → Result StageError (Progress K × List StageResult)
  unfolding run_stage skipped_result
  run_stages [] p = ok (p, [])
  run_stages (row ∷ rows) p =
      if row.enabled
      then elim (run_stage row p) [
        | err e ↦ err e
        | ok (q, result) ↦ elim (run_stages rows q) [
          | err e ↦ err e
          | ok (r, results) ↦ ok (r, result ∷ results)
        ]
      ]
      else elim (run_stages rows p) [
        | err e ↦ err e
        | ok (r, results) ↦ ok (r, skipped_result row.stage_name ∷ results)
      ]

  unfoldable pub run_pipeline : K.Queue → Result StageError (Progress K × List StageResult)
  unfolding run_stages
  run_pipeline queue = run_stages stages (record { facts = no_facts K; queue = queue })
