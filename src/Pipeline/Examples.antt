-- ===== src/Pipeline/Examples.antt =====
-- Runs of the pipeline with a few services.
use analysis_srv.Prelude.{ℕ, String, ◌≡◌, refl, Bool, true, false, none, some, List, [], ◌∷◌, map}
use analysis_srv.Prelude.Result.{ok, err}
use analysis_srv.Pipeline.{Kinds, Batch, PipelineServices, PipelineConfig}
use analysis_srv.Pipeline.Run.{
  normalization, dedup, spam, threads, nlp, enrichment, review, reporting, crisis, stages,
  run_pipeline,
}
use analysis_srv.Pipeline.Report.{
  Explains, expected, AlsoEnds, HasNoMentions, run_pipeline-Explains, run_pipeline-HasNoMentions,
}

abbrev kinds : Kinds
kinds = record {
  Record = String;
  Mention = String;
  Cluster = String;
  Author = String;
  Threads = ℕ;
  NlpFact = String;
  Fact = String;
  Bi = ℕ;
  Card = String;
  Assessment = ℕ;
  Queue = List String;
}

-- The mentions are the records, and the deduplication raises.
abbrev services : PipelineServices kinds
services = record {
  normalization = some (λ b. ok (b.records, 0));
  dedup = some (λ ms. err "no memory");
  spam = none;
  threads = none;
  nlp_enricher = some (λ rs project. ok rs);
  enrichment = none;
  review = none;
  reporting = none;
  crisis = none;
  selects = λ ms r. true;
}

abbrev config : Bool → PipelineConfig kinds
config normalizes = record {
  enable_normalization = normalizes;
  enable_dedup = true;
  enable_spam = false;
  enable_threads = true;
  enable_nlp = true;
  enable_enrichment = true;
  enable_review = false;
  enable_reporting = true;
  enable_crisis = true;
  services = services;
}

abbrev some_batch : Batch String
some_batch = record { records = "a" ∷ "b" ∷ []; project_id = "p"; campaign_id = "c" }

run_pipeline-Explains_example :
    Explains kinds some_batch
      (config true)
      (stages kinds some_batch (config true))
      (run_pipeline kinds some_batch (config true) [])
    × (map (expected kinds some_batch (config true)) (stages kinds some_batch (config true))
        ≡ (normalization, false)
          ∷ (dedup, false)
          ∷ (spam, true)
          ∷ (threads, false)
          ∷ (nlp, false)
          ∷ (enrichment, false)
          ∷ (review, true)
          ∷ (reporting, false)
          ∷ (crisis, false)
          ∷ [])
run_pipeline-Explains_example = run_pipeline-Explains kinds some_batch (config true) []

run_pipeline-HasNoMentions_example :
    AlsoEnds kinds some_batch
      (config false)
      (HasNoMentions kinds some_batch (config false))
      (run_pipeline kinds some_batch (config false) [])
run_pipeline-HasNoMentions_example =
    run_pipeline-HasNoMentions kinds some_batch (config false) [] refl
