-- ===== src/Publisher/Examples.antt =====
-- Runs of the publisher with a producer whose `send` raises from some message on.
use analysis_srv.Prelude.{ℕ, zero, suc, String, refl, Bool, true, false, none, List, [], ◌∷◌, map}
use analysis_srv.Prelude.Result.{Result, ok}
use analysis_srv.Prelude.Int.{ℤ, pos}
use analysis_srv.Prelude.Float.{scaled}
use analysis_srv.Prelude.Json.{end}
use analysis_srv.Model.Samples.{sample_record, sample_message}
use analysis_srv.Publisher.{
  Pair, RunContext, ContractPublishConfig, InsightCard, InsightPayload, DigestPayload, BatchPayload,
}
use analysis_srv.Publisher.Batch.{document_with}
use analysis_srv.Publisher.Insights.{build_insights_published_payloads}
use analysis_srv.Publisher.Digest.{build_report_digest_payload}
use analysis_srv.Publisher.Order.{Message, Producer, publish_in_required_order}
use analysis_srv.Publisher.Buffer.{Now, Publisher, flush_batch, publish_all}
use analysis_srv.Publisher.Ordering.{required, Sent, publish_in_required_order-Sent}
use analysis_srv.Publisher.Source.{source_with}
use analysis_srv.Publisher.Flush.{Flushed, flush_batch-Flushed}
use analysis_srv.Publisher.Delivery.{Progress, publish_all-Progress}

-- Takes as many messages as the number says, then none.
abbrev takes : Message ℤ → ℕ → Bool × ℕ
takes m zero = (false, 0)
takes m (suc n) = (true, n)

-- The URL as it is.
abbrev with_query_param : String → String → String → Result String String
with_query_param url name value = ok url

abbrev pair : String → Pair ℤ
pair doc_id = record { uap = sample_record doc_id "post"; msg = sample_message doc_id }

abbrev ctx : RunContext
ctx = record {
  run_id = "r";
  project_id = "p";
  campaign_id = "c";
  platform = "tiktok";
  domain_overlay = "";
  analysis_window_start = "";
  analysis_window_end = "";
}

abbrev card : String → InsightCard ℤ
card title = record {
  insight_type = "trend";
  title = title;
  summary = "s";
  confidence = pos 0;
  time_window = "";
  supporting_metrics = end;
  evidence_references = [];
}

abbrev cards : List (InsightCard ℤ)
cards = card "one" ∷ card "" ∷ []

abbrev config : ContractPublishConfig
config = record { batch_size = 2; enabled = true; domain_overlay = "" }

abbrev producer : ℕ → Producer ℤ ℕ
producer n = record { enqueued = []; state = n }

abbrev documents : BatchPayload ℤ
documents = record {
  project_id = "p";
  campaign_id = "c";
  documents =
      document_with (pair "a") (source_with with_query_param (sample_record "a" "post") "") ∷ [];
}

abbrev payloads : List (InsightPayload ℤ)
payloads = build_insights_published_payloads cards ctx

abbrev digest_payload : DigestPayload ℤ
digest_payload = build_report_digest_payload ctx 1 none

publish_in_required_order-Sent_example :
    Sent
      (required documents payloads digest_payload)
      (producer 2)
      (publish_in_required_order takes documents payloads digest_payload (producer 2))
publish_in_required_order-Sent_example =
    publish_in_required_order-Sent takes documents payloads digest_payload (producer 2)

abbrev publisher : Publisher ℤ ℕ
publisher = record { buffer = pair "a" ∷ []; producer = producer 2 }

flush_batch-Flushed_example :
    Flushed with_query_param ctx cards none publisher
      (flush_batch with_query_param takes config ctx cards none publisher)
flush_batch-Flushed_example =
    flush_batch-Flushed with_query_param takes config ctx cards none publisher

abbrev at : Now
at = record { run_id = "r"; iso = "2026-01-02T00:00:00Z" }

abbrev events : List (Now × Pair ℤ)
events = (at, pair "b") ∷ (at, pair "c") ∷ []

publish_all-Progress_example :
    Progress with_query_param takes config publisher
      (publish_all with_query_param takes config events publisher)
      (map (λ e. e.1) events)
publish_all-Progress_example =
    publish_all-Progress with_query_param takes config events publisher refl
