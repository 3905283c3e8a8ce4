-- ===== src/Publisher/Digest.antt =====
-- Layer 1: analytics.report.digest (publish_digest.py). A report that is absent has no rows here.
use analysis_srv.Prelude.{ℕ, true, Option, none, some, [], map, take, if◌then◌else◌}
use analysis_srv.Prelude.Text.{non_empty, lower, replace_char}
use analysis_srv.Publisher.{
  RunContext, SovRow, BuzzTopicRow, TopIssueRow, DigestBundle, DigestPayload,
}

module _ {F : Type 0} where
  unfoldable pub map_entity_row : SovRow F → SovRow F
  unfolding lower
  map_entity_row row = record row { entity_type = lower row.entity_type }

  -- A topic without a key gets its label, lowered and with `_` for spaces.
  unfoldable pub map_topic_row : BuzzTopicRow F → BuzzTopicRow F
  unfolding lower replace_char non_empty
  map_topic_row row = record row {
    reporting_topic_key =
        if non_empty row.reporting_topic_key
        then row.reporting_topic_key
        else replace_char b' ' "_" (lower row.reporting_topic_label);
    representative_texts = take 3 row.representative_texts;
    salient_terms = take 10 row.salient_terms;
  }

  unfoldable pub map_issue_row : TopIssueRow F → TopIssueRow F
  map_issue_row row = row

  unfoldable pub build_report_digest_payload :
      RunContext → ℕ → Option (DigestBundle F) → DigestPayload F
  unfolding map_entity_row map_topic_row map_issue_row
  build_report_digest_payload ctx total bundle = record {
    project_id = ctx.project_id;
    campaign_id = ctx.campaign_id;
    run_id = ctx.run_id;
    analysis_window_start = ctx.analysis_window_start;
    analysis_window_end = ctx.analysis_window_end;
    domain_overlay = ctx.domain_overlay;
    platform = ctx.platform;
    total_mentions = total;
    top_entities = elim bundle [ none ↦ [] | some b ↦ map map_entity_row (take 10 b.entities) ];
    top_topics = elim bundle [ none ↦ [] | some b ↦ map map_topic_row (take 10 b.topic_buzz) ];
    top_issues = elim bundle [ none ↦ [] | some b ↦ map map_issue_row (take 10 b.issues) ];
    should_index = true;
  }
