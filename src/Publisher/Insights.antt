-- ===== src/Publisher/Insights.antt =====
-- Layer 2: one analytics.insights.published message for each insight card (publish_insights.py).
use Prim.Native.String.{[] as no_text, ◌∷◌ as char_then, ◌++◌ as cat}
use text.Mathlib.Text.{starts_with}
use analysis_srv.Prelude.{String, Bool, ◌&&◌, Option, none, some, List, map, filter, if◌then◌else◌}
use analysis_srv.Prelude.Float.{Float}
use analysis_srv.Prelude.Json.{get}
use analysis_srv.Prelude.Text.{
  non_empty, or_else, or_empty, strip, len, drop_chars, ends_with, replace_char,
}
use analysis_srv.Publisher.{InsightCard, InsightPayload, RunContext}

module _ {F : Type 0} ⦃fl : Float F⦄ where
  -- Cards without a title or a summary, or of very low confidence, are not published.
  unfoldable pub is_publishable : InsightCard F → Bool
  unfolding non_empty
  is_publishable card =
      non_empty card.title && (non_empty card.summary && fl.le (fl.lit 3 10) card.confidence)

-- s.split(sep, 1), if the separator is there
unfoldable pub split_once : String → String → Option (String × String)
unfolding drop_chars len
split_once sep no_text = none
split_once sep (char_then c s) =
    let rest = split_once sep s in
    if starts_with (char_then c s) sep
    then some (no_text, drop_chars (len sep) (char_then c s))
    else elim rest [ none ↦ none | some (a, b) ↦ some (char_then c a, b) ]

unfoldable pub ensure_z : String → String
unfolding replace_char ends_with
ensure_z ts = let t = replace_char b' ' "T" ts in if ends_with t b'Z' then t else cat t "Z"

unfoldable pub parse_time_window : String → Option String × Option String
unfolding split_once ensure_z strip
parse_time_window time_window = elim (split_once " to " time_window) [
  | none ↦ (none, none)
  | some (start, finish) ↦ (some (ensure_z (strip start)), some (ensure_z (strip finish)))
]

module _ {F : Type 0} ⦃fl : Float F⦄ where
  unfoldable pub map_card : RunContext → InsightCard F → InsightPayload F
  unfolding parse_time_window is_publishable or_empty get
  map_card ctx card =
      let (window_start, window_end) = parse_time_window card.time_window in
      record {
        project_id = ctx.project_id;
        campaign_id = ctx.campaign_id;
        run_id = ctx.run_id;
        insight_type = card.insight_type;
        title = card.title;
        summary = card.summary;
        confidence = fl.round 6 card.confidence;
        analysis_window_start = or_else (or_empty window_start) ctx.analysis_window_start;
        analysis_window_end = or_else (or_empty window_end) ctx.analysis_window_end;
        supporting_metrics = card.supporting_metrics;
        evidence_references = card.evidence_references;
        should_index = is_publishable card;
        reportability_score = get "reportability_score" card.supporting_metrics;
        usefulness_score = get "usefulness_score" card.supporting_metrics;
      }

  unfoldable pub build_insights_published_payloads :
      List (InsightCard F) → RunContext → List (InsightPayload F)
  unfolding is_publishable map_card
  build_insights_published_payloads cards ctx = map (map_card ctx) (filter is_publishable cards)
