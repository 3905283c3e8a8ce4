-- ===== src/Publisher/Batch.antt =====
-- Layer 3: the documents of analytics.batch.completed (publish_batch.py).
use analysis_srv.Prelude.{String, Bool, ◌&&◌, ◌||◌, List, [], ◌∷◌, map, filter}
use analysis_srv.Prelude.Dict.{Dict}
use analysis_srv.Prelude.Json.{Json}
use analysis_srv.Prelude.Result.{Result, ok, err}
use analysis_srv.Prelude.Float.{Float}
use analysis_srv.Prelude.Text.{non_empty, or_else, or_empty, lower, upper}
use analysis_srv.Model.Insight.{InsightMessage, NlpAspect, NlpEntity}
use analysis_srv.Publisher.{Pair, Document, BatchPayload, RunContext}
use analysis_srv.Publisher.Helpers.{
  normalize_platform_upper, detect_media_type, truncate_summary, normalize_sentiment_score,
  summary_max_chars,
}
use analysis_srv.Publisher.Source.{map_source}

unfoldable pub should_include : {F : Type 0} → InsightMessage F → Bool
unfolding non_empty
should_include msg =
    non_empty msg.identity.doc_id
    && (non_empty msg.content.clean_text || non_empty msg.content.text)

abbrev pub aspect_pair : NlpAspect → String × String
aspect_pair a = (upper a.aspect, upper (or_else a.polarity "NEUTRAL"))

abbrev pub entity_pair : NlpEntity → String × String
entity_pair e = (upper (or_else e.type "OTHER"), e.value)

abbrev pub has_type_and_value : NlpEntity → Bool
has_type_and_value e = non_empty e.type && non_empty e.value

module _ {F : Type 0} ⦃fl : Float F⦄ where
  -- The document, once its source block is known.
  unfoldable pub document_with : Pair F → Dict String (Json F) → Document F
  unfolding normalize_platform_upper detect_media_type truncate_summary normalize_sentiment_score
      non_empty or_empty lower upper
  document_with p source =
      let msg = p.msg in
      let label = msg.nlp.sentiment.label in
      let clean_text = or_else msg.content.clean_text msg.content.text in
      record {
        uap_id = msg.identity.doc_id;
        uap_type = lower (or_else msg.identity.doc_type "post");
        uap_media_type = detect_media_type p.uap.content;
        platform = normalize_platform_upper msg.identity.source_type;
        published_at = or_empty msg.identity.published_at;
        clean_text = clean_text;
        summary = or_else msg.content.summary (truncate_summary summary_max_chars clean_text);
        context_summary = msg.content.context_summary;
        sentiment_label = upper label;
        sentiment_score = fl.round 6 (normalize_sentiment_score label msg.nlp.sentiment.score);
        aspects = map aspect_pair msg.nlp.aspects;
        entities = map entity_pair (filter has_type_and_value msg.nlp.entities);
        relevance_score = fl.round 4 msg.business.relevance_score;
        relevance_reasons = msg.business.relevance_reasons;
        likes = msg.business.engagement.like_count;
        comments = msg.business.engagement.comment_count;
        shares = msg.business.engagement.share_count;
        views = msg.business.engagement.view_count;
        impact_score = fl.round 4 msg.business.impact_score;
        priority = upper msg.business.priority;
        rag = msg.should_index;
        source = source;
      }

module _ {F : Type 0} ⦃fl : Float F⦄
    (with_query_param : String → String → String → Result String String) where
  unfoldable pub map_document : Pair F → Result String (Document F)
  unfolding map_source document_with
  map_document p = elim (map_source with_query_param p.uap) [
    | ok source ↦ ok (document_with p source)
    | err e ↦ err e
  ]

  -- The comprehension over the pairs that pass: the first error is raised.
  unfoldable pub map_documents : List (Pair F) → Result String (List (Document F))
  unfolding map_document
  map_documents [] = ok []
  map_documents (p ∷ pairs) = elim (map_document p) [
    | err e ↦ err e
    | ok document ↦ elim (map_documents pairs) [
      | err e ↦ err e
      | ok documents ↦ ok (document ∷ documents)
    ]
  ]

  unfoldable pub build_batch_completed_payload :
      List (Pair F) → RunContext → Result String (BatchPayload F)
  unfolding should_include map_documents
  build_batch_completed_payload pairs ctx =
      elim (map_documents (filter (λ p. should_include p.msg) pairs)) [
        | err e ↦ err e
        | ok documents ↦ ok (record {
          project_id = ctx.project_id;
          campaign_id = ctx.campaign_id;
          documents = documents;
        })
      ]
