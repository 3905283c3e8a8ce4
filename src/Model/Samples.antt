-- ===== src/Model/Samples.antt =====
-- A record and its enriched message, for the runs of the other components.
use analysis_srv.Prelude.{String, true, false, Option, none, some, []}
use analysis_srv.Prelude.Int.{ℤ, pos}
use analysis_srv.Prelude.Json.{end}
use analysis_srv.Model.Uap.{UapRecord}
use analysis_srv.Model.Mention.{MentionRecord}
use analysis_srv.Model.Insight.{InsightMessage}

abbrev pub sample_record : String → String → UapRecord ℤ
sample_record doc_id doc_type = record {
  event_id = doc_id;
  ingest = record {
    project_id = "p";
    source = record { source_id = "s"; source_type = "TIKTOK" };
    received_at = "";
    mapping_id = "";
  };
  content = record {
    doc_id = doc_id;
    doc_type = doc_type;
    text = "hello";
    url = none;
    language = none;
    published_at = some "2026-01-02T00:00:00Z";
    author = record {
      author_id = none;
      display_name = none;
      username = none;
      avatar_url = none;
      is_verified = false;
    };
    parent_id = none;
    attachments = [];
  };
  engagement = record {
    like_count = pos 1;
    comment_count = pos 0;
    share_count = pos 0;
    view_count = pos 0;
    save_count = pos 0;
  };
  context = record { keywords_matched = []; campaign_id = some "c" };
  domain_type_code = "";
  raw = end;
}

abbrev pub sample_message : String → InsightMessage ℤ
sample_message doc_id = record {
  identity = record {
    source_type = "TIKTOK";
    source_id = "s";
    doc_id = doc_id;
    doc_type = "post";
    published_at = none;
  };
  content = record { text = "hello"; clean_text = "hello"; summary = ""; context_summary = "" };
  nlp = record {
    sentiment = record { label = "NEUTRAL"; score = pos 0 };
    aspects = [];
    entities = [];
  };
  business = record {
    engagement = record {
      like_count = pos 1;
      comment_count = pos 0;
      share_count = pos 0;
      view_count = pos 0;
    };
    impact_score = pos 0;
    priority = "LOW";
    relevance_score = pos 0;
    relevance_reasons = [];
  };
  should_index = true;
}

abbrev pub sample_mention : String → Option String → String → MentionRecord ℤ
sample_mention mention_id parent_id text = record {
  mention_id = mention_id;
  source_uap_id = mention_id;
  origin_id = mention_id;
  platform = "tiktok";
  project_id = "p";
  root_id = "a";
  parent_id = parent_id;
  depth = 0;
  author_id = "u";
  author_username = none;
  raw_text = text;
  normalized_text = text;
  normalized_text_compact = text;
  language = "vi";
  language_confidence = pos 0;
  language_supported = true;
  language_rejection_reason = none;
  mixed_language_uncertain = false;
  text_quality_label = "normal";
  text_quality_flags = [];
  text_quality_score = pos 1_000_000;
  hashtags = [];
  urls = [];
  emojis = [];
  semantic_route_hint = "semantic_full";
  dedup_cluster_id = none;
  dedup_kind = none;
  dedup_representative_mention_id = none;
  dedup_cluster_size = 1;
  dedup_similarity = none;
  dedup_weight = pos 1_000_000;
  mention_spam_score = pos 0;
  author_inorganic_score = pos 0;
  mention_suspicious = false;
  author_suspicious = false;
  suspicion_reason_codes = [];
  quality_weight = pos 1_000_000;
  source_url = none;
  posted_at = none;
  likes = none;
  comments_count = none;
  shares = none;
  views = none;
  sort_score = none;
}
