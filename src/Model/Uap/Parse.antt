-- ===== src/Model/Uap/Parse.antt =====
-- `UAPRecord.from_ingest_record`: validation, mapping and the metadata that `raw` keeps.
use analysis_srv.Prelude.{
  String, ◌≡◌, true, ◌&&◌, Option, none, some, List, [], ◌∷◌, if◌then◌else◌, arith, refl,
}
use analysis_srv.Prelude.Eq.{◌==◌, text_key}
use analysis_srv.Prelude.Int.{ℤ, pos}
use analysis_srv.Prelude.Float.{Float}
use analysis_srv.Prelude.Json.{
  Json, JsonList, JsonDict, null, bool, int, float, str, arr, obj, nil, cons, end, field, get,
  as_dict, truthy,
}
use analysis_srv.Prelude.Text.{non_empty, or_else, lower}
use analysis_srv.Prelude.Result.{Result, ok, err}
use analysis_srv.Model.Uap.{
  UapRecord, UapAttachment, UapError, project_id_required, uap_id_required, text_or, text_or_none,
}

module _ {F : Type 0} where
  as_list : Json F → JsonList F
  as_list (arr vs) = vs
  as_list _ = nil

  -- The loop over `media`: entries that are no objects are passed over.
  unfoldable pub attachments_of : JsonList F → List UapAttachment
  unfolding text_or get
  attachments_of nil = []
  attachments_of (cons (obj m) rest) =
      record {
        type = text_or "" (get "type" m);
        url = or_else (text_or "" (get "url" m)) (text_or "" (get "download_url" m));
        content = "";
      }
      ∷ attachments_of rest
  attachments_of (cons _ rest) = attachments_of rest

module _ {F : Type 0} ⦃fl : Float F⦄ (to_int : Json F → Option ℤ) where
  unfoldable pub safe_int : Json F → ℤ
  safe_int null = pos 0
  safe_int v = elim (to_int v) [ none ↦ pos 0 | some n ↦ n ]

  -- `if value: preserved_raw[key] = value`
  unfoldable pub keep : String → Json F → JsonDict F → JsonDict F
  unfolding truthy
  keep key v rest = if truthy v then field key v rest else rest

  unfoldable pub preserved_raw : JsonDict F → JsonDict F
  unfolding keep get as_dict
  preserved_raw raw =
      let content = as_dict (get "content" raw) in
      keep "domain_type_code" (get "domain_type_code" raw) (
        keep "hierarchy" (get "hierarchy" raw) (
          keep "platform_meta" (get "platform_meta" raw) (
            keep "crawl_keyword" (get "crawl_keyword" raw) (
              keep "content_title" (get "title" content) (
                keep "content_subtitle" (get "subtitle" content) (
                  keep "content_keywords" (get "keywords" content)
                    (keep "task_id" (get "task_id" (as_dict (get "identity" raw))) end)))))))

  -- The record, once the two required fields are known to be there.
  unfoldable pub build_record : String → String → JsonDict F → UapRecord F
  unfolding preserved_raw safe_int attachments_of as_list text_or text_or_none
  build_record project_id uap_id raw =
      let identity = as_dict (get "identity" raw) in
      let content = as_dict (get "content" raw) in
      let author = as_dict (get "author" raw) in
      let engagement = as_dict (get "engagement" raw) in
      let temporal = as_dict (get "temporal" raw) in
      let crawl_keyword = text_or "" (get "crawl_keyword" raw) in
      record {
        event_id = uap_id;
        ingest = record {
          project_id = project_id;
          source = record {
            source_id = text_or "" (get "origin_id" identity);
            source_type = text_or "" (get "platform" identity);
          };
          received_at = text_or "" (get "ingested_at" temporal);
          mapping_id = text_or "" (get "task_id" identity);
        };
        content = record {
          doc_id = uap_id;
          doc_type = lower (or_else (text_or "" (get "uap_type" identity)) "post");
          text = text_or "" (get "text" content);
          url = text_or_none (get "url" identity);
          language = text_or_none (get "language" content);
          published_at = text_or_none (get "posted_at" temporal);
          author = record {
            author_id = text_or_none (get "id" author);
            display_name = text_or_none (get "nickname" author);
            username = text_or_none (get "username" author);
            avatar_url = text_or_none (get "avatar" author);
            is_verified = truthy (get "is_verified" author);
          };
          parent_id = text_or_none (get "parent_id" (as_dict (get "hierarchy" raw)));
          attachments = attachments_of (as_list (get "media" raw));
        };
        engagement = record {
          like_count = safe_int (get "likes" engagement);
          comment_count = safe_int (get "comments_count" engagement);
          share_count = safe_int (get "shares" engagement);
          view_count = safe_int (get "views" engagement);
          save_count = safe_int (get "saves" engagement);
        };
        context = record {
          keywords_matched = if non_empty crawl_keyword then crawl_keyword ∷ [] else [];
          campaign_id = none;
        };
        domain_type_code = text_or "" (get "domain_type_code" raw);
        raw = preserved_raw raw;
      }

  unfoldable pub from_ingest_record : JsonDict F → Result UapError (UapRecord F)
  unfolding text_or get as_dict build_record non_empty
  from_ingest_record raw =
      let identity = as_dict (get "identity" raw) in
      let project_id = text_or "" (get "project_id" identity) in
      let uap_id = text_or "" (get "uap_id" identity) in
      if non_empty project_id
      then (if non_empty uap_id
          then ok (build_record project_id uap_id raw)
          else err uap_id_required)
      else err project_id_required

  text_or-str : (v : Json F) → non_empty (text_or "" v) ≡ true → str (text_or "" v) ≡ v
  unfolding text_or non_empty
  text_or-str (str s) h = refl
  text_or-str null h = cc
  text_or-str (bool b) h = cc
  text_or-str (int n) h = cc
  text_or-str (float x) h = cc
  text_or-str (arr vs) h = cc
  text_or-str (obj d) h = cc

  -- A record that the parser lets through has a project and a document id, the ones that were sent,
  -- and its event id is its document id.
  pub from_ingest_record-ids :
      (raw : JsonDict F) (r : UapRecord F)
      → from_ingest_record raw ≡ ok r
      → (non_empty r.ingest.project_id ≡ true)
        × (non_empty r.content.doc_id ≡ true)
        × (r.event_id ≡ r.content.doc_id)
        × (str r.ingest.project_id ≡ get "project_id" (as_dict (get "identity" raw)))
        × (str r.content.doc_id ≡ get "uap_id" (as_dict (get "identity" raw)))
  unfolding from_ingest_record
  from_ingest_record-ids raw r h =
      let identity = as_dict (get "identity" raw) in
      ground (arith, text_or-str (get "project_id" identity), text_or-str (get "uap_id" identity))

  get-keep :
      (j k : String) (v : Json F) (rest : JsonDict F)
      → get k (keep j v rest) ≡ (if (j == k) && truthy v then v else get k rest)
  unfolding get keep
  get-keep j k v rest = ground arith

  get-end : (k : String) → get {F = F} k end ≡ null
  unfolding get
  get-end k = refl

  ruleset keep_laws = (get-keep, get-end)

  -- What `d.get(key)` gives after `keep` wrote it.
  abbrev pub kept : Json F → Json F
  kept v = if truthy v then v else null

  -- Each of the eight values that the parser keeps for the later stages stands in `raw` under its key if
  -- it is truthy, whatever the others are, and its key is absent otherwise.
  pub preserved_raw-get :
      (raw : JsonDict F)
      → (get "domain_type_code" (preserved_raw raw) ≡ kept (get "domain_type_code" raw))
        × (get "hierarchy" (preserved_raw raw) ≡ kept (get "hierarchy" raw))
        × (get "platform_meta" (preserved_raw raw) ≡ kept (get "platform_meta" raw))
        × (get "crawl_keyword" (preserved_raw raw) ≡ kept (get "crawl_keyword" raw))
        × (get "content_title" (preserved_raw raw)
            ≡ kept (get "title" (as_dict (get "content" raw))))
        × (get "content_subtitle" (preserved_raw raw)
            ≡ kept (get "subtitle" (as_dict (get "content" raw))))
        × (get "content_keywords" (preserved_raw raw)
            ≡ kept (get "keywords" (as_dict (get "content" raw))))
        × (get "task_id" (preserved_raw raw) ≡ kept (get "task_id" (as_dict (get "identity" raw))))
  unfolding preserved_raw
  preserved_raw-get raw = (
    simp keep_laws,
    simp keep_laws,
    simp keep_laws,
    simp keep_laws,
    simp keep_laws,
    simp keep_laws,
    simp keep_laws,
    simp keep_laws,
  )
