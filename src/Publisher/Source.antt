-- ===== src/Publisher/Source.antt =====
-- The `source` block of a document (`_map_source` and its helpers in publish_batch.py). The edit of
-- a URL's query by `urllib` is the argument `with_query_param`; `err` is the message of a ValueError, which
-- `urlparse` raises on some URLs, such as "https://[x".
use text.Mathlib.Text.{starts_with}
use Prim.Native.String.{◌++◌ as cat}
use analysis_srv.Prelude.{
  String, Bool, true, false, not, ◌&&◌, ◌||◌, [], ◌∷◌, ◌++◌, filter, if◌then◌else◌,
}
use analysis_srv.Prelude.Result.{Result, ok, err}
use analysis_srv.Prelude.Eq.{◌==◌, text_key}
use analysis_srv.Prelude.Dict.{Dict}
use analysis_srv.Prelude.Json.{
  Json, JsonDict, null, str, arr, obj, bool, int, float, nil, cons, end, field, get, as_dict,
}
use analysis_srv.Prelude.Text.{non_empty, or_empty, lower, strip, drop_chars}
use analysis_srv.Model.Uap.{UapRecord, text_or}

unfoldable pub is_http_url : String → Bool
is_http_url url = starts_with url "https://" || starts_with url "http://"

-- `v in ("", None, {}, [])`
unfoldable pub is_blank : {F : Type 0} → Json F → Bool
unfolding non_empty
is_blank null = true
is_blank (str s) = not (non_empty s)
is_blank (obj end) = true
is_blank (arr nil) = true
is_blank (obj (field k v d)) = false
is_blank (arr (cons v vs)) = false
is_blank (bool b) = false
is_blank (int n) = false
is_blank (float x) = false

module _ {F : Type 0} (with_query_param : String → String → String → Result String String) where
  -- str(d.get(key) or "")
  abbrev text_at : String → JsonDict F → String
  text_at key d = text_or "" (get key d)

  unfoldable pub platform_parent_url : UapRecord F → JsonDict F → JsonDict F → String
  unfolding text_or get as_dict strip lower is_http_url drop_chars
  platform_parent_url uap platform_meta hierarchy =
      let youtube = as_dict (get "youtube" platform_meta) in
      let parent_url = strip (text_at "parent_url" youtube) in
      let root_id = strip (text_at "root_id" hierarchy) in
      let given = strip (text_at "parent_video_id" youtube) in
      let video_id =
        if not (non_empty given) && starts_with root_id "yt_p_"
        then drop_chars 5 root_id
        else given in
      let url =
        if not (non_empty parent_url) && non_empty video_id
        then cat "https://www.youtube.com/watch?v=" video_id
        else parent_url in
      if (lower (strip uap.ingest.source.source_type) == "youtube") && is_http_url url
      then url
      else ""

  unfoldable pub resolve_original_url : UapRecord F → Result String String
  unfolding platform_parent_url or_empty
  resolve_original_url uap =
      let fallback_url = or_empty uap.content.url in
      let parent_url =
        platform_parent_url uap (as_dict (get "platform_meta" uap.raw))
          (as_dict (get "hierarchy" uap.raw)) in
      let source_id = strip uap.ingest.source.source_id in
      if is_http_url fallback_url
      then ok fallback_url
      else if is_http_url parent_url
      then if (lower (strip uap.content.doc_type) == "comment") && non_empty source_id
        then with_query_param parent_url "lc" source_id
        else ok parent_url
      else ok ""

  -- The block, once the original URL is known.
  unfoldable pub source_with : UapRecord F → String → Dict String (Json F)
  unfolding is_blank platform_parent_url
  source_with uap original_url =
      let hierarchy = as_dict (get "hierarchy" uap.raw) in
      let platform_meta = as_dict (get "platform_meta" uap.raw) in
      let given_url = or_empty uap.content.url in
      let author = uap.content.author in
      filter (λ p. not (is_blank p.1))
        (("url", str (if is_http_url given_url then given_url else ""))
            ∷ ("original_url", str original_url)
            ∷ ("permalink", str original_url)
            ∷ ("source_url", str original_url)
            ∷ ("web_url", str original_url)
            ∷ ("parent_post_url", str (platform_parent_url uap platform_meta hierarchy))
            ∷ ("content_type", str (lower uap.content.doc_type))
            ∷ ("root_id", str (text_at "root_id" hierarchy))
            ∷ ("parent_id", str (text_at "parent_id" hierarchy))
            ∷ ("platform_meta", obj platform_meta)
            ∷ ("hierarchy", obj hierarchy)
            ∷ (if lower uap.content.doc_type == "comment"
                then ("comment_url", str original_url) ∷ []
                else [])
          ++ ("author", str (or_empty author.author_id))
            ∷ ("author_display_name", str (or_empty author.display_name))
            ∷ ("author_username", str (or_empty author.username))
            ∷ ("author_avatar", str (or_empty author.avatar_url))
            ∷ [])

  unfoldable pub map_source : UapRecord F → Result String (Dict String (Json F))
  unfolding resolve_original_url source_with
  map_source uap = elim (resolve_original_url uap) [
    | ok original_url ↦ ok (source_with uap original_url)
    | err e ↦ err e
  ]
