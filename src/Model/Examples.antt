-- ===== src/Model/Examples.antt =====
-- A run of the record parser.
use analysis_srv.Prelude.{◌≡◌, refl, true, Option, none, some}
use analysis_srv.Prelude.Int.{ℤ}
use analysis_srv.Prelude.Float.{scaled}
use analysis_srv.Prelude.Json.{Json, JsonDict, str, obj, end, field, get, as_dict, int}
use analysis_srv.Prelude.Text.{non_empty}
use analysis_srv.Prelude.Result.{ok}
use analysis_srv.Model.Uap.{UapRecord}
use analysis_srv.Model.Uap.Parse.{
  build_record, from_ingest_record, from_ingest_record-ids, preserved_raw, preserved_raw-get, kept,
}

-- `int(value)`, of a whole number.
abbrev to_int : Json ℤ → Option ℤ
to_int (int n) = some n
to_int _ = none

abbrev raw : JsonDict ℤ
raw =
    field "identity" (obj (field "project_id" (str "p") (field "uap_id" (str "u") end)))
      (field "domain_type_code" (str "d") (field "content" (obj (field "title" (str "t") end)) end))

abbrev parsed : UapRecord ℤ
parsed = build_record to_int "p" "u" raw

accepted : from_ingest_record to_int raw ≡ ok parsed
unfolding from_ingest_record get as_dict non_empty
accepted = refl

from_ingest_record-ids_example :
    (non_empty parsed.ingest.project_id ≡ true)
    × (non_empty parsed.content.doc_id ≡ true)
    × (parsed.event_id ≡ parsed.content.doc_id)
    × (str parsed.ingest.project_id ≡ get "project_id" (as_dict (get "identity" raw)))
    × (str parsed.content.doc_id ≡ get "uap_id" (as_dict (get "identity" raw)))
from_ingest_record-ids_example = from_ingest_record-ids to_int raw parsed accepted

preserved_raw-get_example :
    (get "domain_type_code" (preserved_raw to_int raw) ≡ kept to_int (get "domain_type_code" raw))
    × (get "hierarchy" (preserved_raw to_int raw) ≡ kept to_int (get "hierarchy" raw))
    × (get "platform_meta" (preserved_raw to_int raw) ≡ kept to_int (get "platform_meta" raw))
    × (get "crawl_keyword" (preserved_raw to_int raw) ≡ kept to_int (get "crawl_keyword" raw))
    × (get "content_title" (preserved_raw to_int raw)
        ≡ kept to_int (get "title" (as_dict (get "content" raw))))
    × (get "content_subtitle" (preserved_raw to_int raw)
        ≡ kept to_int (get "subtitle" (as_dict (get "content" raw))))
    × (get "content_keywords" (preserved_raw to_int raw)
        ≡ kept to_int (get "keywords" (as_dict (get "content" raw))))
    × (get "task_id" (preserved_raw to_int raw)
        ≡ kept to_int (get "task_id" (as_dict (get "identity" raw))))
preserved_raw-get_example = preserved_raw-get to_int raw
