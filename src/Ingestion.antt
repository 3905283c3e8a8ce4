-- ===== src/Ingestion.antt =====
-- The entry of the pipeline (internal/ingestion): the adapter that drops invalid records, the check
-- of a batch, and the helpers for depth and root. `repr` is Python's `repr` of a text.
pub mod Adapter
mod Examples
use analysis_srv.Prelude.{
  ℕ, zero, suc, ◌+◌, String, Bool, true, false, ◌&&◌, Option, none, some, List, [], ◌∷◌, ◌++◌,
  length, if◌then◌else◌,
}
use Prim.Native.String.{◌++◌ as ◌+s◌}
use analysis_srv.Prelude.Dict.{Dict}
use analysis_srv.Prelude.Dict
use analysis_srv.Prelude.Eq.{text_key}
use analysis_srv.Prelude.Result.{Result, ok, err}
use analysis_srv.Prelude.Text.{non_empty, or_else, or_empty}
use analysis_srv.Model.Uap.{UapRecord}
use analysis_srv.Pipeline.{Batch}

pub record IngestionStats : Type 0 where
  pub total_records : ℕ
  pub valid_records : ℕ
  pub invalid_records : ℕ
  pub error_messages : List String

-- IngestionStats(total_records=total)
abbrev pub start_stats : ℕ → IngestionStats
start_stats total = record {
  total_records = total;
  valid_records = 0;
  invalid_records = 0;
  error_messages = [];
}

-- InvalidRecordError
pub record InvalidRecord : Type 0 where
  pub record_id : String
  pub reason : String

abbrev pub doc_type_depth : Dict String ℕ
doc_type_depth =
    ("post", 0) ∷ ("video", 0) ∷ ("news", 0) ∷ ("feedback", 0) ∷ ("comment", 1) ∷ ("reply", 2) ∷ []

module _ {F : Type 0} where
  unfoldable pub detect_depth : UapRecord F → ℕ
  detect_depth record_ = elim (Dict.get record_.content.doc_type doc_type_depth) [
    | none ↦ 0
    | some depth ↦ depth
  ]

  abbrev parent_of : UapRecord F → String
  parent_of record_ = or_empty record_.content.parent_id

  unfoldable pub derive_root_id : UapRecord F → Dict String ℕ → String
  derive_root_id record_ depth_map = elim (detect_depth record_) [
    | zero ↦ record_.content.doc_id
    | suc depth ↦
        if non_empty (parent_of record_)
        then elim (Dict.get (parent_of record_) depth_map) [
          | some zero ↦ parent_of record_
          | _ ↦ or_else (parent_of record_) record_.content.doc_id
        ]
        else or_else (parent_of record_) record_.content.doc_id
  ]

  -- The two guards of the adapter's loop: the message of the one that drops the record.
  unfoldable pub complaint : (String → String) → UapRecord F → Option String
  complaint repr rec =
      if non_empty rec.content.doc_id
      then if non_empty rec.ingest.project_id
        then none
        else some (("record '" +s rec.content.doc_id) +s "' missing ingest.project_id")
      else some (("record missing doc_id (event_id=" +s repr rec.event_id) +s ")")

  -- The adapter's loop over the rest, with the counters that it has so far.
  unfoldable pub adapt_onto :
      (String → String) → List (UapRecord F) → IngestionStats → List (UapRecord F) × IngestionStats
  adapt_onto repr [] stats = ([], stats)
  adapt_onto repr (rec ∷ records) stats = elim (complaint repr rec) [
    | none ↦
        let rest =
          adapt_onto repr records (record stats { valid_records = suc stats.valid_records }) in
        (rec ∷ rest.0, rest.1)
    | some message ↦ adapt_onto repr records (record stats {
      invalid_records = suc stats.invalid_records;
      error_messages = stats.error_messages ++ message ∷ [];
    })
  ]

  unfoldable pub adapt_kafka_records :
      (String → String)
      → List (UapRecord F)
      → String
      → String
      → Batch (UapRecord F) × IngestionStats
  unfolding adapt_onto
  adapt_kafka_records repr records project_id campaign_id =
      let result = adapt_onto repr records (start_stats (length records)) in
      (record { records = result.0; project_id = project_id; campaign_id = campaign_id }, result.1)

  unfoldable pub validate_onto :
      List (UapRecord F) → IngestionStats → Result InvalidRecord IngestionStats
  validate_onto [] stats = ok stats
  validate_onto (rec ∷ records) stats =
      let doc_id = or_else (or_else rec.content.doc_id rec.event_id) "<unknown>" in
      let rest = validate_onto records (record stats { valid_records = suc stats.valid_records }) in
      if non_empty rec.content.doc_id
      then if non_empty rec.ingest.project_id
        then rest
        else err (record { record_id = doc_id; reason = "ingest.project_id is required" })
      else err (record { record_id = doc_id; reason = "content.doc_id is required" })

  unfoldable pub ingest_batch : Batch (UapRecord F) → Result InvalidRecord IngestionStats
  unfolding validate_onto
  ingest_batch bundle = validate_onto bundle.records (start_stats (length bundle.records))
