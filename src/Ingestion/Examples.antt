-- ===== src/Ingestion/Examples.antt =====
-- Runs of the adapter.
use analysis_srv.Prelude.{String, ◌≡◌, ◌+◌, List, [], ◌∷◌, length, filter}
use analysis_srv.Prelude.Int.{ℤ}
use analysis_srv.Prelude.Result.{ok}
use analysis_srv.Model.Uap.{UapRecord}
use analysis_srv.Model.Samples.{sample_record}
use analysis_srv.Ingestion.{adapt_kafka_records, ingest_batch}
use analysis_srv.Ingestion.Adapter.{is_valid, adapt_kafka_records-ingest_batch}

abbrev records : List (UapRecord ℤ)
records = sample_record "a" "post" ∷ sample_record "" "post" ∷ sample_record "b" "reply" ∷ []

abbrev quoted : String → String
quoted s = s

adapt_kafka_records-ingest_batch_example :
    let result = adapt_kafka_records quoted records "p" "c" in
    (result.0.records ≡ filter is_valid records)
    × (result.1.valid_records ≡ length result.0.records)
    × (result.1.valid_records + result.1.invalid_records ≡ length records)
    × (length result.1.error_messages ≡ result.1.invalid_records)
    × (ingest_batch result.0
        ≡ ok (record {
          total_records = length result.0.records;
          valid_records = length result.0.records;
          invalid_records = 0;
          error_messages = [];
        }))
adapt_kafka_records-ingest_batch_example = adapt_kafka_records-ingest_batch quoted records "p" "c"

abbrev reply : UapRecord ℤ
reply = sample_record "b" "reply"
