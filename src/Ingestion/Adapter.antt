-- ===== src/Ingestion/Adapter.antt =====
-- What the adapter keeps, and that what it keeps is a valid batch.
use mathlib.Core.Path.{subst}
use analysis_srv.Prelude.{
  ℕ, suc, ◌+◌, ◌≤◌, String, ◌≡◌, refl, sym, ap, ◌∙◌, Bool, true, false, ◌&&◌, none, some, ◌⊎◌, List,
  [], ◌∷◌, ◌++◌, length, filter, filter-All, All, count, arith, length-append, length-filter,
  Bool-cases, inl, inr,
}
use analysis_srv.Prelude.Dict.{Dict}
use analysis_srv.Prelude.Result.{ok}
use analysis_srv.Prelude.Text.{non_empty, or_empty}
use analysis_srv.Model.Uap.{UapRecord}
use analysis_srv.Ingestion.{
  IngestionStats, start_stats, adapt_onto, complaint, adapt_kafka_records, validate_onto,
  ingest_batch, derive_root_id, detect_depth,
}
use Prim.Native.String.{◌++◌ as ◌+s◌}

both-true : (a b : Bool) → (a && b) ≡ true → (a ≡ true) × (b ≡ true)
both-true true b h = (refl, h)
both-true false b h = ground arith

module _ {F : Type 0} where
  -- The record has an id and a project.
  abbrev pub is_valid : UapRecord F → Bool
  is_valid rec = non_empty rec.content.doc_id && non_empty rec.ingest.project_id

  -- What the loop has added to the counters.
  abbrev Adds : List (UapRecord F) → IngestionStats → IngestionStats → Type 0
  Adds records before after =
      (after.total_records ≡ before.total_records)
      × (after.valid_records ≡ before.valid_records + count is_valid records)
      × (after.valid_records + after.invalid_records
          ≡ (before.valid_records + before.invalid_records) + length records)
      × (length after.error_messages + before.invalid_records
          ≡ length before.error_messages + after.invalid_records)

  complaint-cases :
      (repr : String → String) (rec : UapRecord F)
      → (complaint repr rec ≡ none) × (is_valid rec ≡ true)
        ⊎ ((message : String) × ((complaint repr rec ≡ some message) × (is_valid rec ≡ false)))
  unfolding complaint
  complaint-cases repr rec = elim (Bool-cases (non_empty rec.content.doc_id)) [
    | inl named ↦ elim (Bool-cases (non_empty rec.ingest.project_id)) [
      | inl owned ↦ inl (rw (named, owned) refl, rw (named, owned) refl)
      | inr not_owned ↦ inr (
        ("record '" +s rec.content.doc_id) +s "' missing ingest.project_id",
        (simp (named, not_owned) refl, simp (named, not_owned) refl),
      )
    ]
    | inr unnamed ↦ inr (
      ("record missing doc_id (event_id=" +s repr rec.event_id) +s ")",
      (simp unnamed refl, simp unnamed refl),
    )
  ]

  adapt_onto_keeps :
      (repr : String → String) (records : List (UapRecord F)) (stats : IngestionStats)
      → (adapt_onto repr records stats).0 ≡ filter is_valid records
  unfolding adapt_onto
  adapt_onto_keeps repr [] stats = refl
  adapt_onto_keeps repr (rec ∷ records) stats = elim (complaint-cases repr rec) [
    | inl (e, valid) ↦
        rw (adapt_onto, e, valid)
          (ap (◌∷◌ rec) (
            adapt_onto_keeps repr records
              (record stats { valid_records = suc stats.valid_records })))
    | inr (message, (e, invalid)) ↦ rw (adapt_onto, e, invalid) (adapt_onto_keeps repr records _)
  ]

  adapt_onto-Adds :
      (repr : String → String) (records : List (UapRecord F)) (stats : IngestionStats)
      → Adds records stats (adapt_onto repr records stats).1
  unfolding adapt_onto
  adapt_onto-Adds repr [] stats = (refl, omega arith, omega arith, omega arith)
  adapt_onto-Adds repr (rec ∷ records) stats = elim (complaint-cases repr rec) [
    | inl (e, valid) ↦
        rw (adapt_onto, e, valid)
          (ground (
            arith,
            adapt_onto-Adds repr records (record stats { valid_records = suc stats.valid_records }),
          ))
    | inr (message, (e, invalid)) ↦
        rw (adapt_onto, e, invalid)
          (ground (
            arith,
            length-append stats.error_messages (message ∷ []),
            adapt_onto-Adds repr records (record stats {
              invalid_records = suc stats.invalid_records;
              error_messages = stats.error_messages ++ message ∷ [];
            }),
          ))
  ]

  validate_onto_accepts :
      (records : List (UapRecord F)) (stats : IngestionStats)
      → All (λ rec. is_valid rec ≡ true) records
      → validate_onto records stats
        ≡ ok (record stats { valid_records = stats.valid_records + length records })
  unfolding validate_onto
  validate_onto_accepts [] stats h = ap (λ n. ok (record stats { valid_records = n })) (omega arith)
  validate_onto_accepts (rec ∷ records) stats (h, hs) =
      let (named, owned) =
        both-true (non_empty rec.content.doc_id) (non_empty rec.ingest.project_id) h in
      simp (named, owned)
        (validate_onto_accepts records (record stats { valid_records = suc stats.valid_records }) hs
          ∙ ap (λ n. ok (record stats { valid_records = n })) (omega arith))

  -- The adapter keeps exactly the records with an id and a project, in their order; its counters add
  -- up to the size of the batch, with one message for each dropped record; and the check accepts what
  -- the adapter returns, with every record counted as valid.
  pub adapt_kafka_records-ingest_batch :
      (repr : String → String) (records : List (UapRecord F)) (project_id campaign_id : String)
      → let result = adapt_kafka_records repr records project_id campaign_id in
        (result.0.records ≡ filter is_valid records)
        × (result.1.valid_records ≡ length result.0.records)
        × (result.1.valid_records + result.1.invalid_records ≡ length records)
        × (length result.1.error_messages ≡ result.1.invalid_records)
        × (ingest_batch result.0
            ≡ ok (record {
              total_records = length result.0.records;
              valid_records = length result.0.records;
              invalid_records = 0;
              error_messages = [];
            }))
  unfolding adapt_kafka_records ingest_batch
  adapt_kafka_records-ingest_batch repr records project_id campaign_id =
      let bundle_records = (adapt_onto repr records (start_stats (length records))).0 in
      let kept = adapt_onto_keeps repr records (start_stats (length records)) in
      let adds = adapt_onto-Adds repr records (start_stats (length records)) in
      (
        kept,
        omega (arith, adds.1, length-filter is_valid records, ap length kept),
        omega (arith, adds.2),
        omega (arith, adds.3),
        validate_onto_accepts bundle_records (start_stats (length bundle_records))
              (subst (All (λ rec. is_valid rec ≡ true)) (sym kept) (filter-All is_valid records))
            ∙ ap (λ n. ok (record (start_stats (length bundle_records)) { valid_records = n }))
                (omega arith),
      )

  -- A record with an id has a root: whatever the batch knows of its parent, `derive_root_id` returns
  -- the id of the record or of its parent, which is not
  -- empty, and the parent's only for a record below depth 0.
  pub derive_root_id-non_empty :
      (rec : UapRecord F) (depth_map : Dict String ℕ)
      → non_empty rec.content.doc_id ≡ true
      → (non_empty (derive_root_id rec depth_map) ≡ true)
        × ((derive_root_id rec depth_map ≡ rec.content.doc_id)
            ⊎ ((1 ≤ detect_depth rec)
                × (derive_root_id rec depth_map ≡ or_empty rec.content.parent_id)))
  unfolding derive_root_id
  derive_root_id-non_empty rec depth_map named = ground arith
