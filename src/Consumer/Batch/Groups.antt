-- ===== src/Consumer/Batch/Groups.antt =====
-- The groups of a batch are its valid records, each in the group of its project and domain.
use mathlib.Core.Path.{subst}
use analysis_srv.Prelude.{
  sym, ap, ◌≡◌, refl, ◌∙◌, String, true, Option, none, some, List, [], ◌∷◌, ◌++◌, arith, filter,
  length, All, Option-cases, inl, inr,
}
use analysis_srv.Prelude.Eq.{◌==◌, text_key, pair_key}
use analysis_srv.Prelude.Dict.{group_by, values, items_at}
use analysis_srv.Prelude.Dict.Laws.{group_by-items_at, group_by-total, total}
use analysis_srv.Prelude.Dict.Keys.{group_by-All}
use analysis_srv.Prelude.Float.{Float}
use analysis_srv.Prelude.Int.{ℤ}
use analysis_srv.Prelude.Json.{Json, JsonDict, find}
use analysis_srv.Prelude.Result.{Result, ok, err}
use analysis_srv.Prelude.Text.{non_empty}
use analysis_srv.Model.Uap.{UapRecord, UapError}
use analysis_srv.Model.Uap.Parse.{from_ingest_record, from_ingest_record-ids}
use analysis_srv.Consumer.Batch.{
  Body, bad_json, envelope, group_key, accepted, parse_message, parse_batch, groups_of,
}

-- A project and a document id.
abbrev pub HasIds : {F : Type 0} → UapRecord F → Type 0
HasIds rec = (non_empty rec.ingest.project_id ≡ true) × (non_empty rec.content.doc_id ≡ true)

module _ {F : Type 0} ⦃fl : Float F⦄ (to_int : Json F → Option ℤ) where
  accepted-HasIds :
      (raw : JsonDict F) (rec : UapRecord F) (r : Result UapError (UapRecord F))
      → from_ingest_record to_int raw ≡ r
      → accepted r ≡ some rec
      → HasIds rec
  accepted-HasIds raw rec (err e) parsed h = cc
  accepted-HasIds raw rec (ok other) parsed h =
      let ids = from_ingest_record-ids to_int raw other parsed in
      let same : other ≡ rec = ground (arith, ids.0) in subst HasIds same (ids.0, ids.1)

  parse_message-HasIds :
      (message : Body F) (rec : UapRecord F) → parse_message to_int message ≡ some rec → HasIds rec
  unfolding parse_message
  parse_message-HasIds bad_json rec h = cc
  parse_message-HasIds (envelope raw) rec h = elim (Option-cases (find "identity" raw)) [
    | inl e ↦ cc (rw (parse_message, e) at h)
    | inr (identity, e) ↦
        accepted-HasIds raw rec (from_ingest_record to_int raw) refl (rw (parse_message, e) at h)
  ]

  parse_batch-HasIds : (messages : List (Body F)) → All HasIds (parse_batch to_int messages)
  unfolding parse_batch
  parse_batch-HasIds [] = tt
  parse_batch-HasIds (message ∷ messages) = elim (Option-cases (parse_message to_int message)) [
    | inl e ↦ rw (parse_batch, e) (parse_batch-HasIds messages)
    | inr (rec, e) ↦
        rw (parse_batch, e) (parse_message-HasIds message rec e, parse_batch-HasIds messages)
  ]

  parse_batch-append :
      (xs ys : List (Body F))
      → parse_batch to_int (xs ++ ys) ≡ parse_batch to_int xs ++ parse_batch to_int ys
  unfolding parse_batch
  parse_batch-append [] ys = refl
  parse_batch-append (x ∷ xs) ys = ground (arith, parse_batch-append xs ys)

  -- Bad messages between good ones change nothing; each group has the valid records of its project and
  -- domain, in their order, all with a project and a document id; and the groups hold all valid records.
  pub groups_of_lem :
      (before after : List (Body F)) (bad : Body F) (key : String × String)
      → parse_message to_int bad ≡ none
      → (groups_of to_int (before ++ bad ∷ after) ≡ groups_of to_int (before ++ after))
        × (items_at key (groups_of to_int (before ++ after))
            ≡ filter
                (λ rec. group_key rec == key)
                (parse_batch to_int before ++ parse_batch to_int after))
        × All (All HasIds) (values (groups_of to_int (before ++ after)))
        × (total (groups_of to_int (before ++ after))
            ≡ length (parse_batch to_int before ++ parse_batch to_int after))
  unfolding groups_of parse_batch
  groups_of_lem before after bad key skipped =
      let good = parse_batch to_int before ++ parse_batch to_int after in
      let same = parse_batch-append before after in
      let drops : parse_batch to_int (bad ∷ after) ≡ parse_batch to_int after =
        rw (parse_batch, skipped) refl in
      (
        ap (group_by group_key) (
            parse_batch-append before (bad ∷ after)
            ∙ ap (◌++◌ (parse_batch to_int before)) drops
            ∙ sym same),
        group_by-items_at group_key key (parse_batch to_int (before ++ after))
            ∙ ap (filter (λ rec. group_key rec == key)) same,
        group_by-All HasIds group_key (parse_batch to_int (before ++ after))
            (parse_batch-HasIds (before ++ after)),
        group_by-total group_key (parse_batch to_int (before ++ after)) ∙ ap length same,
      )
