-- ===== src/Outbox/Relay.antt =====
-- One relay cycle: what it counts, which rows it settles, and which it leaves alone.
use Prim.Native.Nat.{min}
use analysis_srv.Prelude.{
  ℕ, ◌+◌, String, ◌≡◌, refl, ◌∙◌, Bool, false, ◌&&◌, List, [], ◌∷◌, arith, any, count, filter,
  length, length-filter, length-take, Bool-cases, inl, inr,
}
use analysis_srv.Prelude.Eq.{◌==◌, ==_iff, text_key}
use analysis_srv.Prelude.Result.{Result, ok, err}
use analysis_srv.Prelude.Sort.{sort_by, length-sort_by}
use analysis_srv.Outbox.{
  OutboxRecord, Relayed, has_id, is_pending, not_younger, poll, update, mark_sent, mark_failed,
  settle, relay_row, relay_rows, relay_pending_records, relay_batch_size,
}

abbrev pub waits_under : {P : Type 0} → String → OutboxRecord P → Bool
waits_under key row = has_id key row && is_pending row

module _ {P : Type 0} (f : OutboxRecord P → OutboxRecord P) where
  -- What the two updates of a relay have in common.
  abbrev Settles : Type 0
  Settles = (row : OutboxRecord P) → ((f row).id ≡ row.id) × (is_pending (f row) ≡ false)

  update-other :
      Settles
      → (j key : String) (rows : List (OutboxRecord P)) → (j == key) ≡ false
      → filter (has_id key) (update j f rows) ≡ filter (has_id key) rows
  unfolding update
  update-other s j key [] h = refl
  update-other s j key (row ∷ rows) h = elim (Bool-cases (has_id j row)) [
    | inl e ↦ rw e (
        ground (
          arith,
          s row,
          update-other s j key rows,
          ==_iff row.id j,
          ==_iff row.id key,
          ==_iff (f row).id key,
          ==_iff j key,
        ))
    | inr e ↦ rw e (ground (arith, update-other s j key rows))
  ]

module _ {P S : Type 0} (send : String → P → S → Result String (Unit {0}) × S) (now : ℕ) where
  mark_sent-Settles : Settles {P = P} (mark_sent now)
  mark_sent-Settles row = (refl, refl)

  mark_failed-Settles : (message : String) → Settles {P = P} (mark_failed message)
  mark_failed-Settles message row = (refl, refl)

  settle-other :
      (key : String) (row : OutboxRecord P) (outcome : Result String (Unit {0})) (p : S)
      (r : Relayed P S)
      → (row.id == key) ≡ false
      → filter (has_id key) (settle send now row outcome p r).rows ≡ filter (has_id key) r.rows
  unfolding settle
  settle-other key row (ok u) p r = update-other (mark_sent now) mark_sent-Settles row.id key r.rows
  settle-other key row (err m) p r =
      update-other (mark_failed m) (mark_failed-Settles m) row.id key r.rows

  settle-result :
      (row : OutboxRecord P) (outcome : Result String (Unit {0})) (p : S) (r : Relayed P S)
      → let q = (settle send now row outcome p r).result in
        (q.attempted ≡ r.result.attempted + 1)
        × (q.sent + q.failed ≡ r.result.sent + r.result.failed + 1)
  unfolding settle
  settle-result row (ok u) p r = omega arith
  settle-result row (err m) p r = omega arith

  relay_rows-other :
      (key : String) (batch : List (OutboxRecord P)) (r : Relayed P S)
      → any (has_id key) batch ≡ false
      → filter (has_id key) (relay_rows send now batch r).rows ≡ filter (has_id key) r.rows
  unfolding relay_rows relay_row
  relay_rows-other key [] r h = refl
  relay_rows-other key (row ∷ batch) r h =
      let (outcome, p) = send row.topic row.payload r.producer in
      relay_rows-other key batch (settle send now row outcome p r) (ground arith)
      ∙ settle-other key row outcome p r (ground arith)

  relay_rows-result :
      (batch : List (OutboxRecord P)) (r : Relayed P S)
      → let q = (relay_rows send now batch r).result in
        (q.attempted ≡ r.result.attempted + length batch)
        × (q.sent + q.failed ≡ r.result.sent + r.result.failed + length batch)
  unfolding relay_rows relay_row
  relay_rows-result [] r = omega arith
  relay_rows-result (row ∷ batch) r =
      let (outcome, p) = send row.topic row.payload r.producer in
      omega (
        arith,
        relay_rows-result batch (settle send now row outcome p r),
        settle-result row outcome p r,
      )

  -- A cycle attempts every pending row up to the batch size, and counts each as sent or as failed.
  pub relay_counts :
      (rows : List (OutboxRecord P)) (p : S)
      → let q = (relay_pending_records send now rows p).result in
        (q.attempted ≡ min relay_batch_size (count is_pending rows))
        × (q.attempted ≡ q.sent + q.failed)
  unfolding relay_pending_records poll
  relay_counts rows p = omega (
    arith,
    relay_rows-result (poll relay_batch_size rows) (record {
      result = record { attempted = 0; sent = 0; failed = 0 };
      rows = rows;
      producer = p;
    }),
    length-take relay_batch_size (sort_by not_younger (filter is_pending rows)),
    length-sort_by not_younger (filter is_pending rows),
    length-filter is_pending rows,
  )

  -- The rows of an id that was not polled are as before.
  pub relay_others :
      (key : String) (rows : List (OutboxRecord P)) (p : S)
      → any (has_id key) (poll relay_batch_size rows) ≡ false
      → filter (has_id key) (relay_pending_records send now rows p).rows ≡ filter (has_id key) rows
  unfolding relay_pending_records
  relay_others key rows p other = relay_rows-other key (poll relay_batch_size rows) _ other
