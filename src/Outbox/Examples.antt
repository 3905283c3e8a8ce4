-- ===== src/Outbox/Examples.antt =====
-- Runs of the outbox.
use Prim.Native.Nat.{min}
use analysis_srv.Prelude.{ℕ, String, ◌≡◌, ◌+◌, Bool, true, false, none, List, [], ◌∷◌, count}
use analysis_srv.Prelude.Result.{Result, ok, err}
use analysis_srv.Prelude.Eq.{text_key}
use analysis_srv.Outbox.{
  OutboxRecord, pending, sent, is_pending, relay_batch_size, relay_pending_records,
}
use analysis_srv.Outbox.Relay.{relay_counts}

abbrev row : String → ℕ → OutboxRecord ℕ
row key at = record {
  id = key;
  run_id = "r";
  topic = "t";
  payload = at;
  status = pending;
  created_at = at;
  sent_at = none;
  error = none;
}

abbrev rows : List (OutboxRecord ℕ)
rows = row "a" 2 ∷ record (row "b" 1) { status = sent } ∷ row "c" 3 ∷ []

-- A producer that raises on every second call.
abbrev every_other : String → ℕ → Bool → Result String (Unit {0}) × Bool
every_other topic payload true = (ok tt, false)
every_other topic payload false = (err "no broker", true)

relay_counts_example :
    let q = (relay_pending_records every_other 9 rows true).result in
    (q.attempted ≡ min relay_batch_size (count is_pending rows)) × (q.attempted ≡ q.sent + q.failed)
relay_counts_example = relay_counts every_other 9 rows true
