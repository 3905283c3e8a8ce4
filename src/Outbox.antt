-- ===== src/Outbox.antt =====
-- The transactional outbox (internal/outbox): rows of `analytics_outbox`, the idempotent insert and
-- the relay loop over the pending rows. A table is the list of its rows. `now` is the database's
-- clock; the producer is a parameter, with its state and the exception that a send may raise. The
-- statements on the connection do not fail here, and one worker runs, so no row is locked by another.
pub mod Write
pub mod Relay
mod Examples
use analysis_srv.Prelude.{
  ℕ, ◌+◌, String, Bool, true, false, Option, none, some, List, [], ◌∷◌, ◌++◌, leb, any, map, filter,
  take, if◌then◌else◌,
}
use analysis_srv.Prelude.Eq.{◌==◌, text_key}
use analysis_srv.Prelude.Sort.{sort_by}
use analysis_srv.Prelude.Result.{Result, ok, err}

pub data OutboxStatus : Type 0 where
  pending sent failed : OutboxStatus

pub record OutboxRecord (P : Type 0) : Type 0 where
  pub id : String
  pub run_id : String
  pub topic : String
  pub payload : P
  pub status : OutboxStatus
  pub created_at : ℕ
  pub sent_at : Option ℕ
  pub error : Option String

pub record RelayResult : Type 0 where
  pub attempted : ℕ
  pub sent : ℕ
  pub failed : ℕ

abbrev pub relay_batch_size : ℕ
relay_batch_size = 50

abbrev pub is_pending : {P : Type 0} → OutboxRecord P → Bool
is_pending row = elim row.status [ pending ↦ true | sent ↦ false | failed ↦ false ]

abbrev pub has_id : {P : Type 0} → String → OutboxRecord P → Bool
has_id key row = row.id == key

abbrev pub not_younger : {P : Type 0} → OutboxRecord P → OutboxRecord P → Bool
not_younger a b = leb a.created_at b.created_at

module _ {P : Type 0} where
  -- INSERT ... ON CONFLICT (id) DO NOTHING
  unfoldable pub write_outbox_record :
      ℕ → OutboxRecord P → List (OutboxRecord P) → List (OutboxRecord P)
  write_outbox_record now row rows =
      if any (has_id row.id) rows
      then rows
      else rows
        ++ record row { status = pending; created_at = now; sent_at = none; error = none } ∷ []

  -- SELECT ... WHERE status = 'pending' ORDER BY created_at LIMIT n
  unfoldable pub poll : ℕ → List (OutboxRecord P) → List (OutboxRecord P)
  poll n rows = take n (sort_by not_younger (filter is_pending rows))

  -- UPDATE ... WHERE id = key
  unfoldable pub update :
      String → (OutboxRecord P → OutboxRecord P) → List (OutboxRecord P) → List (OutboxRecord P)
  update key f [] = []
  update key f (row ∷ rows) = (if has_id key row then f row else row) ∷ update key f rows

  abbrev pub mark_sent : ℕ → OutboxRecord P → OutboxRecord P
  mark_sent now row = record row { status = sent; sent_at = some now }

  abbrev pub mark_failed : String → OutboxRecord P → OutboxRecord P
  mark_failed message row = record row { status = failed; error = some message }

pub record Relayed (P S : Type 0) : Type 0 where
  pub result : RelayResult
  pub rows : List (OutboxRecord P)
  pub producer : S

module _ {P S : Type 0} (send : String → P → S → Result String (Unit {0}) × S) (now : ℕ) where
  -- What follows the call of `send`: the row is marked, and the counts go up.
  unfoldable pub settle : OutboxRecord P → Result String (Unit {0}) → S → Relayed P S → Relayed P S
  settle row (ok _) p r = record {
    result = record r.result { attempted = r.result.attempted + 1; sent = r.result.sent + 1 };
    rows = update row.id (mark_sent now) r.rows;
    producer = p;
  }
  settle row (err message) p r = record {
    result = record r.result { attempted = r.result.attempted + 1; failed = r.result.failed + 1 };
    rows = update row.id (mark_failed message) r.rows;
    producer = p;
  }

  unfoldable pub relay_row : OutboxRecord P → Relayed P S → Relayed P S
  unfolding settle
  relay_row row r =
      let (outcome, p) = send row.topic row.payload r.producer in settle row outcome p r

  unfoldable pub relay_rows : List (OutboxRecord P) → Relayed P S → Relayed P S
  unfolding relay_row
  relay_rows [] r = r
  relay_rows (row ∷ rows) r = relay_rows rows (relay_row row r)

  unfoldable pub relay_pending_records : List (OutboxRecord P) → S → Relayed P S
  unfolding relay_rows poll
  relay_pending_records rows p = relay_rows (poll relay_batch_size rows) (record {
    result = record { attempted = 0; sent = 0; failed = 0 };
    rows = rows;
    producer = p;
  })
