-- ===== src/Outbox/Write.antt =====
-- The insert of the outbox: idempotent, and one row to an id.
use analysis_srv.Prelude.{
  ℕ, ◌≤◌, String, ◌≡◌, refl, Bool, false, none, ◌||◌, List, [], ◌∷◌, ◌++◌, arith, any, count,
  count-append,
}
use analysis_srv.Prelude.Eq.{==_iff, text_key}
use analysis_srv.Outbox.{OutboxRecord, has_id, write_outbox_record, pending}

-- Each id stands in at most one row.
abbrev pub HasUniqueIds : {P : Type 0} → List (OutboxRecord P) → Type 0
HasUniqueIds rows = (key : String) → count (has_id key) rows ≤ 1

module _ {P : Type 0} where
  count-zero :
      (key : String) (rows : List (OutboxRecord P))
      → any (has_id key) rows ≡ false
      → count (has_id key) rows ≡ 0
  count-zero key [] h = refl
  count-zero key (row ∷ rows) h = ground (arith, count-zero key rows)

  any-append :
      (t : OutboxRecord P → Bool) (xs ys : List (OutboxRecord P))
      → any t (xs ++ ys) ≡ (any t xs || any t ys)
  any-append t [] ys = refl
  any-append t (x ∷ xs) ys = ground (arith, any-append t xs ys)

  -- A write keeps each id in at most one row, if each was before.
  pub write-HasUniqueIds :
      (now : ℕ) (row : OutboxRecord P) (rows : List (OutboxRecord P))
      → HasUniqueIds rows
      → HasUniqueIds (write_outbox_record now row rows)
  unfolding write_outbox_record
  write-HasUniqueIds now row rows unique key = ground (
    arith,
    unique key,
    count-zero key rows,
    ==_iff row.id key,
    count-append (has_id key) rows
        (record row { status = pending; created_at = now; sent_at = none; error = none } ∷ []),
  )

  -- Writing a record with an id that was just written, at another time or with other contents, does
  -- nothing.
  pub write_twice :
      (now later : ℕ) (row again : OutboxRecord P) (rows : List (OutboxRecord P))
      → again.id ≡ row.id
      → write_outbox_record later again (write_outbox_record now row rows)
        ≡ write_outbox_record now row rows
  unfolding write_outbox_record
  write_twice now later row again rows same = ground (
    arith,
    ==_iff row.id row.id,
    ==_iff row.id again.id,
    any-append (has_id row.id) rows
        (record row { status = pending; created_at = now; sent_at = none; error = none } ∷ []),
  )
